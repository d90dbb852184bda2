-- ===== src/Tests/Served.antt =====
-- src/ures/loop.c and src/ures/main.c with an inactivity timeout, at concrete inputs.
use nemo_core.Prelude.{
  ℕ, ◌≡◌, refl, inl, inr, true, false, none, some, List, [], ◌∷◌, ◌||◌, replicate, if◌then◌else◌,
  arith,
}
use nemo_core.Options.{next, run_options, run_option}
use nemo_core.Parse.{parse_scalar, parse_time_unit, scale}
use nemo_core.Signal.{sigusr1}
use nemo_core.Plugin.{exited_status}
use nemo_core.Ures.Config.{Config, Parsing, parse_config, set_defaults, opts, option_d}
use nemo_core.Ures.Loop.{Round, Trace, interrupted, ready, loop}
use nemo_core.Ures.Service.{serve, replies, policy_of}
use nemo_core.Ures.Service.Session.{session, Serves}
use nemo_core.Ures.Service.Session.Laws.{loop-Serves}
use nemo_core.Ures.Main.{Machine, exit_success, exit_failure, main}
use nemo_core.Ures.Main.Served.{main-Serves}
use nemo_core.Tests.Data.{big_host, big_host-IsByteOrder, linux, host_name}
use nemo_core.Tests.Parse.{libc, ninety_seconds}
use nemo_core.Tests.Ures.{arrival, world, request-IsPayload, lenient, state}
use nemo_core.Tests.Main.{machine, answers-Succeeds}

-- A timeout of 500, after the start at 100 or the last datagram.
abbrev timed : Config
timed = record lenient { cf_ito = 500 }

abbrev peek : Round
peek = record { cur = 300; select = interrupted (sigusr1 ∷ []) (λ pi. exited_status); done = 300 }

-- A datagram, SIGUSR1, and a last round at this time.
abbrev rounds_until : ℕ → List Round
rounds_until t = arrival ∷ peek ∷ record { cur = t; select = ready true world; done = t } ∷ []

loop-Serves_example :
    Serves big_host linux host_name timed
      (session 500 100 (rounds_until 760))
      (loop big_host linux host_name timed (rounds_until 760) state)
loop-Serves_example =
    loop-Serves big_host linux host_name timed big_host-IsByteOrder (omega arith) (rounds_until 760)
      state 100 refl refl (refl, refl) (omega arith, (omega arith, (omega arith, tt)))
      (
        inl (true, world, refl, (request-IsPayload, omega arith, omega arith)),
        (
          inr (inl ((λ pi. exited_status), refl)),
          (inl (true, world, refl, (request-IsPayload, omega arith, omega arith)), tt),
        ),
      )

-- It is over 500 behind the datagram at 260, and not before.
session-over : (session 500 100 (rounds_until 760)).over ≡ true
unfolding session
session-over = refl

session-open : (session 500 100 (rounds_until 759)).over ≡ false
unfolding session
session-open = refl

-- The option `-d 90s`.
abbrev waiting : Machine
waiting = record machine {
  options = record { opt = b'd'; optarg = ninety_seconds } ∷ [];
  rounds = rounds_until 90000000260;
}

abbrev chosen : Parsing
chosen = record { cf = record set_defaults { cf_ito = 90000000000 }; attached = 0 }

waiting_accepted : parse_config libc waiting.options waiting.positional ≡ next chosen
unfolding parse_config run_options run_option opts option_d parse_scalar parse_time_unit scale
    set_defaults
waiting_accepted = refl

main-Serves_example :
    (tr : Trace) × ((main libc big_host linux host_name waiting).trace ≡ some tr)
    × (replies big_host linux host_name chosen.cf tr.events
        ≡ serve big_host linux host_name chosen.cf
            (policy_of chosen.cf)
            (session chosen.cf.cf_ito 100 waiting.rounds).heard)
    × ((main libc big_host linux host_name waiting).status ≡ (
        if (session chosen.cf.cf_ito 100 waiting.rounds).over
        then some (if chosen.cf.cf_sil || waiting.fflush then exit_success else exit_failure)
        else none))
unfolding set_defaults
main-Serves_example =
    main-Serves libc big_host linux host_name waiting chosen waiting_accepted (replicate 31 none)
      big_host-IsByteOrder refl (λ s. refl) refl answers-Succeeds refl refl (omega arith)
      (omega arith, (omega arith, (omega arith, tt)))
      (
        inl (true, world, refl, (request-IsPayload, omega arith, omega arith)),
        (
          inr (inl ((λ pi. exited_status), refl)),
          (inl (true, world, refl, (request-IsPayload, omega arith, omega arith)), tt),
        ),
      )
