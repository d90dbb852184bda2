-- ===== src/Tests/Ends.antt =====
-- Whole runs of src/ureq/main.c that end well, and that leave an array, at concrete inputs.
use nemo_core.Prelude.{◌≡◌, refl, inl, inr, true, none, some, [], ◌∷◌, ◌++◌, map, replicate, arith}
use nemo_core.Parse.{Text, parse_uint64}
use nemo_core.Options.{next, run_options, run_option}
use nemo_core.Ureq.Config.{Parsing, parse_config, set_defaults, opts, option_c, option_g, option_j}
use nemo_core.Ureq.Target.Modest.{IsModest}
use nemo_core.Ureq.Main.{Machine, main}
use nemo_core.Ureq.Main.Finishes.{Exits, main-Exits}
use nemo_core.Ureq.Main.Full.{Overruns, main-Overruns}
use nemo_core.Tests.Data.{little_host, linux, host_name}
use nemo_core.Tests.Parse.{libc}
use nemo_core.Tests.Target.{first_name, sorting, length-sort}
use nemo_core.Tests.Ureq.{reload, issue}
use nemo_core.Tests.Main.{requester, pause_of, answers-Succeeds}

-- The options `-c 1 -g`, and one target.
abbrev grouped : Machine
grouped = record requester {
  options = record { opt = b'c'; optarg = b'1' ∷ [] } ∷ record { opt = b'g'; optarg = [] } ∷ [];
  turns =
      record {
        now = 101;
        reload = reload;
        last = pause_of 102;
        dispersed = [];
        grouped = replicate 64 issue;
      }
      ∷ [];
}

abbrev once : Parsing
once = record {
  cf = record set_defaults {
    cf_cnt = 1;
    cf_grp = true;
    cf_tg = map some (first_name ∷ []) ++ replicate 63 none;
  };
  attached = 0;
}

grouped_accepted : parse_config libc grouped.options grouped.arguments true ≡ next once
unfolding parse_config opts option_c option_g set_defaults run_options run_option parse_uint64
grouped_accepted = refl

resolver-IsModest : IsModest 1 reload.resolver
resolver-IsModest = (λ name l e. ground arith, λ name l e. ground arith)

main-Exits_example : Exits (main libc little_host linux sorting host_name grouped)
unfolding set_defaults
main-Exits_example =
    main-Exits libc little_host linux sorting host_name grouped length-sort 1 (omega arith) once
      grouped_accepted (omega arith) (omega arith)
      (
        (resolver-IsModest, omega arith, omega arith, omega arith),
        omega arith,
        (
          (
            (resolver-IsModest, omega arith, omega arith, omega arith),
            (inr (omega arith), inl (refl, omega arith)),
          ),
          tt,
        ),
        inr (omega arith),
      )

-- The option `-j 2`, and two targets.
abbrev second_name : Text
second_name = b'b' ∷ []

abbrev crowded : Machine
crowded = record requester {
  options = record { opt = b'j'; optarg = b'2' ∷ [] } ∷ [];
  arguments = first_name ∷ second_name ∷ [];
}

abbrev full : Parsing
full = record {
  cf = record set_defaults { cf_ntg = 2; cf_tg = map some (first_name ∷ second_name ∷ []) };
  attached = 0;
}

crowded_accepted : parse_config libc crowded.options crowded.arguments true ≡ next full
unfolding parse_config opts option_j set_defaults run_options run_option parse_uint64
crowded_accepted = refl

main-Overruns_example :
    Overruns libc little_host linux sorting host_name crowded
      (main libc little_host linux sorting host_name crowded)
unfolding set_defaults
main-Overruns_example =
    main-Overruns libc little_host linux sorting host_name crowded full crowded_accepted refl
      (λ s. refl) answers-Succeeds refl refl refl ((b'a', refl), ((b'b', refl), tt)) refl
