-- ===== src/Tests/Ureq.antt =====
-- src/ureq at concrete inputs.
use nemo_core.Prelude.{
  ℕ, ◌+◌, ◌-◌, ◌≤◌, ◌≡◌, refl, true, false, none, some, List, [], ◌∷◌, ◌++◌, map, length, replicate,
  All, if◌then◌else◌, arith,
}
use nemo_core.Options.{next, Getopt, run_options, run_option}
use nemo_core.Parse.{parse_uint64}
use nemo_core.Packet.{Received, Message, receive_packet, retrieve_ttl, send_packet}
use nemo_core.Packet.RoundTrip.{Carries}
use nemo_core.Signal.{no_flags}
use nemo_core.Ureq.Config.{Config, Parsing, set_defaults, opts, option_t, option_k, parse_config}
use nemo_core.Ureq.Config.Laws.{IsValid, requester_config-IsValid}
use nemo_core.Ureq.Target.{zero_target, parse_target_string, normalize_targets, load_targets}
use nemo_core.Ureq.Event.{State, timeout, Wait, wait_for_events}
use nemo_core.Ureq.Event.Laws.{IsWithin, wait_for_events_timeouts}
use nemo_core.Ureq.Round.{
  sending, waiting, Issue, Pause, issue_request, fill_payload, dispersed_round, grouped_round,
}
use nemo_core.Ureq.Round.Laws.{AreRequests, receive-issue_request, grouped_round-sent}
use nemo_core.Ureq.Loop.{Reload, Turn, finished, request_loop}
use nemo_core.Ureq.Loop.Numbers.{AreNumbered, request_loop-AreNumbered}
use nemo_core.Ureq.Round.Dispersed.{issues, dispersed_round-sent}
use nemo_core.Tests.Data.{
  little_host, little_host-IsByteOrder, linux, host_name, channel, request, peer, buffer_of,
}
use nemo_core.Tests.Parse.{libc}
use nemo_core.Tests.Target.{first_name, sorting, resolver, target}

-- The options `-t 32 -k 77`, and one target.
abbrev options : List Getopt
options =
    record { opt = b't'; optarg = b'3' ∷ b'2' ∷ [] }
    ∷ record { opt = b'k'; optarg = b'7' ∷ b'7' ∷ [] }
    ∷ []

abbrev pub parsed : Parsing
parsed = record {
  cf = record set_defaults {
    cf_ttl = 32;
    cf_key = 77;
    cf_tg = map some (first_name ∷ []) ++ replicate 63 none;
  };
  attached = 0;
}

options_accepted : parse_config libc options (first_name ∷ []) true ≡ next parsed
unfolding parse_config run_options run_option opts option_t option_k set_defaults parse_uint64
options_accepted = refl

requester_config-IsValid_example :
    IsValid parsed
    × (1 ≤ length (first_name ∷ []))
    × (length (first_name ∷ []) ≤ parsed.cf.cf_ntg)
    × (parsed.cf.cf_tg
        ≡ map some (first_name ∷ [])
          ++ replicate (parsed.cf.cf_ntg - length (first_name ∷ [])) none)
requester_config-IsValid_example =
    requester_config-IsValid libc options (first_name ∷ []) true parsed options_accepted

pub parsed-IsValid : IsValid parsed
parsed-IsValid =
    (requester_config-IsValid libc options (first_name ∷ []) true parsed options_accepted).0

abbrev pub state : State
state = record { ch = channel; wrapper = buffer_of request; flags = no_flags }

abbrev quiet : List Wait
quiet = record { select = timeout; cur = 102 } ∷ record { select = timeout; cur = 104 } ∷ []

wait_for_events_timeouts_example :
    All
      (IsWithin 3)
      (wait_for_events little_host linux host_name set_defaults 100 3 quiet state).timeouts
wait_for_events_timeouts_example =
    wait_for_events_timeouts little_host linux host_name set_defaults 100 3 quiet state
      (ground arith)

abbrev pub issue : Issue
issue = record { now = record { mono = 1000; real = 2000 }; sendmsg = some 128 }

abbrev pub sent : Message
sent = (issue_request little_host linux host_name parsed.cf 4 (target 16777343) issue state).message

abbrev pub arrived : Received
arrived = record {
  len = some 128;
  trunc = false;
  ctrunc = true;
  from = peer;
  buffer = sent.buffer;
  control = [];
}

pub arrived-Carries : Carries sent arrived
unfolding issue_request send_packet fill_payload set_defaults
arrived-Carries = record { base = refl; all = refl; whole = refl }

receive-issue_request_example :
    (receive_packet little_host linux channel arrived).1
    ≡ some (record {
      pl = fill_payload issue.now 4 host_name parsed.cf;
      ttl = if arrived.ctrunc then 0 else retrieve_ttl linux arrived.control;
      addr = arrived.from;
    })
receive-issue_request_example =
    receive-issue_request little_host linux host_name parsed little_host-IsByteOrder 4
      (target 16777343) issue state channel arrived parsed-IsValid (omega arith)
      (omega arith, omega arith) arrived-Carries

abbrev last : Pause
last = record { start = 100; waits = [] }

grouped_round-sent_example :
    AreRequests little_host host_name set_defaults 4
      (target 1 ∷ target 2 ∷ [])
      (issue ∷ issue ∷ [])
      (grouped_round little_host linux host_name set_defaults
        (target 1 ∷ target 2 ∷ [])
        4
        (issue ∷ issue ∷ [])
        last
        state).sent
    × (length
          (grouped_round little_host linux host_name set_defaults
            (target 1 ∷ target 2 ∷ [])
            4
            (issue ∷ issue ∷ [])
            last
            state).waits
        ≡ 1)
    × ((grouped_round little_host linux host_name set_defaults
          (target 1 ∷ target 2 ∷ [])
          4
          (issue ∷ issue ∷ [])
          last
          state).order
        ≡ sending ∷ sending ∷ waiting ∷ [])
unfolding set_defaults
grouped_round-sent_example =
    grouped_round-sent little_host linux host_name set_defaults (target 1 ∷ target 2 ∷ []) 4
      (issue ∷ issue ∷ []) last state refl (refl, (refl, tt))

-- One grouped round of one target, an interval and a last wait of 3 nanoseconds each.
abbrev one_round : Config
one_round = record set_defaults {
  cf_tg = map some (first_name ∷ []) ++ (none ∷ []);
  cf_ntg = 2;
  cf_cnt = 1;
  cf_int = 3;
  cf_wait = 3;
  cf_grp = true;
}

abbrev pub reload : Reload
reload = record { resolver = resolver; garbage1 = 0; garbage2 = 0 }

abbrev pub pause_of : ℕ → Pause
pause_of t = record { start = t; waits = record { select = timeout; cur = t + 4 } ∷ [] }

abbrev turn : Turn
turn = record {
  now = 101;
  reload = reload;
  last = pause_of 102;
  dispersed = [];
  grouped = issue ∷ [];
}

one_round-finished :
    (request_loop little_host linux sorting host_name one_round true reload 100
      (turn ∷ [])
      (pause_of 107)
      (replicate 2 zero_target)
      state).outcome
    ≡ finished true
unfolding request_loop set_defaults load_targets parse_target_string normalize_targets grouped_round
    send_packet wait_for_events
one_round-finished = refl

request_loop-AreNumbered_example :
    AreNumbered little_host linux sorting host_name one_round 0
      (request_loop little_host linux sorting host_name one_round true reload 100
        (turn ∷ [])
        (pause_of 107)
        (replicate 2 zero_target)
        state).rounds
request_loop-AreNumbered_example =
    request_loop-AreNumbered little_host linux sorting host_name one_round true reload 100
      (turn ∷ []) (pause_of 107) (replicate 2 zero_target) state

-- A round over two targets, whose waits end by the clock.
spread_ends :
    (dispersed_round little_host linux host_name one_round
      (target 1 ∷ target 2 ∷ [])
      4
      (pause_of 100)
      ((issue, pause_of 100) ∷ (issue, pause_of 200) ∷ [])
      state).result
    ≡ some true
unfolding dispersed_round set_defaults send_packet wait_for_events
spread_ends = refl

dispersed_round-sent_example :
    AreRequests little_host host_name one_round 4
      (target 1 ∷ target 2 ∷ [])
      (issues ((issue, pause_of 100) ∷ (issue, pause_of 200) ∷ []))
      (dispersed_round little_host linux host_name one_round
        (target 1 ∷ target 2 ∷ [])
        4
        (pause_of 100)
        ((issue, pause_of 100) ∷ (issue, pause_of 200) ∷ [])
        state).sent
    × (length
          (dispersed_round little_host linux host_name one_round
            (target 1 ∷ target 2 ∷ [])
            4
            (pause_of 100)
            ((issue, pause_of 100) ∷ (issue, pause_of 200) ∷ [])
            state).waits
        ≡ 2)
    × ((dispersed_round little_host linux host_name one_round
          (target 1 ∷ target 2 ∷ [])
          4
          (pause_of 100)
          ((issue, pause_of 100) ∷ (issue, pause_of 200) ∷ [])
          state).order
        ≡ sending ∷ waiting ∷ sending ∷ waiting ∷ [])
dispersed_round-sent_example =
    dispersed_round-sent little_host linux host_name one_round (target 1 ∷ target 2 ∷ []) 4
      (pause_of 100) ((issue, pause_of 100) ∷ (issue, pause_of 200) ∷ []) state (omega arith)
      spread_ends
