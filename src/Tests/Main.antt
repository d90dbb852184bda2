-- ===== src/Tests/Main.antt =====
-- src/ures/main.c and src/ureq/main.c at concrete inputs.
use nemo_core.Prelude.{
  ℕ, ◌+◌, ◌≡◌, refl, true, none, some, List, [], ◌∷◌, map, ◌++◌, replicate, arith,
}
use nemo_core.Parse.{Text, parse_uint64}
use nemo_core.Options.{Getopt, next, run_options, run_option}
use nemo_core.Packet.{send_packet}
use nemo_core.Channel.Laws.{Succeeds}
use nemo_core.Plugin.{exited_status}
use nemo_core.Ures.Config as ResponderConfig
use nemo_core.Ures.Main as Responder
use nemo_core.Ures.Main.Laws.{main-plugin_fails}
use nemo_core.Tests.Data.{big_host, little_host, linux, host_name, channel, request, buffer_of}
use nemo_core.Tests.Parse.{libc}
use nemo_core.Tests.Plugin.{loader, entry, start}
use nemo_core.Tests.Network.{answers}
use nemo_core.Tests.Ures.{arrival}
use nemo_core.Tests.Target.{first_name, sorting}
use nemo_core.Tests.Ureq.{reload, issue}
use nemo_core.Signal.{install_signal_handlers}
use nemo_core.Ureq.Config as RequesterConfig
use nemo_core.Ureq.Main as Requester
use nemo_core.Ureq.Main.Laws.{IsDone, main-IsDone}
use nemo_core.Ureq.Event.{timeout, wait_for_events}
use nemo_core.Ureq.Round.{Pause, dispersed_round}
use nemo_core.Ureq.Loop.{request_loop}
use nemo_core.Ureq.Target.{load_targets, parse_target_string, normalize_targets}
use nemo_core.Channel.{open_channel}

abbrev plain : ResponderConfig.Parsing
plain = record { cf = ResponderConfig.set_defaults; attached = 0 }

-- No options, and two datagrams that arrive.
abbrev pub machine : Responder.Machine
machine = record {
  options = [];
  positional = 0;
  payload_bytes = 128;
  sigaction = λ s. true;
  loader = loader;
  starts = [];
  sockets = answers;
  pi = replicate 32 entry;
  ch = channel;
  named = true;
  start = 100;
  rounds = arrival ∷ arrival ∷ [];
  waitpid = λ pi. exited_status;
  fflush = true;
}

machine_accepted : ResponderConfig.parse_config libc machine.options machine.positional ≡ next plain
unfolding ResponderConfig.parse_config run_options
machine_accepted = refl

pub answers-Succeeds : Succeeds answers true
answers-Succeeds = ground arith

-- The option `-a p`.
abbrev path : Text
path = b'p' ∷ []

abbrev with_plugin : Responder.Machine
with_plugin = record machine {
  options = record { opt = b'a'; optarg = path } ∷ [];
  starts = start ∷ [];
}

abbrev attached : ResponderConfig.Parsing
attached = record {
  cf = record ResponderConfig.set_defaults { cf_plgs = some path ∷ replicate 31 none };
  attached = 1;
}

with_plugin_accepted :
    ResponderConfig.parse_config libc with_plugin.options with_plugin.positional ≡ next attached
unfolding ResponderConfig.parse_config ResponderConfig.opts ResponderConfig.option_a
    ResponderConfig.set_defaults run_options run_option
with_plugin_accepted = refl

main-plugin_fails_example :
    Responder.main libc big_host linux host_name with_plugin
    ≡ Responder.early Responder.exit_failure
main-plugin_fails_example =
    main-plugin_fails libc big_host linux host_name with_plugin attached with_plugin_accepted path
      (replicate 31 none) refl

-- The option `-c 1`, one target, and an array that calloc(3) gives.
abbrev requester_options : List Getopt
requester_options = record { opt = b'c'; optarg = b'1' ∷ [] } ∷ []

abbrev once : RequesterConfig.Parsing
once = record {
  cf = record RequesterConfig.set_defaults {
    cf_cnt = 1;
    cf_tg = map some (first_name ∷ []) ++ replicate 63 none;
  };
  attached = 0;
}

abbrev pub pause_of : ℕ → Pause
pause_of t = record { start = t; waits = record { select = timeout; cur = t + 3000000000 } ∷ [] }

abbrev pub requester : Requester.Machine
requester = record {
  options = requester_options;
  arguments = first_name ∷ [];
  allocated = true;
  payload_bytes = 128;
  sigaction = λ s. true;
  sockets = answers;
  calloc = true;
  ch = channel;
  wrapper = buffer_of request;
  named = true;
  reload = reload;
  start = 100;
  turns =
      record {
        now = 101;
        reload = reload;
        last = pause_of 102;
        dispersed = (issue, pause_of 103) ∷ [];
        grouped = [];
      }
      ∷ [];
  last = pause_of 107;
  fflush = true;
}

requester_accepted :
    RequesterConfig.parse_config libc requester.options requester.arguments true ≡ next once
unfolding RequesterConfig.parse_config RequesterConfig.opts RequesterConfig.option_c
    RequesterConfig.set_defaults run_options run_option parse_uint64
requester_accepted = refl

requester_status :
    (Requester.main libc little_host linux sorting host_name requester).status ≡ some 0
unfolding Requester.main Requester.request Requester.shut_down RequesterConfig.parse_config
    RequesterConfig.opts RequesterConfig.option_c RequesterConfig.set_defaults run_options
    run_option parse_uint64 open_channel install_signal_handlers request_loop load_targets
    parse_target_string normalize_targets dispersed_round send_packet wait_for_events
requester_status = refl

main-IsDone_example :
    IsDone libc little_host linux sorting host_name requester once.cf
      (Requester.main libc little_host linux sorting host_name requester)
main-IsDone_example =
    main-IsDone libc little_host linux sorting host_name requester once requester_accepted
      requester_status
