-- ===== src/Tests/Runs.antt =====
-- Whole runs of src/ureq/loop.c, and the counters of src/ures/loop.c, at concrete inputs.
use nemo_core.Prelude.{
  ◌+◌, ◌*◌, ◌≤◌, ◌≡◌, refl, true, none, some, List, [], ◌∷◌, ◌++◌, map, length, replicate, arith,
}
use nemo_core.Word.{u64}
use nemo_core.Packet.{send_packet, receive_packet, encode_payload, decode_payload}
use nemo_core.Signal.{no_flags}
use nemo_core.Ures.Loop.{loop, State as Responder}
use nemo_core.Ures.Loop.Counters.{IsCounted, messages, loop-IsCounted}
use nemo_core.Ureq.Config.{Config, set_defaults}
use nemo_core.Ureq.Target.{
  Target, zero_target, parse_target_string, normalize_targets, load_targets,
}
use nemo_core.Ureq.Event.{timeout, ready, Wait, handle_event, wait_for_events}
use nemo_core.Ureq.Event.Listen.{AreGood, in_time, line_of, printed, wait_for_events-in_time}
use nemo_core.Ureq.Round.{grouped_round, issue_request, fill_payload}
use nemo_core.Ureq.Loop.{Turn, finished, request_loop}
use nemo_core.Ureq.Loop.Lasts.{request_loop_lasts}
use nemo_core.Tests.Data.{big_host, little_host, linux, host_name, channel}
use nemo_core.Tests.Target.{first_name, sorting}
use nemo_core.Tests.Ures.{config, arrival}
use nemo_core.Tests.Ureq.{issue, reload, state, pause_of, arrived}

-- One grouped round of one target, an interval and a last wait of 3 nanoseconds each, in an array
-- with room to spare.
abbrev roomy : Config
roomy = record set_defaults {
  cf_tg = map some (first_name ∷ []) ++ (none ∷ []);
  cf_ntg = 2;
  cf_cnt = 1;
  cf_int = 3;
  cf_wait = 3;
  cf_grp = true;
}

abbrev turn : Turn
turn = record {
  now = 101;
  reload = reload;
  last = pause_of 102;
  dispersed = [];
  grouped = replicate 33 issue;
}

abbrev no_targets : List Target
no_targets = replicate 33 zero_target

roomy-finished :
    (request_loop little_host linux sorting host_name roomy true reload 100
      (turn ∷ [])
      (pause_of 107)
      no_targets
      state).outcome
    ≡ finished true
unfolding request_loop set_defaults load_targets parse_target_string normalize_targets grouped_round
    send_packet wait_for_events
roomy-finished = refl

request_loop_lasts_example : 102 + 1 * 3 + 3 ≤ 111
unfolding set_defaults
request_loop_lasts_example =
    request_loop_lasts little_host linux sorting host_name roomy true reload 100 (turn ∷ [])
      (pause_of 107) no_targets state 102 111
      (
        106,
        ((omega arith, omega arith, (omega arith, tt)), omega arith),
        (omega arith, omega arith, (omega arith, tt)),
      )
      (omega arith) (omega arith) roomy-finished

-- The request of the tests comes back as it was sent, and then nothing.
abbrev hears : List Wait
hears =
    record {
      select = ready true (record { got = arrived; now = record { mono = 9; real = 8 } });
      cur = 101;
    }
    ∷ record { select = timeout; cur = 104 }
    ∷ []

heard :
    (wait_for_events little_host linux host_name set_defaults 100 3 hears state).result ≡ some true
unfolding wait_for_events handle_event receive_packet issue_request send_packet fill_payload
    set_defaults decode_payload encode_payload
heard = refl

wait_for_events-in_time_example :
    AreGood little_host linux host_name set_defaults (in_time 100 (u64 (100 + 3)) hears)
    × (printed (wait_for_events little_host linux host_name set_defaults 100 3 hears state).rows
        ≡ printed (
            map
              (line_of little_host linux host_name set_defaults)
              (in_time 100 (u64 (100 + 3)) hears)))
unfolding set_defaults
wait_for_events-in_time_example =
    wait_for_events-in_time little_host linux host_name set_defaults 100 3 hears state refl heard

abbrev waiting : Responder
waiting = record { ch = channel; pis = []; flags = no_flags; lim = 600 }

loop-IsCounted_example :
    IsCounted
      (length (loop big_host linux host_name config (arrival ∷ arrival ∷ []) waiting).events)
      (messages (loop big_host linux host_name config (arrival ∷ arrival ∷ []) waiting).events)
      channel
      (loop big_host linux host_name config (arrival ∷ arrival ∷ []) waiting).final.ch
loop-IsCounted_example =
    loop-IsCounted big_host linux host_name config (arrival ∷ arrival ∷ []) waiting (record {
      rall_lt = omega arith;
      reni_lt = omega arith;
      resz_lt = omega arith;
      remg_lt = omega arith;
      repv_lt = omega arith;
      sall_lt = omega arith;
      seni_lt = omega arith;
    })
