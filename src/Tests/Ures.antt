-- ===== src/Tests/Ures.antt =====
-- src/ures at concrete inputs.
use nemo_core.Prelude.{
  ℕ, ◌≡◌, ◌↔◌, ◌⊎◌, inl, inr, refl, true, false, none, some, List, [], ◌∷◌, replicate, All,
  if◌then◌else◌, arith,
}
use nemo_core.Options.{next, Getopt, run_options, run_option}
use nemo_core.Parse.{parse_uint64}
use nemo_core.Convert.{ntohll}
use nemo_core.Packet.{
  accept_datagram, verify_payload, Incoming, Message, Received, encode_payload, decode_payload,
  receive_packet, retrieve_ttl, is_length,
}
use nemo_core.Signal.{no_flags}
use nemo_core.Ures.Config.{
  Config, Parsing, set_defaults, parse_config, opts, option_t, option_v, raise_level,
}
use nemo_core.Ures.Config.Laws.{IsValid, responder_config-IsValid}
use nemo_core.Ures.Event.{World, handle_event}
use nemo_core.Ures.Event.Laws.{Matches, answer_to, handle_event-sent_iff, handle_event-fails_iff}
use nemo_core.Ures.Event.Echo.{receive-handle_event}
use nemo_core.Ures.Event.Volley.{Party, handle_event-handle_event}
use nemo_core.Ures.Loop.{ready, timeout, Round, State}
use nemo_core.Ures.Loop.Laws.{run}
use nemo_core.Payload.{IsPayload}
use nemo_core.Ures.Service.Laws.{IsTyped}
use nemo_core.Ures.Loop.Timeouts.{IsWithin, loop_timeouts}
use nemo_core.Tests.Data.{
  big_host, big_host-IsByteOrder, linux, host_name, channel, request, peer, datagram,
}
use nemo_core.Tests.Parse.{libc}

-- A responder with key 77, which exits on errors.
abbrev pub config : Config
config = record {
  cf_plgs = replicate 32 none;
  cf_port = 23000;
  cf_rbuf = 2000000;
  cf_sbuf = 2000000;
  cf_key = 77;
  cf_ttl = 64;
  cf_ito = 0;
  cf_len = 0;
  cf_err = true;
  cf_ipv4 = true;
  cf_llvl = 1;
  cf_lcol = true;
  cf_mono = false;
  cf_sil = false;
}

abbrev pub world : World
world = record { got = datagram; now = record { mono = 5000; real = 6000 }; sendmsg = some 128 }

abbrev incoming : Incoming
incoming = record { pl = request; ttl = 61; addr = peer }

abbrev answer : Message
answer = record {
  sock = (receive_packet big_host linux channel world.got).0.ch_sock;
  msg_name = incoming.addr;
  buffer = record (world.got.buffer) {
    base = encode_payload big_host (answer_to world.now host_name config incoming);
  };
  iov_len = incoming.pl.pl_len;
}

took : (receive_packet big_host linux channel world.got).1 ≡ some incoming
unfolding receive_packet accept_datagram verify_payload decode_payload retrieve_ttl ntohll
took = refl

answered : (handle_event big_host linux host_name [] config world channel).sent ≡ some answer
answered =
    (handle_event-sent_iff big_host linux host_name [] config world channel answer).1
      (incoming, took, record { key = inr refl; len = inl refl }, refl, refl)

handle_event-sent_iff_example :
    ((handle_event big_host linux host_name [] config world channel).sent ≡ some answer) ↔ (
      (inc : Incoming) × ((receive_packet big_host linux channel world.got).1 ≡ some inc)
      × Matches config inc.pl
      × (config.cf_mono ≡ false)
      × (answer ≡ record {
        sock = (receive_packet big_host linux channel world.got).0.ch_sock;
        msg_name = inc.addr;
        buffer = record (world.got.buffer) {
          base = encode_payload big_host (answer_to world.now host_name config inc);
        };
        iov_len = inc.pl.pl_len;
      }))
handle_event-sent_iff_example =
    handle_event-sent_iff big_host linux host_name [] config world channel answer

handle_event-fails_iff_example :
    ((handle_event big_host linux host_name [] config world channel).ok ≡ false) ↔ (
      (config.cf_err ≡ true)
      × (((receive_packet big_host linux channel world.got).1 ≡ none)
          ⊎ ((inc : Incoming) × ((receive_packet big_host linux channel world.got).1 ≡ some inc)
              × Matches config inc.pl
              × (config.cf_mono ≡ false)
              × (is_length world.sendmsg inc.pl.pl_len ≡ false))))
handle_event-fails_iff_example =
    handle_event-fails_iff big_host linux host_name [] config world channel

-- The answer as it arrives at the requester.
abbrev arrived : Received
arrived = record {
  len = some 128;
  trunc = false;
  ctrunc = false;
  from = peer;
  buffer = answer.buffer;
  control = record { level = 0; type = 2; val = 60 } ∷ [];
}

receive-handle_event_example :
    (receive_packet big_host linux channel arrived).1
    ≡ some (record {
      pl = answer_to world.now host_name config incoming;
      ttl = if arrived.ctrunc then 0 else retrieve_ttl linux arrived.control;
      addr = arrived.from;
    })
receive-handle_event_example =
    receive-handle_event big_host linux host_name [] config world channel big_host-IsByteOrder
      answer incoming channel arrived answered took (ground arith) (omega arith) (omega arith)
      (omega arith) (record { base = refl; all = refl; whole = refl })

-- Waiting since time 100, with the inactivity timeout ending at 600.
abbrev pub state : State
state = record { ch = channel; pis = []; flags = no_flags; lim = 600 }

abbrev patient : Config
patient = record config { cf_ito = 500 }

abbrev pub arrival : Round
arrival = record { cur = 250; select = ready true world; done = 260 }

abbrev silence : Round
silence = record { cur = 270; select = timeout; done = 270 }

loop_timeouts_example :
    All
      (IsWithin patient.cf_ito)
      (run big_host linux host_name patient (arrival ∷ silence ∷ []) state).timeouts
loop_timeouts_example =
    loop_timeouts big_host linux host_name patient (arrival ∷ silence ∷ []) state 100 (ground arith)
      (omega arith) (ground arith)

-- The same channel on descriptor 5.
abbrev far_off : State
far_off = record state { ch = record channel { ch_sock = some 5 } }

abbrev pub lenient : Config
lenient = record config { cf_err = false }

pub request-IsPayload : IsPayload request
request-IsPayload = ground arith

world-IsTyped : IsTyped big_host linux host_name lenient world
world-IsTyped = (request-IsPayload, omega arith, omega arith)

abbrev options : List Getopt
options = record { opt = b'v'; optarg = [] } ∷ record { opt = b't'; optarg = b'3' ∷ b'2' ∷ [] } ∷ []

abbrev no_arguments : ℕ
no_arguments = 0

abbrev parsed : Parsing
parsed = record { cf = record set_defaults { cf_llvl = 2; cf_ttl = 32 }; attached = 0 }

options_accepted : parse_config libc options no_arguments ≡ next parsed
unfolding parse_config run_options run_option opts option_v option_t raise_level set_defaults
    parse_uint64
options_accepted = refl

responder_config-IsValid_example : IsValid parsed × (no_arguments ≡ 0)
responder_config-IsValid_example =
    responder_config-IsValid libc options no_arguments parsed options_accepted

-- A responder without filters, at the other end.
abbrev first : Party
first = record { hn = host_name; pis = []; cf = config }

abbrev second : Party
second = record { hn = host_name; pis = []; cf = record config { cf_key = 0 } }

abbrev volley : World
volley = record { got = arrived; now = record { mono = 7000; real = 8000 }; sendmsg = some 128 }

handle_event-handle_event_example :
    (m' : Message) × ((handle_event big_host linux second.hn second.pis second.cf volley
        channel).sent
      ≡ some m')
    × (m'.msg_name ≡ volley.got.from)
handle_event-handle_event_example =
    handle_event-handle_event big_host linux big_host-IsByteOrder first second world volley channel
      channel answer incoming answered took (ground arith) (omega arith) (omega arith) (omega arith)
      (record { base = refl; all = refl; whole = refl }) (record { key = inl refl; len = inl refl })
      refl
