-- ===== src/Tests/Exchange.antt =====
-- A whole exchange at a concrete input: request 4 to a responder with key 77.
use nemo_core.Prelude.{
  ℕ, ◌≡◌, refl, inl, inr, true, false, none, some, map, List, [], ◌∷◌, replicate, if◌then◌else◌,
  arith,
}
use nemo_core.Packet.{Incoming, Message, encode_payload, receive_packet, retrieve_ttl}
use nemo_core.Packet.RoundTrip.{Carries}
use nemo_core.Ureq.Config.{set_defaults}
use nemo_core.Ureq.Event.{Arrival, Waited, handle_event, wait_for_events}
use nemo_core.Ureq.Report.{Row}
use nemo_core.Ureq.Round.{fill_payload}
use nemo_core.Ureq.Round.Laws.{receive-issue_request}
use nemo_core.Ures.Event.{World, handle_event as respond_event}
use nemo_core.Ures.Event.Laws.{Matches, answer_to, handle_event-sent_iff}
use nemo_core.Exchange.Complete.{Answered, Call, wait_of, AreReported, wait_for_events-AreReported}
use nemo_core.Ureq.Event.Listen.{printed}
use nemo_core.Exchange.{IsReported, report-exchange}
use nemo_core.Tests.Data.{little_host, little_host-IsByteOrder, linux, host_name, channel, peer}
use nemo_core.Tests.Target.{target}
use nemo_core.Tests.Ureq.{parsed, parsed-IsValid, state, issue, arrived, arrived-Carries}
use nemo_core.Tests.Ures.{config}

abbrev pub responder_name : List ℕ
responder_name = replicate 48 b'r'

abbrev pub world : World
world = record { got = arrived; now = record { mono = 5000; real = 6000 }; sendmsg = some 128 }

abbrev incoming : Incoming
incoming = record {
  pl = fill_payload issue.now 4 host_name parsed.cf;
  ttl = if arrived.ctrunc then 0 else retrieve_ttl linux arrived.control;
  addr = arrived.from;
}

abbrev pub answer : Message
answer = record {
  sock = (receive_packet little_host linux channel world.got).0.ch_sock;
  msg_name = incoming.addr;
  buffer = record (world.got.buffer) {
    base = encode_payload little_host (answer_to world.now responder_name config incoming);
  };
  iov_len = incoming.pl.pl_len;
}

incoming-Matches : Matches config incoming.pl
unfolding fill_payload set_defaults
incoming-Matches = record { key = inr refl; len = inl refl }

pub answered :
    (respond_event little_host linux responder_name [] config world channel).sent ≡ some answer
answered =
    (handle_event-sent_iff little_host linux responder_name [] config world channel answer).1 (
      incoming,
      receive-issue_request little_host linux host_name parsed little_host-IsByteOrder 4
          (target 16777343) issue state channel arrived parsed-IsValid (omega arith)
          (omega arith, omega arith) arrived-Carries,
      incoming-Matches,
      refl,
      refl,
    )

abbrev pub arrival : Arrival
arrival = record {
  got = record {
    len = some 128;
    trunc = false;
    ctrunc = false;
    from = peer;
    buffer = answer.buffer;
    control = record { level = 0; type = 2; val = 59 } ∷ [];
  };
  now = record { mono = 1500; real = 2500 };
}

pub arrival-Carries : Carries answer arrival.got
unfolding fill_payload set_defaults
arrival-Carries = record { base = refl; all = refl; whole = refl }

pub not_mono : parsed.cf.cf_mono ≡ false
unfolding set_defaults
not_mono = refl

pub not_silent : parsed.cf.cf_sil ≡ false
unfolding set_defaults
not_silent = refl

report-exchange_example :
    (row : Row) × ((handle_event little_host linux host_name parsed.cf true arrival state).row
      ≡ some row)
    × IsReported parsed config linux host_name responder_name 4 issue world arrival row
report-exchange_example =
    report-exchange little_host linux host_name responder_name parsed config little_host-IsByteOrder
      parsed-IsValid not_mono not_silent 4 (target 16777343) issue state state [] world channel
      answer arrival (omega arith) (omega arith, omega arith) (omega arith, omega arith)
      (omega arith) arrived-Carries answered arrival-Carries

-- The same exchange heard in a wait of 3 nanoseconds.
abbrev exchange : Answered little_host linux host_name responder_name parsed config
exchange = record {
  snum = 4;
  tg = target 16777343;
  i = issue;
  s = state;
  pis = [];
  w = world;
  ch = channel;
  m = answer;
  a = arrival;
  snum_lt = omega arith;
  issued_at = (omega arith, omega arith);
  answered_at = (omega arith, omega arith);
  there = arrived-Carries;
  sent = answered;
  back = arrival-Carries;
}

abbrev calls : List (Call little_host linux host_name responder_name parsed config)
calls = record { answer = some exchange; cur = 101 } ∷ record { answer = none; cur = 104 } ∷ []

abbrev waited : Waited
waited =
    wait_for_events little_host linux host_name parsed.cf 100 3
      (map (wait_of little_host linux host_name responder_name parsed config) calls) state

wait_for_events-AreReported_example :
    (waited.result ≡ some true)
    × AreReported little_host linux host_name responder_name parsed config
        (exchange ∷ [])
        (printed waited.rows)
wait_for_events-AreReported_example =
    wait_for_events-AreReported little_host linux host_name responder_name parsed config
      little_host-IsByteOrder parsed-IsValid not_mono not_silent (omega arith) 100 3 calls state
      (omega arith) (inr (inr (omega arith)))
