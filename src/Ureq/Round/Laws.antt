-- ===== src/Ureq/Round/Laws.antt =====
-- What the requester sends in a round.
use nemo_core.Prelude.{
  ℕ, ◌+◌, ◌*◌, ◌/◌, ◌%◌, ◌^◌, ◌≤◌, ◌<◌, ◌≡◌, refl, ap, true, some, List, [], ◌∷◌, ◌++◌, map,
  replicate, All, length, if◌then◌else◌, arith,
}
use native.Mathlib.Nat.{add-mul, mod-add-div', mod-lt}
use nemo_core.Word.{u8, u16, u32, u64}
use nemo_core.Convert.{ByteOrder, IsByteOrder, htonll, tipv6}
use nemo_core.Now.{Clocks}
use nemo_core.Payload.{
  Payload, IsPayload, inet, inet6, payload_magic, payload_version, type_request,
}
use nemo_core.Channel.{Channel}
use nemo_core.Packet.{
  Labels, Message, Received, encode_payload, receive_packet, retrieve_ttl, send_packet,
}
use nemo_core.Packet.RoundTrip.{Carries, receive-send}
use nemo_core.Ureq.Config.{Config, Parsing}
use nemo_core.Ureq.Config.Laws.{IsValid}
use nemo_core.Ureq.Target.{Target}
use nemo_core.Ureq.Event.{State}
use nemo_core.Ureq.Round.{
  sending, waiting, Issue, Pause, fill_payload, set_address, issue_request, pause, part_of,
  grouped_round,
}

-- The readings fit 64 bits.
abbrev pub IsReading : Clocks → Type 0
IsReading now = (now.mono < 2 ^ 64) × (now.real < 2 ^ 64)

module _ (bo : ByteOrder) (k : Labels) (hn : List ℕ) (p : Parsing) where
  pub fill_payload-IsPayload :
      (snum : ℕ) (now : Clocks)
      → IsValid p
      → p.cf.cf_cnt < 2 ^ 64
      → snum < 2 ^ 64
      → IsReading now
      → IsPayload (fill_payload now snum hn p.cf)
  unfolding fill_payload
  fill_payload-IsPayload snum now v cnt small r = ground arith

  -- A request issued under a configuration that the options can produce, when the message reaches
  -- the responder whole, is accepted there, with the payload that `fill_payload` made: sequence
  -- number, key, host name, clock readings and length. The sequence number and the clock readings
  -- must fit 64 bits, and the host's byte order functions must be as POSIX says.
  pub receive-issue_request :
      IsByteOrder bo
      → (snum : ℕ) (tg : Target) (i : Issue) (s : State) (ch : Channel) (got : Received) → IsValid p
      → snum < 2 ^ 64
      → IsReading i.now
      → Carries (issue_request bo k hn p.cf snum tg i s).message got
      → (receive_packet bo k ch got).1
        ≡ some (record {
          pl = fill_payload i.now snum hn p.cf;
          ttl = if got.ctrunc then 0 else retrieve_ttl k got.control;
          addr = got.from;
        })
  unfolding issue_request
  receive-issue_request law snum tg i s ch got v small r c =
      receive-send bo law k s.ch ch s.wrapper (fill_payload i.now snum hn p.cf)
        (set_address bo tg p.cf) i.sendmsg got
        (fill_payload-IsPayload snum i.now v (ground arith) small r) (unfold fill_payload in refl)
        (unfold fill_payload in refl) (unfold fill_payload in ground arith) c

-- The payload of request `snum`, as the requester means it.
abbrev pub request_of : ℕ → Clocks → List ℕ → Config → Payload
request_of snum now hn cf = record {
  pl_mgic = payload_magic;
  pl_len = u16 cf.cf_len;
  pl_fver = payload_version;
  pl_type = type_request;
  pl_pad = 0;
  pl_pad2 = 0;
  pl_ttl1 = u8 cf.cf_ttl;
  pl_ttl2 = 0;
  pl_snum = snum;
  pl_slen = cf.cf_cnt;
  pl_key = cf.cf_key;
  pl_mtm1 = now.mono;
  pl_rtm1 = now.real;
  pl_mtm2 = 0;
  pl_rtm2 = 0;
  pl_host = hn;
  pl_pad3 = replicate 12 0;
}

-- Message `m` is request `snum` to the address of target `tg`: on the wire it has the sequence number
-- in network byte order.
pub record IsRequest (bo : ByteOrder) (hn : List ℕ) (cf : Config) (snum : ℕ) (tg : Target)
    (i : Issue) (m : Message) : Type 0 where
  pub to : m.msg_name ≡ (
      if cf.cf_ipv4
      then inet (bo.htons (u16 cf.cf_port)) (u32 tg.tg_laddr)
      else inet6 (bo.htons (u16 cf.cf_port)) (tipv6 tg.tg_laddr tg.tg_haddr))
  pub payload : m.buffer.base ≡ encode_payload bo (request_of snum i.now hn cf)
  pub seq_num : m.buffer.base.pl_snum ≡ htonll bo snum
  pub size : m.iov_len ≡ u16 cf.cf_len

-- One message for each target, in order.
abbrev pub AreRequests :
    ByteOrder → List ℕ → Config → ℕ → List Target → List Issue → List Message → Type 0
AreRequests bo hn cf snum [] es [] = Unit
AreRequests bo hn cf snum (tg ∷ tgs) (i ∷ es) (m ∷ ms) =
    IsRequest bo hn cf snum tg i m × AreRequests bo hn cf snum tgs es ms
AreRequests bo hn cf snum tgs es ms = ⊥

-- sendmsg(2) sends the whole message.
abbrev pub IsWhole : Config → Issue → Type 0
IsWhole cf i = i.sendmsg ≡ some (u16 cf.cf_len)

module _ (bo : ByteOrder) (k : Labels) (hn : List ℕ) (cf : Config) where
  pub request :
      (snum : ℕ) (tg : Target) (i : Issue) (s : State)
      → IsRequest bo hn cf snum tg i (issue_request bo k hn cf snum tg i s).message
  unfolding issue_request send_packet fill_payload set_address encode_payload
  request snum tg i s = record { to = refl; payload = refl; seq_num = refl; size = refl }

  request-ok :
      (snum : ℕ) (tg : Target) (i : Issue) (s : State)
      → IsWhole cf i
      → (issue_request bo k hn cf snum tg i s).ok ≡ true
  unfolding issue_request send_packet fill_payload
  request-ok snum tg i s h = ground arith

  -- A grouped round with an environment for each target, in which sendmsg(2) sends every message whole,
  -- sends one request to each target, in the order of the targets, with the sequence number of the
  -- round, to the target's address, and then waits once.
  pub grouped_round-sent :
      (tgs : List Target) (snum : ℕ) (es : List Issue) (last : Pause) (s : State)
      → length es ≡ length tgs
      → All (IsWhole cf) es
      → AreRequests bo hn cf snum tgs es (grouped_round bo k hn cf tgs snum es last s).sent
        × (length (grouped_round bo k hn cf tgs snum es last s).waits ≡ 1)
        × ((grouped_round bo k hn cf tgs snum es last s).order
            ≡ map (λ tg. sending) tgs ++ (waiting ∷ []))
  unfolding grouped_round pause
  grouped_round-sent [] snum [] last s size ok = (tt, refl, refl)
  grouped_round-sent [] snum (i ∷ es) last s size ok = absurd (omega arith)
  grouped_round-sent (tg ∷ tgs) snum [] last s size ok = absurd (omega arith)
  grouped_round-sent (tg ∷ tgs) snum (i ∷ es) last s size (ok, oks) =
      let rest =
        grouped_round-sent tgs snum es last (issue_request bo k hn cf snum tg i s).state
          (omega arith) oks in
      rw (request-ok snum tg i s ok)
        ((request snum tg i s, rest.0), rest.1, ap (◌∷◌ sending) rest.2)

-- The pauses of a dispersed round add up to the interval and exceed it by at most one nanosecond per
-- target, where one pause fits 64 bits.
pub part_of_lem :
    (cf : Config) (ntg : ℕ)
    → 1 ≤ ntg
    → cf.cf_int / ntg + 1 < 2 ^ 64
    → (cf.cf_int < part_of cf ntg * ntg) × (part_of cf ntg * ntg ≤ cf.cf_int + ntg)
unfolding part_of
part_of_lem cf ntg pos fits =
    let whole : u64 (cf.cf_int / ntg + 1) ≡ cf.cf_int / ntg + 1 = omega arith in
    let spread = add-mul (cf.cf_int / ntg) 1 ntg in
    let parts = mod-add-div' cf.cf_int ntg in
    let less : cf.cf_int % ntg < ntg = mod-lt cf.cf_int (omega arith) in
    rw whole (rw spread (omega arith, omega arith))
