-- ===== src/Ures/Service/Laws.antt =====
-- The responder's loop implements the service.
use nemo_core.Prelude.{
  ℕ, ◌^◌, ◌<◌, ◌≡◌, refl, sym, ap, ap₂, ◌∙◌, Bool, true, false, none, some, List, [], ◌∷◌, ◌++◌,
  All, if◌then◌else◌, arith, Bool-cases, Option-cases, inl, inr,
}
use mathlib.Core.List.{append_assoc, append-nil}
use nemo_core.Convert.{ByteOrder, IsByteOrder}
use nemo_core.Now.{Clocks}
use nemo_core.Payload.{IsPayload}
use nemo_core.Channel.{Channel}
use nemo_core.Packet.{
  Labels, Received, Incoming, decode_payload, encode_payload, receive_packet, send_packet,
}
use nemo_core.Packet.RoundTrip.{decode-encode, decode_payload-IsPayload}
use nemo_core.Plugin.{Plugin}
use nemo_core.Ures.Config.{Config}
use nemo_core.Ures.Event.{Handled, World, handle_event}
use nemo_core.Ures.Event.Laws.{answer_to}
use nemo_core.Ures.Loop.{ready, Round, State, Trace, after_select, expired, loop}
use nemo_core.Ures.Loop.Laws.{step_again, ready_again}
use nemo_core.Ures.Service.{policy_of, answers, understand, reply_to, serve, reply_of, replies}

module _ (bo : ByteOrder) (k : Labels) (hn : List ℕ) (cf : Config) where
  understand_lem :
      (ch : Channel) (got : Received) → (receive_packet bo k ch got).1 ≡ understand bo k hn cf got
  unfolding understand receive_packet
  understand_lem ch got = ground arith

  sent_lem :
      (pis : List Plugin) (w : World) (ch : Channel) (inc : Incoming)
      → (receive_packet bo k ch w.got).1 ≡ some inc
      → (handle_event bo k hn pis cf w ch).sent ≡ (
          if answers (policy_of cf) inc.pl
          then some (record {
            sock = (receive_packet bo k ch w.got).0.ch_sock;
            msg_name = inc.addr;
            buffer = record (w.got.buffer) { base = encode_payload bo (answer_to w.now hn cf inc) };
            iov_len = inc.pl.pl_len;
          })
          else none)
  unfolding handle_event send_packet
  sent_lem pis w ch inc e = ground arith

  none_lem :
      (pis : List Plugin) (w : World) (ch : Channel)
      → (receive_packet bo k ch w.got).1 ≡ none
      → (handle_event bo k hn pis cf w ch).sent ≡ none
  unfolding handle_event
  none_lem pis w ch e = ground arith

  understood :
      (got : Received) (inc : Incoming)
      → understand bo k hn cf got ≡ some inc
      → inc.pl ≡ decode_payload bo got.buffer.base
  unfolding understand
  understood got inc e = ground arith

  -- The fields of the buffer are of their types, and the clocks fit 64 bits.
  abbrev pub IsTyped : World → Type 0
  IsTyped w = IsPayload w.got.buffer.base × (w.now.mono < 2 ^ 64) × (w.now.real < 2 ^ 64)

  -- A datagram arrives, or nothing is ready.
  abbrev pub IsCall : Round → Type 0
  IsCall r = (isset : Bool) × (w : World) × (r.select ≡ ready isset w) × IsTyped w

  module _ (law : IsByteOrder bo) (key : cf.cf_key < 2 ^ 64) where
    answer_to-IsPayload :
        (now : Clocks) (inc : Incoming)
        → IsPayload inc.pl
        → now.mono < 2 ^ 64
        → now.real < 2 ^ 64
        → IsPayload (answer_to now hn cf inc)
    answer_to-IsPayload now inc h m r = ground arith

    handle_event_reply :
        (pis : List Plugin) (w : World) (ch : Channel)
        → IsTyped w
        → reply_of bo k hn cf (handle_event bo k hn pis cf w ch).sent
          ≡ reply_to bo k hn cf (policy_of cf) w.now (understand bo k hn cf w.got)
    handle_event_reply pis w ch (typed, m, r) = elim (Option-cases (understand bo k hn cf w.got)) [
      | inl e ↦ rw (none_lem pis w ch (understand_lem ch w.got ∙ e), e) refl
      | inr (inc, e) ↦
          let fits : IsPayload inc.pl =
            rw (understood w.got inc e) (decode_payload-IsPayload bo law w.got.buffer.base typed) in
          let back =
            decode-encode bo law (answer_to w.now hn cf inc)
              (answer_to-IsPayload w.now inc fits m r) in
          elim (Bool-cases (answers (policy_of cf) inc.pl)) [
            | inl yes' ↦
                rw (sent_lem pis w ch inc (understand_lem ch w.got ∙ e), e, yes') (rw back refl)
            | inr no' ↦ rw (sent_lem pis w ch inc (understand_lem ch w.got ∙ e), e, no') refl
          ]
    ]

    pub replies-append :
        (hs gs : List Handled)
        → replies bo k hn cf (hs ++ gs) ≡ replies bo k hn cf hs ++ replies bo k hn cf gs
    replies-append [] gs = refl
    replies-append (h ∷ hs) gs =
        ap (◌++◌ (reply_of bo k hn cf h.sent)) (replies-append hs gs)
        ∙ sym (
            append_assoc (reply_of bo k hn cf h.sent) (replies bo k hn cf hs)
              (replies bo k hn cf gs))

    pub round_replies :
        (r : Round) (s : State) (isset : Bool) (w : World)
        → r.select ≡ ready isset w
        → IsTyped w
        → replies bo k hn cf (after_select bo k hn cf r s).0 ≡ (
            if isset
            then reply_to bo k hn cf (policy_of cf) w.now (understand bo k hn cf w.got)
            else [])
    unfolding after_select
    round_replies r s true w e t = go (handle_event bo k hn s.pis cf w s.ch).ok refl
      where
        go :
            (ok : Bool)
            → (handle_event bo k hn s.pis cf w s.ch).ok ≡ ok
            → replies bo k hn cf (after_select bo k hn cf r s).0
              ≡ reply_to bo k hn cf (policy_of cf) w.now (understand bo k hn cf w.got)
        go true q = rw (e, after_select, q) (append-nil _ ∙ handle_event_reply s.pis w s.ch t)
        go false q = rw (e, after_select, q) (append-nil _ ∙ handle_event_reply s.pis w s.ch t)
    round_replies r s false w e t = rw (e, after_select) refl

    pub serve_step :
        (r : Round) (rs : List Round) (isset : Bool) (w : World)
        → r.select ≡ ready isset w
        → serve bo k hn cf (policy_of cf) (r ∷ rs)
          ≡ (if isset
              then reply_to bo k hn cf (policy_of cf) w.now (understand bo k hn cf w.got)
              else [])
            ++ serve bo k hn cf (policy_of cf) rs
    unfolding serve
    serve_step r rs isset w e = rw (e, serve) refl

    -- The responder's loop implements the service. With no inactivity timeout and without exit on
    -- error, over rounds in which datagrams of any content arrive or nothing is ready, the messages
    -- that it gives to sendmsg(2) stand for exactly the replies of the service to what arrives, in
    -- order. The key and the clocks must fit 64 bits, the fields in the buffers be of their types,
    -- and the byte order functions be as POSIX says.
    pub loop-serve :
        (rs : List Round) (s : State)
        → cf.cf_ito ≡ 0
        → cf.cf_err ≡ false
        → All IsCall rs
        → replies bo k hn cf (loop bo k hn cf rs s).events ≡ serve bo k hn cf (policy_of cf) rs
    loop-serve [] s ito err h = unfold loop serve in refl
    loop-serve (r ∷ rs) s ito err ((isset, w, e, t), h) =
        let (s', q) = ready_again bo k hn cf r s err (isset, w, e) in
        let fresh : expired bo k hn cf r.cur s ≡ false = rw ito refl in
        ap (λ (x : Trace). replies bo k hn cf x.events) (step_again bo k hn cf r rs s s' fresh q)
        ∙ replies-append (after_select bo k hn cf r s).0 (loop bo k hn cf rs s').events
        ∙ ap₂ ◌++◌ (round_replies r s isset w e t) (loop-serve rs s' ito err h)
        ∙ sym (serve_step r rs isset w e)
