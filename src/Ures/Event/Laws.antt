-- ===== src/Ures/Event/Laws.antt =====
-- Which requests the responder answers, with what, and when it gives up.
use nemo_core.Prelude.{
  ℕ, ◌≡◌, ◌↔◌, ◌⊎◌, inl, inr, true, false, Option, none, some, List, arith, Option-cases,
}
use nemo_core.Word.{u8}
use nemo_core.Convert.{ByteOrder}
use nemo_core.Payload.{Payload, type_response}
use nemo_core.Channel.{Channel}
use nemo_core.Packet.{
  Labels, Incoming, Message, encode_payload, send_packet, receive_packet, is_length,
}
use nemo_core.Plugin.{Plugin}
use nemo_core.Ures.Config.{Config}
use nemo_core.Now.{Clocks}
use nemo_core.Ures.Event.{Handled, World, handle_event}

-- The responder's filters: 0 stands for any key and any length.
pub record Matches (cf : Config) (pl : Payload) : Type 0 where
  pub key : (cf.cf_key ≡ 0) ⊎ (pl.pl_key ≡ cf.cf_key)
  pub len : (cf.cf_len ≡ 0) ⊎ (pl.pl_len ≡ cf.cf_len)

-- The response to a request: the request, with the response type, the responder's clocks, the
-- time-to-live at which the request came, and the responder's key, time-to-live and host name.
abbrev pub answer_to : Clocks → List ℕ → Config → Incoming → Payload
answer_to now hn cf inc = record (inc.pl) {
  pl_type = type_response;
  pl_mtm2 = now.mono;
  pl_rtm2 = now.real;
  pl_ttl2 = inc.ttl;
  pl_key = cf.cf_key;
  pl_ttl1 = u8 cf.cf_ttl;
  pl_host = hn;
}

module _ (bo : ByteOrder) (k : Labels) (hn : List ℕ) (pis : List Plugin) (cf : Config) (w : World)
    (ch : Channel) where
  abbrev incoming : Option Incoming
  incoming = (receive_packet bo k ch w.got).1

  abbrev handled : Handled
  handled = handle_event bo k hn pis cf w ch

  -- A request is answered exactly when its datagram is accepted, its key and length match the
  -- responder's filters, and the monologue mode is off. The one message goes to the address that
  -- the request came from, has the request's length, and carries `answer_to` the request.
  pub handle_event-sent_iff :
      (m : Message)
      → (handled.sent ≡ some m) ↔ (
          (inc : Incoming) × (incoming ≡ some inc)
          × Matches cf inc.pl
          × (cf.cf_mono ≡ false)
          × (m ≡ record {
            sock = (receive_packet bo k ch w.got).0.ch_sock;
            msg_name = inc.addr;
            buffer = record (w.got.buffer) { base = encode_payload bo (answer_to w.now hn cf inc) };
            iov_len = inc.pl.pl_len;
          }))
  unfolding handle_event send_packet
  handle_event-sent_iff m = (
    λ h. elim (Option-cases incoming) [
      | inl e ↦ absurd (ground arith)
      | inr (inc, e) ↦
          (inc, e, record { key = ground arith; len = ground arith }, ground arith, ground arith)
    ],
    λ (inc, e, match, mono, q). ground arith,
  )

  -- The handler returns false exactly when exit on error was selected and either the datagram was
  -- refused, or it was answered and not sent in full.
  pub handle_event-fails_iff : (handled.ok ≡ false) ↔ (
      (cf.cf_err ≡ true)
      × ((incoming ≡ none)
          ⊎ ((inc : Incoming) × (incoming ≡ some inc)
              × Matches cf inc.pl
              × (cf.cf_mono ≡ false)
              × (is_length w.sendmsg inc.pl.pl_len ≡ false))))
  unfolding handle_event send_packet
  handle_event-fails_iff = (
    λ h. elim (Option-cases incoming) [
      | inl e ↦ (ground arith, inl e)
      | inr (inc, e) ↦ (
        ground arith,
        inr (inc, e, record { key = ground arith; len = ground arith }, ground arith, ground arith),
      )
    ],
    λ (err, cause). elim cause [
      | inl e ↦ ground arith
      | inr (inc, e, match, mono, short) ↦ ground arith
    ],
  )
