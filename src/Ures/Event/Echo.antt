-- ===== src/Ures/Event/Echo.antt =====
-- A request and its response, end to end.
use nemo_core.Prelude.{ℕ, ◌^◌, ◌≤◌, ◌<◌, ◌≡◌, ap, ◌∙◌, none, some, List, if◌then◌else◌, arith}
use nemo_core.Convert.{ByteOrder, IsByteOrder}
use nemo_core.Payload.{Payload, IsPayload, payload_magic, payload_version}
use nemo_core.Channel.{Channel}
use nemo_core.Packet.{
  Labels, Received, Incoming, Message, encode_payload, decode_payload, send_packet, receive_packet,
  retrieve_ttl,
}
use nemo_core.Packet.Receive.{receive_packet_iff}
use nemo_core.Packet.RoundTrip.{Carries, receive-send}
use nemo_core.Plugin.{Plugin}
use nemo_core.Ures.Config.{Config}
use nemo_core.Ures.Event.{World, handle_event}
use nemo_core.Ures.Event.Laws.{answer_to, handle_event-sent_iff}

module _ (bo : ByteOrder) (k : Labels) (hn : List ℕ) (pis : List Plugin) (cf : Config) (w : World)
    (ch : Channel) where
  -- When the responder's message reaches a requester whole, the requester accepts it: its payload
  -- is the answer to the request that the responder had received, so the sequence number and
  -- length and the request's two times come back as they were sent, from a payload of the right
  -- magic identifier and version. The request's fields must fit their types, and the responder's key
  -- and clocks 64 bits; the host's byte order functions must be as POSIX says.
  pub receive-handle_event :
      IsByteOrder bo
      → (m : Message) (inc : Incoming) (ch' : Channel) (got : Received)
      → (handle_event bo k hn pis cf w ch).sent ≡ some m
      → (receive_packet bo k ch w.got).1 ≡ some inc
      → IsPayload inc.pl
      → cf.cf_key < 2 ^ 64
      → w.now.mono < 2 ^ 64
      → w.now.real < 2 ^ 64
      → Carries m got
      → (receive_packet bo k ch' got).1
        ≡ some (record {
          pl = answer_to w.now hn cf inc;
          ttl = if got.ctrunc then 0 else retrieve_ttl k got.control;
          addr = got.from;
        })
  unfolding send_packet
  receive-handle_event law m inc ch' got sent took ok key mono real c =
      receive-send bo law k ch ch' w.got.buffer answer inc.addr none got valid good.0 good.1 good.2
        (record { base = carried.0; all = carried.1; whole = c.whole })
    where
      answer : Payload
      answer = answer_to w.now hn cf inc

      valid : IsPayload answer
      valid = ground arith

      good :
          (inc.pl.pl_mgic ≡ payload_magic)
          × (inc.pl.pl_fver ≡ payload_version)
          × (128 ≤ inc.pl.pl_len)
      good =
          let (g, q) = (receive_packet_iff bo k ch w.got inc).0 took in
          let same : inc.pl ≡ decode_payload bo w.got.buffer.base = ap (λ (i : Incoming). i.pl) q in
          (rw same g.magic, rw same g.version, rw same g.enough)

      carried : (got.buffer.base ≡ encode_payload bo answer) × (got.len ≡ some inc.pl.pl_len)
      carried =
          let (inc2, e, matches, off, q) = (handle_event-sent_iff bo k hn pis cf w ch m).0 sent in
          let same : inc2 ≡ inc = ground arith in
          (
            c.base
                ∙ ap (λ (x : Message). x.buffer.base) q
                ∙ ap (λ (i : Incoming). encode_payload bo (answer_to w.now hn cf i)) same,
            c.all
                ∙ ap (λ (x : Message). some x.iov_len) q
                ∙ ap (λ (i : Incoming). some i.pl.pl_len) same,
          )
