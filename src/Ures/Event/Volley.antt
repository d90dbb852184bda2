-- ===== src/Ures/Event/Volley.antt =====
-- A responder that is sent an answer: nothing in src/ looks at the type of a payload.
use nemo_core.Prelude.{ℕ, ◌^◌, ◌<◌, ◌≡◌, refl, false, some, List, if◌then◌else◌}
use nemo_core.Convert.{ByteOrder, IsByteOrder}
use nemo_core.Payload.{IsPayload}
use nemo_core.Channel.{Channel}
use nemo_core.Packet.{Labels, Incoming, Message, receive_packet, retrieve_ttl}
use nemo_core.Packet.RoundTrip.{Carries}
use nemo_core.Plugin.{Plugin}
use nemo_core.Ures.Config.{Config}
use nemo_core.Ures.Event.{World, handle_event}
use nemo_core.Ures.Event.Laws.{Matches, answer_to, handle_event-sent_iff}
use nemo_core.Ures.Event.Echo.{receive-handle_event}

-- A responder with its host name and plugins.
pub record Party : Type 0 where
  pub hn : List ℕ
  pub pis : List Plugin
  pub cf : Config

module _ (bo : ByteOrder) (k : Labels) (law : IsByteOrder bo) where
  -- When a responder's answer reaches a second responder (or the same one) whole, and its key and
  -- length match the filters there, it is answered in its turn, to the address that it came from,
  -- unless the second is in the monologue mode. The fields of the first request are of their types,
  -- the key and the clocks of the first responder fit 64 bits, and the byte order functions are as
  -- POSIX says.
  pub handle_event-handle_event :
      (a b : Party) (w v : World) (ch ch' : Channel) (m : Message) (inc : Incoming)
      → (handle_event bo k a.hn a.pis a.cf w ch).sent ≡ some m
      → (receive_packet bo k ch w.got).1 ≡ some inc
      → IsPayload inc.pl
      → a.cf.cf_key < 2 ^ 64
      → w.now.mono < 2 ^ 64
      → w.now.real < 2 ^ 64
      → Carries m v.got
      → Matches b.cf (answer_to w.now a.hn a.cf inc)
      → b.cf.cf_mono ≡ false
      → (m' : Message) × ((handle_event bo k b.hn b.pis b.cf v ch').sent ≡ some m')
        × (m'.msg_name ≡ v.got.from)
  handle_event-handle_event a b w v ch ch' m inc sent took ok key mono real c match loud =
      let back : Incoming = record {
        pl = answer_to w.now a.hn a.cf inc;
        ttl = if v.got.ctrunc then 0 else retrieve_ttl k v.got.control;
        addr = v.got.from;
      } in
      let arrived =
        receive-handle_event bo k a.hn a.pis a.cf w ch law m inc ch' v.got sent took ok key mono
          real c in
      (
        _,
        (handle_event-sent_iff bo k b.hn b.pis b.cf v ch' _).1 (back, arrived, match, loud, refl),
        refl,
      )
