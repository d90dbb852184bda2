-- ===== src/Ures/Service.antt =====
-- What the responder promises: each request that makes sense and passes the filters is answered once,
-- at the address that it came from. The loop of src/ures/loop.c implements that.
pub mod Laws
pub mod Session
use nemo_core.Prelude.{
  ℕ, [], Bool, true, not, ◌&&◌, Option, none, some, List, ◌∷◌, ◌++◌, leb, ◌==◌, if◌then◌else◌,
}
use nemo_core.Convert.{ByteOrder}
use nemo_core.Now.{Clocks}
use nemo_core.Payload.{Payload, SockAddr, payload_magic, payload_version, payload_size}
use nemo_core.Packet.{Labels, Received, Incoming, Message, decode_payload, retrieve_ttl}
use nemo_core.Ures.Config.{Config}
use nemo_core.Ures.Event.{Handled}
use nemo_core.Ures.Event.Laws.{answer_to}
use nemo_core.Ures.Loop.{ready, Round}

-- What the responder is asked to answer: any key or one, any length or one, or nothing at all.
pub record Policy : Type 0 where
  pub key : Option ℕ
  pub len : Option ℕ
  pub mute : Bool

abbrev pub accepts : Option ℕ → ℕ → Bool
accepts none x = true
accepts (some y) x = x == y

abbrev pub policy_of : Config → Policy
policy_of cf = record {
  key = if cf.cf_key == 0 then none else some cf.cf_key;
  len = if cf.cf_len == 0 then none else some cf.cf_len;
  mute = cf.cf_mono;
}

-- A payload and where it goes.
pub record Reply : Type 0 where
  pub to : SockAddr
  pub pl : Payload

abbrev pub answers : Policy → Payload → Bool
answers pol pl = (accepts pol.key pl.pl_key && accepts pol.len pl.pl_len) && not pol.mute

module _ (bo : ByteOrder) (k : Labels) (hn : List ℕ) (cf : Config) where
  abbrev pub makes_sense : Received → ℕ → Payload → Bool
  makes_sense got len pl =
      (leb payload_size len && not got.trunc)
      && ((len == pl.pl_len && pl.pl_mgic == payload_magic) && pl.pl_fver == payload_version)

  -- The request in a datagram, if there is one.
  unfoldable pub understand : Received → Option Incoming
  understand got =
      let pl = decode_payload bo got.buffer.base in
      elim got.len [
        | none ↦ none
        | some len ↦
            if makes_sense got len pl
            then some (record {
              pl = pl;
              ttl = if got.ctrunc then 0 else retrieve_ttl k got.control;
              addr = got.from;
            })
            else none
      ]

  abbrev pub reply_to : Policy → Clocks → Option Incoming → List Reply
  reply_to pol now none = []
  reply_to pol now (some inc) =
      if answers pol inc.pl then record { to = inc.addr; pl = answer_to now hn cf inc } ∷ [] else []

  -- The service: the replies to what arrives, in order.
  unfoldable pub serve : Policy → List Round → List Reply
  serve pol [] = []
  serve pol (r ∷ rs) =
      let rest = serve pol rs in
      elim r.select [
        | ready isset w ↦ (if isset then reply_to pol w.now (understand w.got) else []) ++ rest
        | _ ↦ rest
      ]

  -- The replies that the messages of the events stand for.
  abbrev pub reply_of : Option Message → List Reply
  reply_of none = []
  reply_of (some m) = record { to = m.msg_name; pl = decode_payload bo m.buffer.base } ∷ []

  abbrev pub replies : List Handled → List Reply
  replies [] = []
  replies (h ∷ hs) = reply_of h.sent ++ replies hs
