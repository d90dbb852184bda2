-- ===== src/Ures/Event.antt =====
-- src/ures/event.c: one incoming request, from its receipt to the response.
pub mod Echo
pub mod Volley
pub mod Laws
use nemo_core.Prelude.{
  ℕ, Bool, true, not, ◌&&◌, Option, none, some, List, [], drop, ◌!=◌, if◌then◌else◌,
}
use nemo_core.Word.{u8}
use nemo_core.Convert.{ByteOrder, ipv6_part}
use nemo_core.Now.{Clocks}
use nemo_core.Payload.{Payload, SockAddr, inet, inet6, type_response}
use nemo_core.Channel.{Channel}
use nemo_core.Packet.{Labels, Received, Incoming, Wrapper, Message, send_packet, receive_packet}
use nemo_core.Plugin.{Plugin, Write, notify_plugins}
use nemo_core.Ures.Config.{Config}
use nemo_core.Ures.Report.{Row, report_event}

unfoldable pub fill_payload : Clocks → Payload → ℕ → Payload
fill_payload now pl ttl = record pl {
  pl_type = type_response;
  pl_mtm2 = now.mono;
  pl_rtm2 = now.real;
  pl_ttl2 = ttl;
}

unfoldable pub update_payload : Payload → List ℕ → Config → Payload
update_payload pl hn cf = record pl { pl_key = cf.cf_key; pl_ttl1 = u8 cf.cf_ttl; pl_host = hn }

unfoldable pub retrieve_port : SockAddr → ℕ
retrieve_port (inet port addr) = port
retrieve_port (inet6 port addr) = port

unfoldable pub retrieve_address : SockAddr → record { la : ℕ; ha : ℕ }
retrieve_address (inet port addr) = record { la = addr; ha = 0 }
retrieve_address (inet6 port addr) = record { la = ipv6_part addr; ha = ipv6_part (drop 7 addr) }

-- What the handler did: the channel and the send buffer after it, the line reported, the payloads
-- written to plugins, the message sent, and its result.
pub record Handled : Type 0 where
  pub ch : Channel
  pub wrapper : Wrapper
  pub row : Option Row
  pub writes : List Write
  pub sent : Option Message
  pub ok : Bool

-- The environment of the call: what arrives, the clocks, and what `sendmsg` returns.
pub record World : Type 0 where
  pub got : Received
  pub now : Clocks
  pub sendmsg : Option ℕ

module _ (bo : ByteOrder) (k : Labels) (hn : List ℕ) (pis : List Plugin) (cf : Config) where
  -- The part after the key and the length have been checked.
  unfoldable pub respond : World → Channel → Incoming → Handled
  unfolding fill_payload update_payload retrieve_port retrieve_address
  respond w ch inc =
      let filled = fill_payload w.now inc.pl inc.ttl in
      let la = (retrieve_address inc.addr).la in
      let ha = (retrieve_address inc.addr).ha in
      let row = report_event filled hn la ha (retrieve_port inc.addr) cf in
      let writes = notify_plugins pis filled in
      let answer = update_payload filled hn cf in
      let s = send_packet bo ch w.got.buffer answer inc.addr w.sendmsg in
      if cf.cf_mono
      then record {
        ch = ch;
        wrapper = w.got.buffer;
        row = row;
        writes = writes;
        sent = none;
        ok = true;
      }
      else record {
        ch = s.ch;
        wrapper = s.wrapper;
        row = row;
        writes = writes;
        sent = some s.message;
        ok = if s.ok then true else not cf.cf_err;
      }

  abbrev pub ignore : World → Channel → Bool → Handled
  ignore w ch ok = record {
    ch = ch;
    wrapper = w.got.buffer;
    row = none;
    writes = [];
    sent = none;
    ok = ok;
  }

  unfoldable pub handle_event : World → Channel → Handled
  unfolding respond
  handle_event w ch =
      let (ch', incoming) = receive_packet bo k ch w.got in
      elim incoming [
        | none ↦ ignore w ch' (not cf.cf_err)
        | some inc ↦
            if cf.cf_key != 0 && inc.pl.pl_key != cf.cf_key
            then ignore w ch' true
            else if cf.cf_len != 0 && inc.pl.pl_len != cf.cf_len
            then ignore w ch' true
            else respond w ch' inc
      ]
