-- ===== src/Ureq/Round.antt =====
-- src/ureq/round.c: the requests of one round. The environment of a request is its clocks and what
-- sendmsg(2) returns, and that of a wait its start and the calls of pselect(2).
pub mod Laws
pub mod Numbers
pub mod Dispersed
pub mod Ends
pub mod Lasts
use nemo_core.Prelude.{
  ℕ, ◌+◌, ◌/◌, Bool, true, false, Option, none, some, List, [], ◌∷◌, ◌++◌, replicate, length, map,
  ◌==◌, if◌then◌else◌,
}
use nemo_core.Word.{u8, u16, u32, u64}
use nemo_core.Convert.{ByteOrder, tipv6}
use nemo_core.Now.{Clocks}
use nemo_core.Payload.{Payload, SockAddr, inet, inet6, type_request, payload_magic, payload_version}
use nemo_core.Packet.{Labels, Message, send_packet}
use nemo_core.Ureq.Config.{Config}
use nemo_core.Ureq.Target.{Target}
use nemo_core.Ureq.Event.{State, Wait, Waited, wait_for_events}

unfoldable pub fill_payload : Clocks → ℕ → List ℕ → Config → Payload
fill_payload now snum hn cf = record {
  pl_mgic = payload_magic;
  pl_len = u16 cf.cf_len;
  pl_fver = payload_version;
  pl_type = type_request;
  pl_pad = 0;
  pl_pad2 = 0;
  pl_ttl1 = u8 cf.cf_ttl;
  pl_ttl2 = 0;
  pl_snum = snum;
  pl_slen = cf.cf_cnt;
  pl_key = cf.cf_key;
  pl_mtm1 = now.mono;
  pl_rtm1 = now.real;
  pl_mtm2 = 0;
  pl_rtm2 = 0;
  pl_host = hn;
  pl_pad3 = replicate 12 0;
}

unfoldable pub set_address : ByteOrder → Target → Config → SockAddr
set_address bo tg cf =
    if cf.cf_ipv4
    then inet (bo.htons (u16 cf.cf_port)) (u32 tg.tg_laddr)
    else inet6 (bo.htons (u16 cf.cf_port)) (tipv6 tg.tg_laddr tg.tg_haddr)

pub record Issue : Type 0 where
  pub now : Clocks
  pub sendmsg : Option ℕ

-- The environment of a wait.
pub record Pause : Type 0 where
  pub start : ℕ
  pub waits : List Wait

pub record Issued : Type 0 where
  pub message : Message
  pub state : State
  pub ok : Bool

-- What a round does, without its details.
pub data Act : Type 0 where
  sending waiting : Act

-- What a round has done: the messages given to sendmsg(2), the waits, the order of these calls among
-- each other, its result (`none` where it still goes on) and the state.
pub record Ran : Type 0 where
  pub sent : List Message
  pub waits : List Waited
  pub order : List Act
  pub result : Option Bool
  pub final : State

-- The time between two requests.
unfoldable pub part_of : Config → ℕ → ℕ
part_of cf ntg = u64 (cf.cf_int / ntg + 1)

module _ (bo : ByteOrder) (k : Labels) (hn : List ℕ) (cf : Config) where
  unfoldable pub issue_request : ℕ → Target → Issue → State → Issued
  unfolding fill_payload set_address
  issue_request snum tg i s =
      let hpl = fill_payload i.now snum hn cf in
      let r = send_packet bo s.ch s.wrapper hpl (set_address bo tg cf) i.sendmsg in
      record { message = r.message; state = record s { ch = r.ch; wrapper = r.wrapper }; ok = r.ok }

  -- A wait at the end of a round.
  unfoldable pub pause : ℕ → Pause → State → Ran
  pause dur p s =
      let w = wait_for_events bo k hn cf p.start dur p.waits s in
      record { sent = []; waits = w ∷ []; order = waiting ∷ []; result = w.result; final = w.final }

  -- A message and the waits behind it, before the rest.
  abbrev pub with_sent : Message → List Waited → Ran → Ran
  with_sent m ws r = record r {
    sent = m ∷ r.sent;
    waits = ws ++ r.waits;
    order = sending ∷ (map (λ w. waiting) ws ++ r.order);
  }

  -- The loop of `dispersed_round`, with the environment of each request and of the wait behind it.
  -- Where the environment ends before the targets do, the round still goes on.
  unfoldable pub dispersed_loop : ℕ → ℕ → List Target → List (Issue × Pause) → State → Ran
  unfolding issue_request pause
  dispersed_loop part snum [] es s = record {
    sent = [];
    waits = [];
    order = [];
    result = some true;
    final = s;
  }
  dispersed_loop part snum (tg ∷ tgs) [] s = record {
    sent = [];
    waits = [];
    order = [];
    result = none;
    final = s;
  }
  dispersed_loop part snum (tg ∷ tgs) ((i, p) ∷ es) s =
      let r = issue_request snum tg i s in
      let w = pause part p r.state in
      let rest = dispersed_loop part snum tgs es w.final in
      if r.ok
      then elim w.result [
        | none ↦ with_sent r.message [] w
        | some go_on ↦ if go_on then with_sent r.message w.waits rest else with_sent r.message [] w
      ]
      else record {
        sent = r.message ∷ [];
        waits = [];
        order = sending ∷ [];
        result = some false;
        final = r.state;
      }

  -- `idle` is the environment of the wait without targets.
  unfoldable pub dispersed_round : List Target → ℕ → Pause → List (Issue × Pause) → State → Ran
  unfolding dispersed_loop part_of
  dispersed_round tg snum idle es s =
      if length tg == 0
      then pause cf.cf_int idle s
      else dispersed_loop (part_of cf (length tg)) snum tg es s

  -- The loop of `grouped_round`, and `last`, the wait behind it.
  unfoldable pub grouped_round : List Target → ℕ → List Issue → Pause → State → Ran
  unfolding issue_request pause
  grouped_round [] snum es last s = pause cf.cf_int last s
  grouped_round (tg ∷ tgs) snum [] last s = record {
    sent = [];
    waits = [];
    order = [];
    result = none;
    final = s;
  }
  grouped_round (tg ∷ tgs) snum (i ∷ es) last s =
      let r = issue_request snum tg i s in
      let rest = grouped_round tgs snum es last r.state in
      if r.ok then with_sent r.message [] rest else record {
        sent = r.message ∷ [];
        waits = [];
        order = sending ∷ [];
        result = some false;
        final = r.state;
      }
