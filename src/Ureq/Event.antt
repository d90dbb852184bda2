-- ===== src/Ureq/Event.antt =====
-- src/ureq/event.c: waiting for responses for a duration. The environment is a list of rounds, one
-- for each call of pselect(2); where the list ends before the wait does, the wait still goes on.
pub mod Laws
pub mod Listen
pub mod Reached
use nemo_core.Prelude.{
  ℕ, ◌+◌, ◌-◌, Bool, true, false, Option, none, some, List, [], ◌∷◌, drop, not, ◌++◌, ltb,
  if◌then◌else◌,
}
use nemo_core.Word.{u64}
use nemo_core.Convert.{ByteOrder, Timespec, fnanos, ipv6_part}
use nemo_core.Now.{Clocks}
use nemo_core.Payload.{SockAddr, inet, inet6}
use nemo_core.Channel.{Channel}
use nemo_core.Packet.{Labels, Received, Wrapper, receive_packet}
use nemo_core.Signal.{Signal, Flags, deliver}
use nemo_core.Ureq.Config.{Config}
use nemo_core.Ureq.Report.{Row, report_event}

unfoldable pub retrieve_address : SockAddr → record { la : ℕ; ha : ℕ }
retrieve_address (inet port addr) = record { la = addr; ha = 0 }
retrieve_address (inet6 port addr) = record { la = ipv6_part addr; ha = ipv6_part (drop 7 addr) }

-- The channel, the static receive and send buffer, and the signal flags.
pub record State : Type 0 where
  pub ch : Channel
  pub wrapper : Wrapper
  pub flags : Flags

-- What arrives, and the clocks behind it.
pub record Arrival : Type 0 where
  pub got : Received
  pub now : Clocks

-- A call of `handle_event`: the state after it, the line reported, and its result.
pub record Heard : Type 0 where
  pub state : State
  pub row : Option Row
  pub ok : Bool

-- What pselect(2) returns: -1 with EINTR after these signals, -1 with another error, 0, or a positive
-- number with the socket in the set or not. `wait_for_events` gives it 4 as the number of descriptors,
-- so that it looks at the socket only where that is descriptor 3 or less: with another descriptor it
-- never answers `ready`.
pub data Select : Type 0 where
  interrupted : List Signal → Select
  failed timeout : Select
  ready : Bool → Arrival → Select

-- One call of pselect(2), and the clock at the end of the loop's body.
pub record Wait : Type 0 where
  pub select : Select
  pub cur : ℕ

unfoldable pub handle_interrupt : Flags → Flags × Bool
handle_interrupt f =
    if f.sint
    then (f, false)
    else if f.sterm
    then (f, false)
    else if f.susr1
    then (record f { susr1 = false }, true)
    else (f, false)

-- What a wait has done: the timeouts it gave to pselect(2), the lines it reported, its result
-- (`none` where it still goes on), the state and the clock.
pub record Waited : Type 0 where
  pub timeouts : List Timespec
  pub rows : List (Option Row)
  pub result : Option Bool
  pub final : State
  pub cur : ℕ

-- What the loop's body does next: another round with this clock, or return.
pub data Next : Type 0 where
  again : ℕ → State → Next
  stop : State → Next

module _ (bo : ByteOrder) (k : Labels) (hn : List ℕ) (cf : Config) where
  unfoldable pub handle_event : Bool → Arrival → State → Heard
  unfolding retrieve_address
  handle_event isset a s =
      let (ch', incoming) = receive_packet bo k s.ch a.got in
      let s' = record s { ch = ch'; wrapper = a.got.buffer } in
      if cf.cf_mono
      then record { state = s; row = none; ok = true }
      else if not isset
      then record { state = s; row = none; ok = true }
      else elim incoming [
        | none ↦ record { state = s'; row = none; ok = false }
        | some inc ↦
            let at = retrieve_address inc.addr in
            record {
              state = s';
              row = report_event inc.pl hn a.now.real a.now.mono inc.ttl at.la at.ha cf;
              ok = true;
            }
      ]

  -- The lines reported by a round, and how it ends. After an interrupt the clock is not read again.
  unfoldable pub after_select : ℕ → Wait → State → List (Option Row) × Next
  unfolding handle_event handle_interrupt
  after_select cur w s = elim w.select [
    | interrupted ss ↦
        let (f, go_on) = handle_interrupt (deliver ss s.flags) in
        let s' = record s { flags = f } in if go_on then ([], again cur s') else ([], stop s')
    | failed ↦ ([], stop s)
    | timeout ↦ ([], again w.cur s)
    | ready isset a ↦
        let h = handle_event isset a s in
        if h.ok then (h.row ∷ [], again w.cur h.state) else (h.row ∷ [], stop h.state)
  ]

  -- The loop from the clock `cur` on, until `goal`.
  unfoldable pub wait_loop : ℕ → ℕ → List Wait → State → Waited
  unfolding after_select
  wait_loop cur goal [] s = record {
    timeouts = [];
    rows = [];
    result = if ltb cur goal then none else some true;
    final = s;
    cur = cur;
  }
  wait_loop cur goal (w ∷ ws) s =
      let t = fnanos (goal - cur) in
      let (rows, next) = after_select cur w s in
      if ltb cur goal
      then elim next [
        | again cur' s' ↦
            let rest = wait_loop cur' goal ws s' in
            record rest { timeouts = t ∷ rest.timeouts; rows = rows ++ rest.rows }
        | stop s' ↦ record {
          timeouts = t ∷ [];
          rows = rows;
          result = some false;
          final = s';
          cur = cur;
        }
      ]
      else record { timeouts = []; rows = []; result = some true; final = s; cur = cur }

  -- `start` is the clock at the call.
  unfoldable pub wait_for_events : ℕ → ℕ → List Wait → State → Waited
  unfolding wait_loop
  wait_for_events start dur ws s = wait_loop start (u64 (start + dur)) ws s
