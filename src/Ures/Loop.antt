-- ===== src/Ures/Loop.antt =====
-- src/ures/loop.c: the loop that waits for requests and signals. The environment is a list of
-- rounds, one for each time that the loop comes to its top; where the list ends the loop still runs.
pub mod Laws
pub mod Timeouts
pub mod Counters
pub mod Watched
use nemo_core.Prelude.{
  ℕ, ◌+◌, ◌-◌, Bool, true, false, ◌&&◌, Option, none, some, List, [], ◌∷◌, ◌++◌, leb, ◌==◌, ◌!=◌,
  if◌then◌else◌,
}
use nemo_core.Word.{u64}
use nemo_core.Convert.{ByteOrder, Timespec, fnanos}
use nemo_core.Channel.{Channel}
use nemo_core.Packet.{Labels}
use nemo_core.Plugin.{Plugin, Status, wait_plugins}
use nemo_core.Signal.{Signal, Flags, deliver}
use nemo_core.Ures.Config.{Config}
use nemo_core.Ures.Event.{Handled, World, handle_event}

pub record Interrupted : Type 0 where
  pub flags : Flags
  pub pis : List Plugin
  pub go_on : Bool

unfoldable pub handle_interrupt : (Plugin → Status) → Flags → List Plugin → Interrupted
handle_interrupt waitpid f pis =
    let f' = if f.schld then record f { schld = false } else f in
    let pis' = if f.schld then wait_plugins waitpid pis else pis in
    if f.sint
    then record { flags = f; pis = pis; go_on = false }
    else if f.sterm
    then record { flags = f; pis = pis; go_on = false }
    else if f.susr1
    then record { flags = record f' { susr1 = false }; pis = pis'; go_on = true }
    else record { flags = f'; pis = pis'; go_on = false }

-- What pselect(2) returns: -1 with EINTR after these signals (and what waitpid(2) would say), -1
-- with another error, 0, or a positive number with the socket in the set or not. It looks at the
-- socket only where its descriptor is less than `nfds`: another socket is never in the set.
pub data Select : Type 0 where
  interrupted : List Signal → (Plugin → Status) → Select
  failed timeout : Select
  ready : Bool → World → Select

-- The number of descriptors that the loop gives to pselect(2).
abbrev pub nfds : ℕ
nfds = 4

-- One round: the clock at its top, pselect(2), and the clock after an event.
pub record Round : Type 0 where
  pub cur : ℕ
  pub select : Select
  pub done : ℕ

pub record State : Type 0 where
  pub ch : Channel
  pub pis : List Plugin
  pub flags : Flags
  -- The time at which the inactivity timeout ends.
  pub lim : ℕ

-- How a round ends: the loop goes on, or the function returns.
pub data Ended : Type 0 where
  again : State → Ended
  returned : Bool → State → Ended

-- What the loop has done so far, with the timeouts it gave to pselect(2) (`none` is NULL).
pub record Trace : Type 0 where
  pub timeouts : List (Option Timespec)
  pub events : List Handled
  pub result : Option Bool
  pub final : State

module _ (bo : ByteOrder) (k : Labels) (hn : List ℕ) (cf : Config) where
  -- The timeout of a round that waits.
  unfoldable pub timeout_of : ℕ → State → Option Timespec
  timeout_of cur s = if cf.cf_ito == 0 then none else some (fnanos (s.lim - cur))

  abbrev pub expired : ℕ → State → Bool
  expired cur s = cf.cf_ito != 0 && leb s.lim cur

  -- The events handled in a round, and how it ends.
  unfoldable pub after_select : Round → State → List Handled × Ended
  unfolding handle_interrupt
  after_select r s = elim r.select [
    | interrupted ss waitpid ↦
        let i = handle_interrupt waitpid (deliver ss s.flags) s.pis in
        let s' = record s { flags = i.flags; pis = i.pis } in
        if i.go_on then ([], again s') else ([], returned false s')
    | failed ↦ ([], returned false s)
    | timeout ↦ ([], returned true s)
    | ready isset w ↦
        let h = handle_event bo k hn s.pis cf w s.ch in
        let s' = record s { ch = h.ch } in
        if isset
        then if h.ok
          then (h ∷ [], again (record s' { lim = u64 (r.done + cf.cf_ito) }))
          else (h ∷ [], returned false s')
        else ([], again s)
  ]

  abbrev pub prepend : Option Timespec → List Handled → Trace → Trace
  prepend t hs tr = record tr { timeouts = t ∷ tr.timeouts; events = hs ++ tr.events }

  unfoldable pub loop : List Round → State → Trace
  unfolding after_select
  loop [] s = record { timeouts = []; events = []; result = none; final = s }
  loop (r ∷ rs) s =
      let t = timeout_of r.cur s in
      let (hs, e) = after_select r s in
      if expired r.cur s
      then record { timeouts = []; events = []; result = some true; final = s }
      else elim e [
        | again s' ↦ prepend t hs (loop rs s')
        | returned b s' ↦ record { timeouts = t ∷ []; events = hs; result = some b; final = s' }
      ]

  -- `start` is the clock before the loop. `named` is false where gethostname(2) fails for another
  -- reason than a name that is too long.
  unfoldable pub respond_loop : Bool → ℕ → List Round → Channel → List Plugin → Flags → Trace
  unfolding loop
  respond_loop named start rs ch pis flags =
      let s : State = record { ch = ch; pis = pis; flags = flags; lim = u64 (start + cf.cf_ito) } in
      let run = loop rs s in
      if named then run else record { timeouts = []; events = []; result = some false; final = s }
