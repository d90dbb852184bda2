-- ===== src/Ures/Loop/Laws.antt =====
-- How the responder's loop ends.
use nemo_core.Prelude.{
  ℕ, ◌+◌, ◌≡◌, refl, Bool, true, false, ◌⊎◌, inl, inr, not, ◌&&◌, ◌||◌, none, some, List, [], ◌∷◌,
  All, if◌then◌else◌, ap, ◌∙◌, arith,
}
use nemo_core.Convert.{ByteOrder}
use nemo_core.Packet.{Labels}
use nemo_core.Plugin.{Plugin, Status, wait_plugins}
use nemo_core.Signal.{Flags}
use nemo_core.Ures.Config.{Config}
use nemo_core.Ures.Event.{World, handle_event}
use nemo_core.Ures.Event.Laws.{handle_event-fails_iff}
use nemo_core.Word.{u64}
use nemo_core.Ures.Loop.{
  handle_interrupt, ready, Round, State, Ended, again, returned, Trace, timeout_of, expired,
  after_select, loop, prepend,
}

-- The responder goes on after an interrupt exactly when SIGUSR1 was received and neither SIGINT nor
-- SIGTERM was. So SIGHUP or SIGCHLD alone ends it. The plugins are waited for exactly when SIGCHLD
-- was received and neither SIGINT nor SIGTERM was.
pub handle_interrupt_lem :
    (waitpid : Plugin → Status) (f : Flags) (pis : List Plugin)
    → ((handle_interrupt waitpid f pis).go_on ≡ (f.susr1 && not (f.sint || f.sterm)))
      × ((handle_interrupt waitpid f pis).pis
          ≡ (if f.schld && not (f.sint || f.sterm) then wait_plugins waitpid pis else pis))
unfolding handle_interrupt
handle_interrupt_lem waitpid f pis = ground arith

module _ (bo : ByteOrder) (k : Labels) (hn : List ℕ) (cf : Config) where
  abbrev pub run : List Round → State → Trace
  run = loop bo k hn cf

  -- One round that does not end the loop.
  pub step_again :
      (r : Round) (rs : List Round) (s s' : State)
      → expired bo k hn cf r.cur s ≡ false
      → (after_select bo k hn cf r s).1 ≡ again s'
      → run (r ∷ rs) s
        ≡ prepend bo k hn cf
            (timeout_of bo k hn cf r.cur s)
            (after_select bo k hn cf r s).0
            (run rs s')
  unfolding loop
  step_again r rs s s' fresh e = rw fresh (go (after_select bo k hn cf r s).1 e)
    where
      go :
          (x : Ended)
          → x ≡ again s'
          → (elim x [
            | again s2 ↦
                prepend bo k hn cf
                  (timeout_of bo k hn cf r.cur s)
                  (after_select bo k hn cf r s).0
                  (loop bo k hn cf rs s2)
            | returned b s2 ↦ record {
              timeouts = timeout_of bo k hn cf r.cur s ∷ [];
              events = (after_select bo k hn cf r s).0;
              result = some b;
              final = s2;
            }
          ])
            ≡ prepend bo k hn cf
                (timeout_of bo k hn cf r.cur s)
                (after_select bo k hn cf r s).0
                (loop bo k hn cf rs s')
      go x q = rw q refl

  -- A round either goes on or ends the loop.
  pub Ended-cases :
      (r : Round) (s : State)
      → ((s' : State) × ((after_select bo k hn cf r s).1 ≡ again s'))
        ⊎ ((b : Bool) × (s' : State) × ((after_select bo k hn cf r s).1 ≡ returned b s'))
  Ended-cases r s = go (after_select bo k hn cf r s).1 refl
    where
      go :
          (x : Ended)
          → (after_select bo k hn cf r s).1 ≡ x
          → ((s' : State) × ((after_select bo k hn cf r s).1 ≡ again s'))
            ⊎ ((b : Bool) × (s' : State) × ((after_select bo k hn cf r s).1 ≡ returned b s'))
      go (again s') e = inl (s', e)
      go (returned b s') e = inr (b, s', e)

  pub step_expired :
      (r : Round) (rs : List Round) (s : State)
      → expired bo k hn cf r.cur s ≡ true
      → run (r ∷ rs) s ≡ record { timeouts = []; events = []; result = some true; final = s }
  unfolding loop
  step_expired r rs s old = rw old refl

  pub step_returned :
      (r : Round) (rs : List Round) (s : State) (b : Bool) (s' : State)
      → expired bo k hn cf r.cur s ≡ false
      → (after_select bo k hn cf r s).1 ≡ returned b s'
      → run (r ∷ rs) s ≡ record {
        timeouts = timeout_of bo k hn cf r.cur s ∷ [];
        events = (after_select bo k hn cf r s).0;
        result = some b;
        final = s';
      }
  unfolding loop
  step_returned r rs s b s' fresh e = ground arith

  -- Datagrams arrive, or nothing is ready.
  abbrev pub IsReady : Round → Type 0
  IsReady r = (isset : Bool) × (w : World) × (r.select ≡ ready isset w)

  pub ready_again :
      (r : Round) (s : State)
      → cf.cf_err ≡ false
      → IsReady r
      → (s' : State) × ((after_select bo k hn cf r s).1 ≡ again s')
  unfolding after_select
  ready_again r s err (true, w, e) =
      let fine : (handle_event bo k hn s.pis cf w s.ch).ok ≡ true =
        ground (arith, (handle_event-fails_iff bo k hn s.pis cf w s.ch).0) in
      (
        record s { ch = (handle_event bo k hn s.pis cf w s.ch).ch; lim = u64 (r.done + cf.cf_ito) },
        rw (e, after_select, fine) refl,
      )
  ready_again r s err (false, w, e) = (s, rw (e, after_select) refl)

  -- With no inactivity timeout and without exit on error, rounds in which datagrams arrive or
  -- nothing is ready never end the loop, whatever the datagrams are and whatever sending does.
  pub loop-goes_on :
      (rs : List Round) (s : State)
      → cf.cf_ito ≡ 0
      → cf.cf_err ≡ false
      → All IsReady rs
      → (run rs s).result ≡ none
  loop-goes_on [] s ito err h = unfold loop in refl
  loop-goes_on (r ∷ rs) s ito err (first, h) =
      let (s', e) = ready_again r s err first in
      let fresh : expired bo k hn cf r.cur s ≡ false = rw ito refl in
      ap (λ (t : Trace). t.result) (step_again r rs s s' fresh e) ∙ loop-goes_on rs s' ito err h
