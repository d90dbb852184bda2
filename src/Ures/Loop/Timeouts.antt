-- ===== src/Ures/Loop/Timeouts.antt =====
-- The timeouts that the responder's loop gives to pselect(2), and the ways out of the loop.
use nemo_core.Prelude.{
  ℕ, ◌+◌, ◌-◌, ◌^◌, ◌≤◌, ◌<◌, ◌≡◌, ◌≢◌, ◌⊎◌, inl, inr, refl, true, false, not, ◌&&◌, ◌||◌, Option,
  none, some, List, [], ◌∷◌, All, arith, Bool-cases,
}
use nemo_core.Word.{u64}
use nemo_core.Convert.{ByteOrder, Timespec, fnanos}
use nemo_core.Convert.Integers.{in_nanos, fnanos_lem}
use nemo_core.Packet.{Labels}
use nemo_core.Plugin.{Plugin, Status}
use nemo_core.Signal.{Signal, deliver}
use nemo_core.Ures.Config.{Config}
use nemo_core.Ures.Loop.{
  Select, interrupted, failed, timeout, ready, Round, State, again, timeout_of, expired,
  after_select, loop,
}
use nemo_core.Ures.Loop.Laws.{
  run, step_again, step_expired, step_returned, Ended-cases, handle_interrupt_lem,
}

-- The clock does not go back from round to round, and stays so far below 2^64 that the next limit
-- does not wrap.
abbrev pub IsMonotone : ℕ → ℕ → List Round → Type 0
IsMonotone ito last [] = Unit
IsMonotone ito last (r ∷ rs) =
    ((last ≤ r.cur) × (r.cur ≤ r.done) × (r.done + ito < 2 ^ 64)) × IsMonotone ito r.done rs

IsMonotone-weaken :
    (ito last last' : ℕ) (rs : List Round)
    → last' ≤ last
    → IsMonotone ito last rs
    → IsMonotone ito last' rs
IsMonotone-weaken ito last last' [] le h = tt
IsMonotone-weaken ito last last' (r ∷ rs) le ((a, b, c), h) = ((omega arith, b, c), h)

-- Whole seconds and less than a second of nanoseconds, which come to at least one nanosecond and to
-- at most `ito`.
abbrev pub IsWithin : ℕ → Option Timespec → Type 0
IsWithin ito none = ⊥
IsWithin ito (some t) = (t.tv_nsec < 1000000000) × (1 ≤ in_nanos t) × (in_nanos t ≤ ito)

module _ (bo : ByteOrder) (k : Labels) (hn : List ℕ) (cf : Config) where
  next_lim :
      (r : Round) (s s' : State)
      → (after_select bo k hn cf r s).1 ≡ again s'
      → (s'.lim ≡ s.lim) ⊎ (s'.lim ≡ u64 (r.done + cf.cf_ito))
  unfolding after_select
  next_lim r s s' h = go r.select refl
    where
      go : (x : Select) → r.select ≡ x → (s'.lim ≡ s.lim) ⊎ (s'.lim ≡ u64 (r.done + cf.cf_ito))
      go (interrupted ss waitpid) e = ground arith
      go failed e = ground arith
      go timeout e = ground arith
      go (ready true w) e = ground arith
      go (ready false w) e = ground arith

  this_timeout :
      (r : Round) (s : State) (last : ℕ)
      → cf.cf_ito ≢ 0
      → s.lim ≤ last + cf.cf_ito
      → last ≤ r.cur
      → expired bo k hn cf r.cur s ≡ false
      → IsWithin cf.cf_ito (timeout_of bo k hn cf r.cur s)
  unfolding timeout_of
  this_timeout r s last ito lim a fresh =
      let (nsec, whole) = fnanos_lem (s.lim - r.cur) in
      let left : timeout_of bo k hn cf r.cur s ≡ some (fnanos (s.lim - r.cur)) = ground arith in
      rw left (nsec, ground arith, ground arith)

  -- With an inactivity timeout, a limit at most one timeout after the last reading of the clock, and
  -- a clock that does not go back and stays far enough below 2^64, every wait of the loop is given
  -- a time of whole seconds and less than a second of nanoseconds that comes to more than nothing, and
  -- to at most the whole timeout.
  pub loop_timeouts :
      (rs : List Round) (s : State) (last : ℕ)
      → cf.cf_ito ≢ 0
      → s.lim ≤ last + cf.cf_ito
      → IsMonotone cf.cf_ito last rs
      → All (IsWithin cf.cf_ito) (run bo k hn cf rs s).timeouts
  loop_timeouts [] s last ito lim clock = unfold loop in tt
  loop_timeouts (r ∷ rs) s last ito lim ((a, b, c), clock) =
      elim (Bool-cases (expired bo k hn cf r.cur s)) [
        | inl old ↦ rw (step_expired bo k hn cf r rs s old) tt
        | inr fresh ↦
            let first = this_timeout r s last ito lim a fresh in
            elim (Ended-cases bo k hn cf r s) [
              | inl (s', e) ↦
                  let below : s'.lim ≤ r.done + cf.cf_ito = ground (arith, next_lim r s s' e) in
                  rw (step_again bo k hn cf r rs s s' fresh e)
                    (first, loop_timeouts rs s' r.done ito below clock)
              | inr (v, s', e) ↦ rw (step_returned bo k hn cf r rs s v s' fresh e) (first, tt)
            ]
      ]

  -- Before the limit, a wait that signals interrupt ends the loop with a failure unless SIGUSR1 is
  -- among the signals received so far and SIGINT and SIGTERM are not. So SIGHUP alone, or SIGCHLD
  -- alone, ends it.
  pub loop-interrupted :
      (r : Round) (rs : List Round) (s : State) (ss : List Signal) (waitpid : Plugin → Status)
      → expired bo k hn cf r.cur s ≡ false
      → r.select ≡ interrupted ss waitpid
      → ((deliver ss s.flags).susr1
          && not ((deliver ss s.flags).sint || (deliver ss s.flags).sterm))
        ≡ false
      → (run bo k hn cf (r ∷ rs) s).result ≡ some false
  unfolding loop
  loop-interrupted r rs s ss waitpid fresh e dead =
      ground (arith, handle_interrupt_lem waitpid (deliver ss s.flags) s.pis)
