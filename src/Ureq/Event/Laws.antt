-- ===== src/Ureq/Event/Laws.antt =====
-- How long the requester waits.
use nemo_core.Prelude.{
  ℕ, ◌+◌, ◌-◌, ◌^◌, ◌≤◌, ◌<◌, ◌≡◌, refl, ◌⊎◌, inl, inr, true, false, some, List, [], ◌∷◌, ◌++◌, All,
  not, ◌&&◌, ◌||◌, length, ltb, arith, Bool-cases,
}
use nemo_core.Word.{u64}
use nemo_core.Convert.{ByteOrder, Timespec, fnanos}
use nemo_core.Convert.Integers.{in_nanos, fnanos_lem}
use nemo_core.Packet.{Labels}
use nemo_core.Ureq.Config.{Config}
use nemo_core.Signal.{Signal, deliver}
use nemo_core.Ureq.Event.{
  handle_interrupt, State, Select, interrupted, failed, timeout, ready, Wait, Waited, Next, again,
  stop, after_select, wait_loop, wait_for_events,
}

-- The clock does not go back from one reading to the next.
abbrev pub IsMonotone : ℕ → List Wait → Type 0
IsMonotone last [] = Unit
IsMonotone last (w ∷ ws) = (last ≤ w.cur) × IsMonotone w.cur ws

IsMonotone-weaken :
    (last last' : ℕ) (ws : List Wait) → last' ≤ last → IsMonotone last ws → IsMonotone last' ws
IsMonotone-weaken last last' [] le h = tt
IsMonotone-weaken last last' (w ∷ ws) le (a, h) = (omega arith, h)

-- Whole seconds and less than a second of nanoseconds, which come to at least one nanosecond and to
-- at most `dur`.
abbrev pub IsWithin : ℕ → Timespec → Type 0
IsWithin dur t = (t.tv_nsec < 1000000000) × (1 ≤ in_nanos t) × (in_nanos t ≤ dur)

-- Nothing arrives, and the clock moves on each time.
abbrev pub IsQuiet : ℕ → List Wait → Type 0
IsQuiet last [] = Unit
IsQuiet last (w ∷ ws) = ((w.select ≡ timeout) × (last < w.cur)) × IsQuiet w.cur ws

module _ (bo : ByteOrder) (k : Labels) (hn : List ℕ) (cf : Config) where
  abbrev pub run : ℕ → ℕ → List Wait → State → Waited
  run cur goal ws s = wait_loop bo k hn cf cur goal ws s

  -- The clock that the next round compares with the goal.
  pub next_clock :
      (cur cur' : ℕ) (w : Wait) (s s' : State)
      → (after_select bo k hn cf cur w s).1 ≡ again cur' s'
      → (cur' ≡ cur) ⊎ (cur' ≡ w.cur)
  unfolding after_select
  next_clock cur cur' w s s' h = go w.select refl
    where
      go : (x : Select) → w.select ≡ x → (cur' ≡ cur) ⊎ (cur' ≡ w.cur)
      go (interrupted ss) e = ground arith
      go failed e = ground arith
      go timeout e = ground arith
      go (ready isset a) e = ground arith

  pub Next-cases :
      (cur : ℕ) (w : Wait) (s : State)
      → ((cur' : ℕ) × (s' : State) × ((after_select bo k hn cf cur w s).1 ≡ again cur' s'))
        ⊎ ((s' : State) × ((after_select bo k hn cf cur w s).1 ≡ stop s'))
  Next-cases cur w s = go (after_select bo k hn cf cur w s).1 refl
    where
      go :
          (x : Next)
          → (after_select bo k hn cf cur w s).1 ≡ x
          → ((cur' : ℕ) × (s' : State) × ((after_select bo k hn cf cur w s).1 ≡ again cur' s'))
            ⊎ ((s' : State) × ((after_select bo k hn cf cur w s).1 ≡ stop s'))
      go (again cur' s') e = inl (cur', s', e)
      go (stop s') e = inr (s', e)

  pub step_done :
      (cur goal : ℕ) (w : Wait) (ws : List Wait) (s : State)
      → ltb cur goal ≡ false
      → run cur goal (w ∷ ws) s
        ≡ record { timeouts = []; rows = []; result = some true; final = s; cur = cur }
  unfolding wait_loop
  step_done cur goal w ws s e = rw e refl

  pub step_stop :
      (cur goal : ℕ) (w : Wait) (ws : List Wait) (s s' : State)
      → ltb cur goal ≡ true
      → (after_select bo k hn cf cur w s).1 ≡ stop s'
      → run cur goal (w ∷ ws) s ≡ record {
        timeouts = fnanos (goal - cur) ∷ [];
        rows = (after_select bo k hn cf cur w s).0;
        result = some false;
        final = s';
        cur = cur;
      }
  unfolding wait_loop
  step_stop cur goal w ws s s' e h = ground arith

  pub step_again :
      (cur goal cur' : ℕ) (w : Wait) (ws : List Wait) (s s' : State)
      → ltb cur goal ≡ true
      → (after_select bo k hn cf cur w s).1 ≡ again cur' s'
      → run cur goal (w ∷ ws) s ≡ record (run cur' goal ws s') {
        timeouts = fnanos (goal - cur) ∷ (run cur' goal ws s').timeouts;
        rows = (after_select bo k hn cf cur w s).0 ++ (run cur' goal ws s').rows;
      }
  unfolding wait_loop
  step_again cur goal cur' w ws s s' e h = ground arith

  wait_loop_timeouts :
      (dur cur goal : ℕ) (ws : List Wait) (s : State)
      → goal ≤ cur + dur
      → IsMonotone cur ws
      → All (IsWithin dur) (run cur goal ws s).timeouts
  wait_loop_timeouts dur cur goal [] s le clock = unfold wait_loop in tt
  wait_loop_timeouts dur cur goal (w ∷ ws) s le (a, clock) = elim (Bool-cases (ltb cur goal)) [
    | inr e ↦ rw (step_done cur goal w ws s e) tt
    | inl e ↦
        let first : IsWithin dur (fnanos (goal - cur)) =
          let (nsec, whole) = fnanos_lem (goal - cur) in (nsec, ground arith, omega arith) in
        elim (Next-cases cur w s) [
          | inr (s', h) ↦ rw (step_stop cur goal w ws s s' e h) (first, tt)
          | inl (cur', s', h) ↦
              let rest : IsMonotone cur' ws × (goal ≤ cur' + dur) =
                elim (next_clock cur cur' w s s' h) [
                  | inl q ↦ (IsMonotone-weaken w.cur cur' ws (omega arith) clock, omega arith)
                  | inr q ↦ (IsMonotone-weaken w.cur cur' ws (omega arith) clock, omega arith)
                ] in
              rw (step_again cur goal cur' w ws s s' e h)
                (first, wait_loop_timeouts dur cur' goal ws s' rest.1 rest.0)
        ]
  ]

  -- While the clock does not go back, every call of pselect(2) is given a time of whole seconds and
  -- less than a second of nanoseconds that comes to more than nothing, and to at most the duration of
  -- the wait. That holds when the end of the wait wraps, too.
  pub wait_for_events_timeouts :
      (start dur : ℕ) (ws : List Wait) (s : State)
      → IsMonotone start ws
      → All (IsWithin dur) (wait_for_events bo k hn cf start dur ws s).timeouts
  unfolding wait_for_events
  wait_for_events_timeouts start dur ws s clock =
      wait_loop_timeouts dur start (u64 (start + dur)) ws s (ground arith) clock

  wait_loop_enough :
      (cur goal : ℕ) (ws : List Wait) (s : State)
      → (run cur goal ws s).result ≡ some true
      → goal ≤ (run cur goal ws s).cur
  unfolding wait_loop
  wait_loop_enough cur goal [] s h = ground arith
  wait_loop_enough cur goal (w ∷ ws) s h = elim (Bool-cases (ltb cur goal)) [
    | inr e ↦ ground arith
    | inl e ↦ elim (Next-cases cur w s) [
      | inr (s', q) ↦ ground arith
      | inl (cur', s', q) ↦ ground (arith, wait_loop_enough cur' goal ws s')
    ]
  ]

  -- A wait that returns true has lasted: the last clock read is not before the end of the duration,
  -- where that end fits 64 bits.
  pub wait_for_events_enough :
      (start dur : ℕ) (ws : List Wait) (s : State)
      → start + dur < 2 ^ 64
      → (wait_for_events bo k hn cf start dur ws s).result ≡ some true
      → start + dur ≤ (wait_for_events bo k hn cf start dur ws s).cur
  unfolding wait_for_events
  wait_for_events_enough start dur ws s fits h =
      ground (arith, wait_loop_enough start (u64 (start + dur)) ws s h)

  wait_loop-ends :
      (cur goal : ℕ) (ws : List Wait) (s : State)
      → IsQuiet cur ws
      → goal ≤ cur + length ws
      → (run cur goal ws s).result ≡ some true
  unfolding wait_loop
  wait_loop-ends cur goal [] s quiet le = ground arith
  wait_loop-ends cur goal (w ∷ ws) s ((e, moved), quiet) le = elim (Bool-cases (ltb cur goal)) [
    | inr p ↦ ground arith
    | inl p ↦
        rw (step_again cur goal w.cur w ws s s p (quiet_again e))
          (wait_loop-ends w.cur goal ws s quiet (omega arith))
  ]
    where
      quiet_again : w.select ≡ timeout → (after_select bo k hn cf cur w s).1 ≡ again w.cur s
      quiet_again e = unfold after_select in rw e refl

  -- A wait in which nothing arrives and the clock moves on between its readings returns true, after
  -- at most as many calls of pselect(2) as the duration has nanoseconds.
  pub wait_for_events-ends :
      (start dur : ℕ) (ws : List Wait) (s : State)
      → IsQuiet start ws
      → dur ≤ length ws
      → (wait_for_events bo k hn cf start dur ws s).result ≡ some true
  unfolding wait_for_events
  wait_for_events-ends start dur ws s quiet le =
      wait_loop-ends start (u64 (start + dur)) ws s quiet (ground arith)

  -- Before the end of the duration, a signal ends the wait with a failure unless SIGUSR1 is among
  -- the signals received so far and SIGINT and SIGTERM are not. So SIGHUP alone ends it, and the
  -- targets are not loaded again.
  pub wait_for_events-interrupted :
      (start dur : ℕ) (w : Wait) (ws : List Wait) (s : State) (ss : List Signal)
      → ltb start (u64 (start + dur)) ≡ true
      → w.select ≡ interrupted ss
      → ((deliver ss s.flags).susr1
          && not ((deliver ss s.flags).sint || (deliver ss s.flags).sterm))
        ≡ false
      → (wait_for_events bo k hn cf start dur (w ∷ ws) s).result ≡ some false
  unfolding wait_for_events wait_loop after_select handle_interrupt
  wait_for_events-interrupted start dur w ws s ss open' e dead = ground arith
