-- ===== src/Ureq/Event/Reached.antt =====
-- When a wait of the requester comes to its end.
use nemo_core.Prelude.{
  ℕ, ◌+◌, ◌≤◌, ◌≡◌, ◌≢◌, refl, sym, ap, ◌∙◌, none, List, [], ◌∷◌, ltb, arith, Bool-cases, ◌⊎◌, inl,
  inr,
}
use mathlib.Core.Path.{subst}
use nemo_core.Word.{u64}
use nemo_core.Convert.{ByteOrder}
use nemo_core.Packet.{Labels}
use nemo_core.Ureq.Config.{Config}
use nemo_core.Ureq.Event.{
  State, Select, interrupted, failed, timeout, ready, Wait, Waited, again, after_select, wait_loop,
  wait_for_events,
}
use nemo_core.Ureq.Event.Laws.{run, Next-cases, step_done, step_stop, step_again}
use nemo_core.Ureq.Event.Listen.{clock_after}

-- At the end of the list or before, the loop reads a clock that is not before `far`.
abbrev pub IsReached : ℕ → ℕ → List Wait → Type 0
IsReached far cur [] = far ≤ cur
IsReached far cur (w ∷ ws) = (far ≤ cur) ⊎ IsReached far (clock_after cur w.select w.cur) ws

pub IsReached-mono :
    (near far cur : ℕ) (ws : List Wait) → near ≤ far → IsReached far cur ws → IsReached near cur ws
IsReached-mono near far cur [] le h = omega arith
IsReached-mono near far cur (w ∷ ws) le h = elim h [
  | inl over ↦ inl (omega arith)
  | inr later ↦ inr (IsReached-mono near far (clock_after cur w.select w.cur) ws le later)
]

module _ (bo : ByteOrder) (k : Labels) (hn : List ℕ) (cf : Config) where
  clock_lem :
      (cur cur' : ℕ) (w : Wait) (s s' : State)
      → (after_select bo k hn cf cur w s).1 ≡ again cur' s'
      → cur' ≡ clock_after cur w.select w.cur
  unfolding after_select
  clock_lem cur cur' w s s' h = go w.select refl
    where
      go : (x : Select) → w.select ≡ x → cur' ≡ clock_after cur w.select w.cur
      go (interrupted ss) e = ground arith
      go failed e = ground arith
      go timeout e = ground arith
      go (ready isset a) e = ground arith

  wait_loop-returns :
      (far cur goal : ℕ) (ws : List Wait) (s : State)
      → goal ≤ far
      → IsReached far cur ws
      → (run bo k hn cf cur goal ws s).result ≢ none
  unfolding wait_loop
  wait_loop-returns far cur goal [] s le reached h = ground arith
  wait_loop-returns far cur goal (w ∷ ws) s le reached h = elim (Bool-cases (ltb cur goal)) [
    | inr e ↦ let step = step_done bo k hn cf cur goal w ws s e in ground arith
    | inl e ↦ elim (Next-cases bo k hn cf cur w s) [
      | inr (s', q) ↦ let step = step_stop bo k hn cf cur goal w ws s s' e q in ground arith
      | inl (cur', s', q) ↦
          let clock = clock_lem cur cur' w s s' q in
          let step = step_again bo k hn cf cur goal cur' w ws s s' e q in
          elim reached [
            | inl over ↦ absurd (ground arith)
            | inr later ↦
                wait_loop-returns far cur' goal ws s' le
                  (subst (λ c. IsReached far c ws) (sym clock) later)
                  (sym (ap (λ (x : Waited). x.result) step) ∙ h)
          ]
    ]
  ]

  -- A wait returns, whatever arrives and whatever signals come, once the clock that its loop reads
  -- has reached the end of the duration.
  pub wait_for_events-returns :
      (start dur : ℕ) (ws : List Wait) (s : State)
      → IsReached (start + dur) start ws
      → (wait_for_events bo k hn cf start dur ws s).result ≢ none
  unfolding wait_for_events
  wait_for_events-returns start dur ws s reached =
      wait_loop-returns (start + dur) start (u64 (start + dur)) ws s (ground arith) reached
