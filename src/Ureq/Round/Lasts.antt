-- ===== src/Ureq/Round/Lasts.antt =====
-- How long a round of the requester lasts.
use nemo_core.Prelude.{
  ℕ, ◌+◌, ◌*◌, ◌^◌, ◌≤◌, ◌<◌, ◌≡◌, sym, ap, ◌∙◌, true, false, none, some, List, [], ◌∷◌, All,
  length, ltb, ◌==◌, arith, Bool-cases, Option-cases, inl, inr,
}
use native.Mathlib.Nat.{div-le_self}
use nemo_core.Word.{u64}
use nemo_core.Convert.{ByteOrder}
use nemo_core.Packet.{Labels}
use nemo_core.Ureq.Config.{Config}
use nemo_core.Ureq.Target.{Target}
use nemo_core.Ureq.Event.{State, Wait, wait_for_events, wait_loop}
use nemo_core.Ureq.Event.Laws.{
  run, Next-cases, step_done, step_stop, step_again, next_clock, wait_for_events_enough,
}
use nemo_core.Ureq.Round.Laws.{part_of_lem}
use nemo_core.Ureq.Round.Ends.{part_of_le}
use nemo_core.Ureq.Round.Dispersed.{dispersed_step}
use nemo_core.Ureq.Round.{
  Issue, Pause, Ran, part_of, issue_request, pause, dispersed_loop, dispersed_round, grouped_round,
}

abbrev AreBefore : ℕ → List Wait → Type 0
AreBefore upto = All (λ (w : Wait). w.cur ≤ upto)

-- The clock is read from `from` on and up to `upto`.
abbrev pub IsTimed : ℕ → ℕ → Pause → Type 0
IsTimed from upto p = (from ≤ p.start) × (p.start ≤ upto) × All (λ (w : Wait). w.cur ≤ upto) p.waits

-- One wait after the other.
abbrev pub AreTimed : ℕ → ℕ → List (Issue × Pause) → Type 0
AreTimed from upto [] = from ≤ upto
AreTimed from upto (e ∷ es) = (mid : ℕ) × IsTimed from mid e.1 × AreTimed mid upto es

pub AreTimed-le : (from upto : ℕ) (es : List (Issue × Pause)) → AreTimed from upto es → from ≤ upto
AreTimed-le from upto [] h = h
AreTimed-le from upto (e ∷ es) (mid, (a, b, c), h) = omega (arith, AreTimed-le mid upto es h)

module _ (bo : ByteOrder) (k : Labels) (hn : List ℕ) (cf : Config) where
  wait_loop_upto :
      (cur goal upto : ℕ) (ws : List Wait) (s : State)
      → cur ≤ upto
      → AreBefore upto ws
      → (run bo k hn cf cur goal ws s).cur ≤ upto
  wait_loop_upto cur goal upto [] s le h = unfold wait_loop in le
  wait_loop_upto cur goal upto (w ∷ ws) s le (first, h) = elim (Bool-cases (ltb cur goal)) [
    | inr e ↦ rw (step_done bo k hn cf cur goal w ws s e) le
    | inl e ↦ elim (Next-cases bo k hn cf cur w s) [
      | inr (s', q) ↦ rw (step_stop bo k hn cf cur goal w ws s s' e q) le
      | inl (cur', s', q) ↦
          let le' : cur' ≤ upto = elim (next_clock bo k hn cf cur cur' w s s' q) [
            | inl same ↦ omega arith
            | inr moved ↦ omega arith
          ] in
          rw (step_again bo k hn cf cur goal cur' w ws s s' e q)
            (wait_loop_upto cur' goal upto ws s' le' h)
    ]
  ]

  pub pause_lasts :
      (from upto dur : ℕ) (p : Pause) (s : State)
      → IsTimed from upto p
      → upto + dur < 2 ^ 64
      → (pause bo k hn cf dur p s).result ≡ some true
      → from + dur ≤ upto
  unfolding pause wait_for_events
  pause_lasts from upto dur p s (a, b, c) fits h =
      let lasted = wait_for_events_enough bo k hn cf p.start dur p.waits s (omega arith) h in
      let ends = wait_loop_upto p.start (u64 (p.start + dur)) upto p.waits s b c in omega arith

  pub grouped_round_lasts :
      (tg : List Target) (snum : ℕ) (es : List Issue) (last : Pause) (s : State) (from upto : ℕ)
      → IsTimed from upto last
      → upto + cf.cf_int < 2 ^ 64
      → (grouped_round bo k hn cf tg snum es last s).result ≡ some true
      → from + cf.cf_int ≤ upto
  unfolding grouped_round
  grouped_round_lasts [] snum es last s from upto timed fits h =
      pause_lasts from upto cf.cf_int last s timed fits h
  grouped_round_lasts (tg ∷ tgs) snum [] last s from upto timed fits h = absurd (ground arith)
  grouped_round_lasts (tg ∷ tgs) snum (i ∷ es) last s from upto timed fits h =
      let r = issue_request bo k hn cf snum tg i s in
      elim (Bool-cases r.ok) [
        | inl e ↦
            grouped_round_lasts tgs snum es last r.state from upto timed fits
              (rw (grouped_round, e) at h)
        | inr e ↦ absurd (ground arith)
      ]

  dispersed_loop_lasts :
      (part snum : ℕ) (tgs : List Target) (es : List (Issue × Pause)) (s : State) (from upto : ℕ)
      → AreTimed from upto es
      → upto + part < 2 ^ 64
      → (dispersed_loop bo k hn cf part snum tgs es s).result ≡ some true
      → from + length tgs * part ≤ upto
  unfolding dispersed_loop
  dispersed_loop_lasts part snum [] es s from upto timed fits h =
      omega (arith, AreTimed-le from upto es timed)
  dispersed_loop_lasts part snum (tg ∷ tgs) [] s from upto timed fits h = absurd (ground arith)
  dispersed_loop_lasts part snum (tg ∷ tgs) ((i, p) ∷ es) s from upto (mid, first, timed) fits h =
      let r = issue_request bo k hn cf snum tg i s in
      let w = pause bo k hn cf part p r.state in
      let le = AreTimed-le mid upto es timed in
      elim (Bool-cases r.ok) [
        | inr e ↦ absurd (ground arith)
        | inl e ↦ elim (Option-cases w.result) [
          | inl n ↦
              let q : (dispersed_loop bo k hn cf part snum (tg ∷ tgs) ((i, p) ∷ es) s).result
                  ≡ none =
                rw (dispersed_loop, e, n) n in
              absurd (ground arith)
          | inr (false, n) ↦
              let q : (dispersed_loop bo k hn cf part snum (tg ∷ tgs) ((i, p) ∷ es) s).result
                  ≡ some false =
                rw (dispersed_loop, e, n) n in
              absurd (ground arith)
          | inr (true, n) ↦
              let step = dispersed_step bo k hn cf part snum tg tgs i p es s e n in
              let here = pause_lasts from mid part p r.state first (omega arith) n in
              let later =
                dispersed_loop_lasts part snum tgs es w.final mid upto timed fits
                  (sym (ap (λ (x : Ran). x.result) step) ∙ h) in
              grind arith
        ]
      ]

  -- A round of either kind lasts at least the interval: when the clock is read from `from` on, in
  -- order, and up to `upto`, a round that ends well fits the interval between the two.
  pub dispersed_round_lasts :
      (tg : List Target) (snum : ℕ) (idle : Pause) (es : List (Issue × Pause)) (s : State)
      (from upto : ℕ)
      → IsTimed from upto idle
      → AreTimed from upto es
      → upto + cf.cf_int + 1 < 2 ^ 64
      → (dispersed_round bo k hn cf tg snum idle es s).result ≡ some true
      → from + cf.cf_int ≤ upto
  unfolding dispersed_round
  dispersed_round_lasts [] snum idle es s from upto timed timed' fits h =
      pause_lasts from upto cf.cf_int idle s timed (omega arith) h
  dispersed_round_lasts (tg ∷ tgs) snum idle es s from upto timed timed' fits h =
      let more : (length (tg ∷ tgs) == 0) ≡ false = ground arith in
      let n : ℕ = length (tg ∷ tgs) in
      let quotient = div-le_self cf.cf_int n in
      let parts = part_of_lem cf n (omega arith) (omega arith) in
      let small : part_of cf n ≤ cf.cf_int + 1 = part_of_le bo k hn cf (length tgs) in
      let lasted =
        dispersed_loop_lasts (part_of cf n) snum (tg ∷ tgs) es s from upto timed' (omega arith)
          (rw (dispersed_round, more) at h) in
      omega arith
