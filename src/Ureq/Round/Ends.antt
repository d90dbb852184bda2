-- ===== src/Ureq/Round/Ends.antt =====
-- When a round of the requester comes to its end.
use nemo_core.Prelude.{
  ℕ, suc, ◌+◌, ◌≤◌, ◌≡◌, ◌≢◌, Bool, true, false, none, some, List, [], ◌∷◌, All, All_mono, length,
  ◌==◌, arith, Bool-cases, Option-cases, inl, inr,
}
use native.Mathlib.Nat.{div-le_self}
use nemo_core.Convert.{ByteOrder}
use nemo_core.Packet.{Labels}
use nemo_core.Ureq.Config.{Config}
use nemo_core.Ureq.Target.{Target}
use nemo_core.Ureq.Event.{State}
use nemo_core.Ureq.Event.Reached.{IsReached, IsReached-mono, wait_for_events-returns}
use nemo_core.Ureq.Round.{
  Issue, Pause, part_of, issue_request, pause, dispersed_loop, dispersed_round, grouped_round,
}

-- In the wait, the clock is read at `dur` behind the start or later.
abbrev pub IsLong : ℕ → Pause → Type 0
IsLong dur p = IsReached (p.start + dur) p.start p.waits

abbrev pub AreLong : ℕ → List (Issue × Pause) → Type 0
AreLong dur = All (λ (e : Issue × Pause). IsLong dur e.1)

IsLong-mono : (dur long : ℕ) (p : Pause) → dur ≤ long → IsLong long p → IsLong dur p
IsLong-mono dur long p le h =
    IsReached-mono (p.start + dur) (p.start + long) p.start p.waits (omega arith) h

some-none : {b : Bool} → (some b) ≢ none
some-none {b} h = ground arith

module _ (bo : ByteOrder) (k : Labels) (hn : List ℕ) (cf : Config) where
  pub pause-returns :
      (dur : ℕ) (p : Pause) (s : State) → IsLong dur p → (pause bo k hn cf dur p s).result ≢ none
  unfolding pause
  pause-returns dur p s long = wait_for_events-returns bo k hn cf p.start dur p.waits s long

  pub grouped_round-returns :
      (tg : List Target) (snum : ℕ) (es : List Issue) (last : Pause) (s : State)
      → length tg ≤ length es
      → IsLong cf.cf_int last
      → (grouped_round bo k hn cf tg snum es last s).result ≢ none
  unfolding grouped_round
  grouped_round-returns [] snum es last s le long = pause-returns cf.cf_int last s long
  grouped_round-returns (tg ∷ tgs) snum [] last s le long = absurd (omega arith)
  grouped_round-returns (tg ∷ tgs) snum (i ∷ es) last s le long =
      let r = issue_request bo k hn cf snum tg i s in
      let rest = grouped_round-returns tgs snum es last r.state (omega arith) long in
      elim (Bool-cases r.ok) [
        | inl e ↦ rw (grouped_round, e) rest
        | inr e ↦ rw (grouped_round, e) some-none
      ]

  dispersed_loop-returns :
      (part snum : ℕ) (tg : List Target) (es : List (Issue × Pause)) (s : State)
      → length tg ≤ length es
      → AreLong part es
      → (dispersed_loop bo k hn cf part snum tg es s).result ≢ none
  unfolding dispersed_loop
  dispersed_loop-returns part snum [] es s le long' = some-none
  dispersed_loop-returns part snum (tg ∷ tgs) [] s le long' = absurd (omega arith)
  dispersed_loop-returns part snum (tg ∷ tgs) ((i, p) ∷ es) s le (first, long') =
      let r = issue_request bo k hn cf snum tg i s in
      let w = pause bo k hn cf part p r.state in
      let returns = pause-returns part p r.state first in
      let rest = dispersed_loop-returns part snum tgs es w.final (omega arith) long' in
      elim (Bool-cases r.ok) [
        | inr e ↦ rw (dispersed_loop, e) some-none
        | inl e ↦ elim (Option-cases w.result) [
          | inl q ↦ absurd (returns q)
          | inr (true, q) ↦ rw (dispersed_loop, e, q) rest
          | inr (false, q) ↦ rw (dispersed_loop, e, q) returns
        ]
      ]

  pub part_of_le : (n : ℕ) → part_of cf (suc n) ≤ cf.cf_int + 1
  unfolding part_of
  part_of_le n = omega (arith, div-le_self cf.cf_int (suc n))

  -- A round of either kind ends.
  pub dispersed_round-returns :
      (tg : List Target) (snum : ℕ) (idle : Pause) (es : List (Issue × Pause)) (s : State)
      → length tg ≤ length es
      → IsLong cf.cf_int idle
      → AreLong (cf.cf_int + 1) es
      → (dispersed_round bo k hn cf tg snum idle es s).result ≢ none
  unfolding dispersed_round
  dispersed_round-returns [] snum idle es s le long long' = pause-returns cf.cf_int idle s long
  dispersed_round-returns (tg ∷ tgs) snum idle es s le long long' =
      let more : (length (tg ∷ tgs) == 0) ≡ false = ground arith in
      let part = part_of cf (length (tg ∷ tgs)) in
      let small : part ≤ cf.cf_int + 1 = part_of_le (length tgs) in
      let shorter =
        All_mono (λ (e : Issue × Pause). IsLong-mono part (cf.cf_int + 1) e.1 small) es long' in
      rw (dispersed_round, more) (dispersed_loop-returns part snum (tg ∷ tgs) es s le shorter)
