-- ===== src/Ureq/Round/Numbers.antt =====
-- The sequence number of everything that a round sends, however it ends.
use nemo_core.Prelude.{
  ℕ, refl, true, false, List, [], ◌∷◌, ◌==◌, All, All_mono, In, inl, inr, length, Bool-cases,
  Option-cases,
}
use nemo_core.Convert.{ByteOrder}
use nemo_core.Packet.{Labels, Message}
use nemo_core.Ureq.Config.{Config}
use nemo_core.Ureq.Target.{Target}
use nemo_core.Ureq.Event.{State}
use nemo_core.Ureq.Round.{
  Issue, Pause, issue_request, pause, part_of, dispersed_loop, dispersed_round, grouped_round,
}
use nemo_core.Ureq.Round.Laws.{IsRequest, request}

module _ (bo : ByteOrder) (k : Labels) (hn : List ℕ) (cf : Config) where
  -- A request with this sequence number, to one of the targets.
  abbrev pub IsIssued : ℕ → List Target → Message → Type 0
  IsIssued snum tgs m = (tg : Target) × (i : Issue) × In tg tgs × IsRequest bo hn cf snum tg i m

  IsIssued_mono :
      (snum : ℕ) (t : Target) (tgs : List Target) (m : Message)
      → IsIssued snum tgs m
      → IsIssued snum (t ∷ tgs) m
  IsIssued_mono snum t tgs m (tg, i, here, r) = (tg, i, inr here, r)

  issued :
      (snum : ℕ) (tg : Target) (tgs : List Target) (i : Issue) (s : State)
      → IsIssued snum (tg ∷ tgs) (issue_request bo k hn cf snum tg i s).message
  issued snum tg tgs i s = (tg, i, inl refl, request bo k hn cf snum tg i s)

  -- Whatever the system answers, a grouped round sends nothing but requests with its sequence
  -- number to its targets.
  pub grouped_round-IsIssued :
      (tgs : List Target) (snum : ℕ) (es : List Issue) (last : Pause) (s : State)
      → All (IsIssued snum tgs) (grouped_round bo k hn cf tgs snum es last s).sent
  unfolding grouped_round pause
  grouped_round-IsIssued [] snum es last s = tt
  grouped_round-IsIssued (tg ∷ tgs) snum [] last s = tt
  grouped_round-IsIssued (tg ∷ tgs) snum (i ∷ es) last s =
      let r = issue_request bo k hn cf snum tg i s in
      let rest =
        All_mono (IsIssued_mono snum tg tgs)
          (grouped_round bo k hn cf tgs snum es last r.state).sent
          (grouped_round-IsIssued tgs snum es last r.state) in
      elim (Bool-cases r.ok) [
        | inl e ↦ rw (grouped_round, e) (issued snum tg tgs i s, rest)
        | inr e ↦ rw (grouped_round, e) (issued snum tg tgs i s, tt)
      ]

  dispersed_loop-IsIssued :
      (part snum : ℕ) (tgs : List Target) (es : List (Issue × Pause)) (s : State)
      → All (IsIssued snum tgs) (dispersed_loop bo k hn cf part snum tgs es s).sent
  unfolding dispersed_loop pause
  dispersed_loop-IsIssued part snum [] es s = tt
  dispersed_loop-IsIssued part snum (tg ∷ tgs) [] s = tt
  dispersed_loop-IsIssued part snum (tg ∷ tgs) ((i, p) ∷ es) s =
      let r = issue_request bo k hn cf snum tg i s in
      let w = pause bo k hn cf part p r.state in
      let first = issued snum tg tgs i s in
      let rest =
        All_mono (IsIssued_mono snum tg tgs)
          (dispersed_loop bo k hn cf part snum tgs es w.final).sent
          (dispersed_loop-IsIssued part snum tgs es w.final) in
      elim (Bool-cases r.ok) [
        | inr e ↦ rw (dispersed_loop, e) (first, tt)
        | inl e ↦ elim (Option-cases w.result) [
          | inl q ↦ rw (dispersed_loop, e, q) (first, tt)
          | inr (true, q) ↦ rw (dispersed_loop, e, q) (first, rest)
          | inr (false, q) ↦ rw (dispersed_loop, e, q) (first, tt)
        ]
      ]

  -- So does a dispersed round.
  pub dispersed_round-IsIssued :
      (tgs : List Target) (snum : ℕ) (idle : Pause) (es : List (Issue × Pause)) (s : State)
      → All (IsIssued snum tgs) (dispersed_round bo k hn cf tgs snum idle es s).sent
  unfolding dispersed_round pause
  dispersed_round-IsIssued tgs snum idle es s = elim (Bool-cases (length tgs == 0)) [
    | inl e ↦ rw (dispersed_round, e) tt
    | inr e ↦
        rw (dispersed_round, e) (dispersed_loop-IsIssued (part_of cf (length tgs)) snum tgs es s)
  ]
