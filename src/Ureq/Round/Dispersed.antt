-- ===== src/Ureq/Round/Dispersed.antt =====
-- What a dispersed round that ends well has done.
use nemo_core.Prelude.{
  ℕ, ◌≡◌, refl, ap, ap₂, sym, Bool, true, false, Option, none, some, List, [], ◌∷◌, map, ◌==◌,
  length, length-append, if◌then◌else◌, arith, Bool-cases, Option-cases, inl, inr, ◌⊎◌, ◌≤◌,
}
use mathlib.Core.Path.{subst}
use nemo_core.Convert.{ByteOrder}
use nemo_core.Packet.{Labels}
use nemo_core.Ureq.Config.{Config}
use nemo_core.Ureq.Target.{Target}
use nemo_core.Ureq.Event.{State}
use nemo_core.Ureq.Round.{
  Act, sending, waiting, Issue, Issued, Pause, Ran, issue_request, pause, part_of, with_sent,
  dispersed_loop, dispersed_round,
}
use nemo_core.Ureq.Round.Laws.{AreRequests, request}

abbrev pub issues : List (Issue × Pause) → List Issue
issues es = map (λ (e : Issue × Pause). e.0) es

-- A message and a wait for each target.
abbrev pub alternating : List Target → List Act
alternating [] = []
alternating (tg ∷ tgs) = sending ∷ waiting ∷ alternating tgs

module _ (bo : ByteOrder) (k : Labels) (hn : List ℕ) (cf : Config) where
  one_wait : (part : ℕ) (p : Pause) (s : State) → length (pause bo k hn cf part p s).waits ≡ 1
  unfolding pause
  one_wait part p s = refl

  -- If it ends well: one request for each target, in order, and as many waits.
  abbrev IsSpread : ℕ → List Target → List (Issue × Pause) → Ran → Type 0
  IsSpread snum tgs es r =
      r.result ≡ some true
      → AreRequests bo hn cf snum tgs (issues es) r.sent
        × (length r.waits ≡ length tgs)
        × (r.order ≡ alternating tgs)

  bad-IsSpread :
      (snum : ℕ) (tgs : List Target) (es : List (Issue × Pause)) (r : Ran)
      → (r.result ≡ none) ⊎ (r.result ≡ some false)
      → IsSpread snum tgs es r
  bad-IsSpread snum tgs es r bad h = absurd (ground arith)

  -- The body of the loop, from the two results.
  abbrev body : Issued → Ran → Ran → Bool → Option Bool → Ran
  body r w rest ok result =
      if ok
      then elim result [
        | none ↦ with_sent bo k hn cf r.message [] w
        | some go_on ↦
            if go_on
            then with_sent bo k hn cf r.message w.waits rest
            else with_sent bo k hn cf r.message [] w
      ]
      else record {
        sent = r.message ∷ [];
        waits = [];
        order = sending ∷ [];
        result = some false;
        final = r.state;
      }

  -- A step that lets the loop go on.
  pub dispersed_step :
      (part snum : ℕ) (tg : Target) (tgs : List Target) (i : Issue) (p : Pause)
      (es : List (Issue × Pause)) (s : State)
      → let r = issue_request bo k hn cf snum tg i s in
        let w = pause bo k hn cf part p r.state in
        r.ok ≡ true
        → w.result ≡ some true
        → dispersed_loop bo k hn cf part snum (tg ∷ tgs) ((i, p) ∷ es) s
          ≡ with_sent bo k hn cf r.message w.waits
              (dispersed_loop bo k hn cf part snum tgs es w.final)
  unfolding dispersed_loop
  dispersed_step part snum tg tgs i p es s e n =
      let r = issue_request bo k hn cf snum tg i s in
      let w = pause bo k hn cf part p r.state in
      ap₂ (body r w (dispersed_loop bo k hn cf part snum tgs es w.final)) e n

  dispersed_loop-IsSpread :
      (part snum : ℕ) (tgs : List Target) (es : List (Issue × Pause)) (s : State)
      → IsSpread snum tgs es (dispersed_loop bo k hn cf part snum tgs es s)
  unfolding dispersed_loop
  dispersed_loop-IsSpread part snum [] es s = λ h. (tt, refl, refl)
  dispersed_loop-IsSpread part snum (tg ∷ tgs) [] s =
      bad-IsSpread snum (tg ∷ tgs) [] (dispersed_loop bo k hn cf part snum (tg ∷ tgs) [] s)
        (inl refl)
  dispersed_loop-IsSpread part snum (tg ∷ tgs) ((i, p) ∷ es) s =
      let r = issue_request bo k hn cf snum tg i s in
      let w = pause bo k hn cf part p r.state in
      let run = dispersed_loop bo k hn cf part snum (tg ∷ tgs) ((i, p) ∷ es) s in
      let rest = dispersed_loop bo k hn cf part snum tgs es w.final in
      let bad = bad-IsSpread snum (tg ∷ tgs) ((i, p) ∷ es) run in
      elim (Bool-cases r.ok) [
        | inr e ↦ let q : run.result ≡ some false = rw (dispersed_loop, e) refl in bad (inr q)
        | inl e ↦ elim (Option-cases w.result) [
          | inl n ↦ let q : run.result ≡ none = rw (dispersed_loop, e, n) n in bad (inl q)
          | inr (false, n) ↦
              let q : run.result ≡ some false = rw (dispersed_loop, e, n) n in bad (inr q)
          | inr (true, n) ↦
              let q : run ≡ with_sent bo k hn cf r.message w.waits rest =
                dispersed_step part snum tg tgs i p es s e n in
              subst (IsSpread snum (tg ∷ tgs) ((i, p) ∷ es)) (sym q) (λ h.
                let (sent, waits, order) = dispersed_loop-IsSpread part snum tgs es w.final h in
                (
                  (request bo k hn cf snum tg i s, sent),
                  omega (arith, waits, length-append w.waits rest.waits, one_wait part p r.state),
                  unfold pause in ap (λ (o : List Act). sending ∷ waiting ∷ o) order,
                ))
        ]
      ]

  -- A dispersed round over at least one target that ends well has sent one request to each target, in
  -- the order of the targets, with the sequence number of the round, to the target's address, and has
  -- waited once behind each.
  pub dispersed_round-sent :
      (tgs : List Target) (snum : ℕ) (idle : Pause) (es : List (Issue × Pause)) (s : State)
      → 1 ≤ length tgs
      → (dispersed_round bo k hn cf tgs snum idle es s).result ≡ some true
      → AreRequests bo hn cf snum tgs
          (issues es)
          (dispersed_round bo k hn cf tgs snum idle es s).sent
        × (length (dispersed_round bo k hn cf tgs snum idle es s).waits ≡ length tgs)
        × ((dispersed_round bo k hn cf tgs snum idle es s).order ≡ alternating tgs)
  unfolding dispersed_round
  dispersed_round-sent tgs snum idle es s some_one =
      let more : (length tgs == 0) ≡ false = ground arith in
      let q : dispersed_round bo k hn cf tgs snum idle es s
          ≡ dispersed_loop bo k hn cf (part_of cf (length tgs)) snum tgs es s =
        rw (dispersed_round, more) refl in
      subst (IsSpread snum tgs es) (sym q)
        (dispersed_loop-IsSpread (part_of cf (length tgs)) snum tgs es s)
