-- ===== src/Ureq/Loop/Ends.antt =====
-- When the requester's loop comes to its end.
use nemo_core.Prelude.{
  ℕ, zero, suc, ◌+◌, ◌≤◌, ◌≡◌, ◌≢◌, ◌⊎◌, refl, sym, Bool, true, false, none, List, [], ◌∷◌, All,
  length, length-take, take, arith, Bool-cases, Option-cases, inl, inr,
}
use mathlib.Core.Path.{subst}
use nemo_core.Word.{u64}
use nemo_core.Convert.{ByteOrder}
use nemo_core.Packet.{Labels}
use nemo_core.Ureq.Config.{Config}
use nemo_core.Ureq.Target.{Target, Sorting, load_targets}
use nemo_core.Ureq.Target.Cases.{Loaded-cases, Settles}
use nemo_core.Ureq.Event.{State}
use nemo_core.Ureq.Round.{Pause, Ran, pause, dispersed_round, grouped_round}
use nemo_core.Ureq.Round.Ends.{
  IsLong, AreLong, pause-returns, grouped_round-returns, dispersed_round-returns,
}
use nemo_core.Ureq.Loop.{
  Reload, Turn, Outcome, finished, running, overrun, Plan, Looped, run_round, final_wait,
  count_loop, request_loop, and_on, clear_shup, is_due,
}

-- The environment of a turn over at most `size` targets: what the system answers to each request,
-- and waits in which the clock is read behind their ends.
abbrev pub IsAmple : Config → ℕ → Turn → Type 0
IsAmple cf size t =
    IsLong cf.cf_int t.last
    × (((cf.cf_grp ≡ true) × (size ≤ length t.grouped))
        ⊎ ((cf.cf_grp ≡ false) × (size ≤ length t.dispersed) × AreLong (cf.cf_int + 1) t.dispersed))

-- The loop ends, with an access outside the arrays only if `Faulty`.
abbrev pub Ends : Type 0 → Outcome → Type 0
Ends Faulty (finished b) = Unit
Ends Faulty running = ⊥
Ends Faulty overrun = Faulty

module _ (bo : ByteOrder) (k : Labels) (sorting : Sorting) (hn : List ℕ) (cf : Config)
    (Faulty : Type 0) (IsFit : Reload → Type 0) (size : ℕ)
    (settles : (r : Reload) (tg : List Target)
      → IsFit r
      → length tg ≡ size
      → Settles Faulty size (load_targets r.resolver sorting cf r.garbage1 r.garbage2 tg)) where
  run_round-returns :
      (i : ℕ) (t : Turn) (p : Plan) (s : State)
      → IsAmple cf size t
      → length p.tg ≡ size
      → (run_round bo k sorting hn cf i t p s).result ≢ none
  unfolding run_round
  run_round-returns i t p s (long, kind) same =
      let tgs = take p.ntg p.tg in
      let few : length tgs ≤ size = omega (arith, length-take p.ntg p.tg) in
      let goes = run_round bo k sorting hn cf i t p s in
      elim kind [
        | inl (e, enough) ↦
            let whole : goes ≡ grouped_round bo k hn cf tgs i t.grouped t.last s = rw e refl in
            subst (λ (x : Ran). x.result ≢ none) (sym whole)
              (grouped_round-returns bo k hn cf tgs i t.grouped t.last s (omega arith) long)
        | inr (e, enough, long') ↦
            let whole : goes ≡ dispersed_round bo k hn cf tgs i t.last t.dispersed s = rw e refl in
            subst (λ (x : Ran). x.result ≢ none) (sym whole)
              (dispersed_round-returns bo k hn cf tgs i t.last t.dispersed s (omega arith) long
                long')
      ]

  final_wait-Ends :
      (p : Pause) (s : State)
      → IsLong cf.cf_wait p
      → Ends Faulty (final_wait bo k sorting hn cf p s).outcome
  unfolding final_wait
  final_wait-Ends p s long =
      let returns = pause-returns bo k hn cf cf.cf_wait p s long in
      elim (Option-cases (pause bo k hn cf cf.cf_wait p s).result) [
        | inl e ↦ absurd (returns e)
        | inr (b, e) ↦ rw (final_wait, e) tt
      ]

  and_on-Ends :
      (r : Ran) (go_on : State → Looped)
      → r.result ≢ none
      → ((s : State) → Ends Faulty (go_on s).outcome)
      → Ends Faulty (and_on bo k sorting hn cf r go_on).outcome
  and_on-Ends r go_on returns rest = elim (Option-cases r.result) [
    | inl e ↦ absurd (returns e)
    | inr (true, e) ↦ rw e (rest r.final)
    | inr (false, e) ↦ rw e tt
  ]

  count_loop-Ends :
      (left i : ℕ) (ts : List Turn) (last : Pause) (p : Plan) (s : State)
      → length p.tg ≡ size
      → left ≤ length ts
      → All (λ (t : Turn). IsFit t.reload × IsAmple cf size t) ts
      → IsLong cf.cf_wait last
      → Ends Faulty (count_loop bo k sorting hn cf left i ts last p s).outcome
  unfolding count_loop
  count_loop-Ends zero i ts last p s same le ample long = final_wait-Ends last s long
  count_loop-Ends (suc left) i [] last p s same le ample long = absurd (omega arith)
  count_loop-Ends (suc left) i (t ∷ ts) last p s same le ((fit, first), ample) long =
      let next = λ (q : Plan) (s' : State) (same' : length q.tg ≡ size).
        and_on-Ends (run_round bo k sorting hn cf i t q s')
          (λ s''. count_loop bo k sorting hn cf left (i + 1) ts last q s'')
          (run_round-returns i t q s' first same')
          (λ s''. count_loop-Ends left (i + 1) ts last q s'' same' (omega arith) ample long) in
      let loads =
        load_targets t.reload.resolver sorting cf t.reload.garbage1 t.reload.garbage2 p.tg in
      let settled = settles t.reload p.tg fit same in
      elim (Bool-cases (is_due bo k sorting hn cf t.now p s)) [
        | inr fresh ↦ rw (count_loop, fresh) (next p s same)
        | inl due ↦ elim (Loaded-cases loads) [
          | inl ((tg, ntg), e) ↦
              rw (count_loop, due, e)
                (next (record { tg = tg; ntg = ntg; rld = u64 (t.now + cf.cf_rld) })
                  (clear_shup bo k sorting hn cf s) (subst (Settles Faulty size) e settled))
          | inr (inl e) ↦ rw (count_loop, due, e) tt
          | inr (inr e) ↦ rw (count_loop, due, e) (subst (Settles Faulty size) e settled)
        ]
      ]

  pub request_loop-Ends :
      (named : Bool) (r : Reload) (start : ℕ) (ts : List Turn) (last : Pause) (tg : List Target)
      (s : State)
      → length tg ≡ size
      → cf.cf_cnt ≤ length ts
      → IsFit r
      → All (λ (t : Turn). IsFit t.reload × IsAmple cf size t) ts
      → IsLong cf.cf_wait last
      → Ends Faulty (request_loop bo k sorting hn cf named r start ts last tg s).outcome
  unfolding request_loop
  request_loop-Ends false r start ts last tg s same le fit ample long = tt
  request_loop-Ends true r start ts last tg s same le fit ample long =
      let settled = settles r tg fit same in
      elim (Loaded-cases (load_targets r.resolver sorting cf r.garbage1 r.garbage2 tg)) [
        | inl ((tg', ntg), e) ↦
            rw (request_loop, e)
              (count_loop-Ends cf.cf_cnt 0 ts last
                (record { tg = tg'; ntg = ntg; rld = u64 (start + cf.cf_rld) }) s
                (subst (Settles Faulty size) e settled) le ample long)
        | inr (inl e) ↦ rw (request_loop, e) tt
        | inr (inr e) ↦ rw (request_loop, e) (subst (Settles Faulty size) e settled)
      ]
