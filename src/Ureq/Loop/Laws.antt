-- ===== src/Ureq/Loop/Laws.antt =====
-- How many rounds the requester runs.
use nemo_core.Prelude.{
  ℕ, zero, suc, ◌+◌, ◌≡◌, refl, Bool, true, false, Option, none, some, List, [], ◌∷◌, length, arith,
  Bool-cases, inl, inr,
}
use nemo_core.Word.{u64}
use nemo_core.Convert.{ByteOrder}
use nemo_core.Packet.{Labels}
use nemo_core.Ureq.Config.{Config}
use nemo_core.Ureq.Target.{Target, Sorting, Loaded, loaded, refused, fault, load_targets}
use nemo_core.Ureq.Event.{State}
use nemo_core.Ureq.Round.{Pause, Ran}
use nemo_core.Ureq.Loop.{
  Reload, Turn, finished, Plan, Looped, run_round, final_wait, count_loop, request_loop, and_on,
  clear_shup, is_due,
}

module _ (bo : ByteOrder) (k : Labels) (sorting : Sorting) (hn : List ℕ) (cf : Config) where
  -- A round that lets the loop go on counts once.
  and_on_lem :
      (r : Ran) (go_on : State → Looped) (n : ℕ)
      → ((s : State) → (go_on s).outcome ≡ finished true → length (go_on s).rounds ≡ n)
      → (and_on bo k sorting hn cf r go_on).outcome ≡ finished true
      → length (and_on bo k sorting hn cf r go_on).rounds ≡ n + 1
  and_on_lem r go_on n rest h = go r.result refl
    where
      go :
          (o : Option Bool)
          → r.result ≡ o
          → length (and_on bo k sorting hn cf r go_on).rounds ≡ n + 1
      go none e = ground arith
      go (some true) e = ground (arith, rest r.final)
      go (some false) e = ground arith

  turn_rounds :
      (left i : ℕ) (t : Turn) (ts : List Turn) (last : Pause) (p : Plan) (s : State)
      → ((q : Plan) (s' : State)
          → (count_loop bo k sorting hn cf left (i + 1) ts last q s').outcome ≡ finished true
          → length (count_loop bo k sorting hn cf left (i + 1) ts last q s').rounds ≡ left + 1)
      → (count_loop bo k sorting hn cf (suc left) i (t ∷ ts) last p s).outcome ≡ finished true
      → length (count_loop bo k sorting hn cf (suc left) i (t ∷ ts) last p s).rounds ≡ left + 1 + 1
  unfolding count_loop
  turn_rounds left i t ts last p s ih h = elim (Bool-cases (is_due bo k sorting hn cf t.now p s)) [
    | inl due ↦
        go (load_targets t.reload.resolver sorting cf t.reload.garbage1 t.reload.garbage2 p.tg) refl
          due
    | inr not_due ↦ rw not_due (next p s (rw not_due at h))
  ]
    where
      next :
          (q : Plan) (s' : State)
          → (and_on bo k sorting hn cf
              (run_round bo k sorting hn cf i t q s')
              (λ s''. count_loop bo k sorting hn cf left (i + 1) ts last q s'')).outcome
            ≡ finished true
          → length
              (and_on bo k sorting hn cf
                (run_round bo k sorting hn cf i t q s')
                (λ s''. count_loop bo k sorting hn cf left (i + 1) ts last q s'')).rounds
            ≡ left + 1 + 1
      next q s' e =
          and_on_lem (run_round bo k sorting hn cf i t q s')
            (λ s''. count_loop bo k sorting hn cf left (i + 1) ts last q s'') (left + 1)
            (λ s''. ih q s'') e

      go :
          (x : Loaded)
          → load_targets t.reload.resolver sorting cf t.reload.garbage1 t.reload.garbage2 p.tg ≡ x
          → is_due bo k sorting hn cf t.now p s ≡ true
          → length (count_loop bo k sorting hn cf (suc left) i (t ∷ ts) last p s).rounds
            ≡ left + 1 + 1
      go (loaded tg ntg) e due =
          let q : Plan = record { tg = tg; ntg = ntg; rld = u64 (t.now + cf.cf_rld) } in
          rw (due, e) (next q (clear_shup bo k sorting hn cf s) (rw (due, e) at h))
      go refused e due = ground arith
      go fault e due = ground arith

  count_loop-rounds :
      (left i : ℕ) (ts : List Turn) (last : Pause) (p : Plan) (s : State)
      → (count_loop bo k sorting hn cf left i ts last p s).outcome ≡ finished true
      → length (count_loop bo k sorting hn cf left i ts last p s).rounds ≡ left + 1
  unfolding count_loop final_wait
  count_loop-rounds zero i ts last p s h = refl
  count_loop-rounds (suc left) i [] last p s h = ground arith
  count_loop-rounds (suc left) i (t ∷ ts) last p s h =
      let done =
        turn_rounds left i t ts last p s (λ q s'. count_loop-rounds left (i + 1) ts last q s') h in
      omega arith

  -- A run of the requester that ends well has gone through as many rounds as were asked for, and the
  -- wait behind them.
  pub request_loop-rounds :
      (named : Bool) (r : Reload) (start : ℕ) (ts : List Turn) (last : Pause) (tg : List Target)
      (s : State)
      → (request_loop bo k sorting hn cf named r start ts last tg s).outcome ≡ finished true
      → length (request_loop bo k sorting hn cf named r start ts last tg s).rounds ≡ cf.cf_cnt + 1
  unfolding request_loop
  request_loop-rounds false r start ts last tg s h = ground arith
  request_loop-rounds true r start ts last tg s h =
      go (load_targets r.resolver sorting cf r.garbage1 r.garbage2 tg) refl
    where
      go :
          (x : Loaded)
          → load_targets r.resolver sorting cf r.garbage1 r.garbage2 tg ≡ x
          → length (request_loop bo k sorting hn cf true r start ts last tg s).rounds
            ≡ cf.cf_cnt + 1
      go (loaded tg' ntg) e = ground (
        arith,
        count_loop-rounds cf.cf_cnt 0 ts last
            (record { tg = tg'; ntg = ntg; rld = u64 (start + cf.cf_rld) }) s,
      )
      go refused e = ground arith
      go fault e = ground arith
