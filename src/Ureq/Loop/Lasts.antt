-- ===== src/Ureq/Loop/Lasts.antt =====
-- How long a run of the requester lasts.
use nemo_core.Prelude.{
  ℕ, zero, suc, ◌+◌, ◌*◌, ◌^◌, ◌≤◌, ◌<◌, ◌≡◌, refl, sym, ap, ◌∙◌, Bool, true, false, Option, none,
  some, List, [], ◌∷◌, take, arith, Bool-cases, Option-cases, inl, inr,
}
use nemo_core.Word.{u64}
use nemo_core.Convert.{ByteOrder}
use nemo_core.Packet.{Labels}
use nemo_core.Ureq.Config.{Config}
use nemo_core.Ureq.Target.{Target, Sorting, load_targets}
use nemo_core.Ureq.Target.Cases.{Loaded-cases}
use nemo_core.Ureq.Event.{State}
use nemo_core.Ureq.Round.{Pause, Ran, pause, dispersed_round, grouped_round}
use nemo_core.Ureq.Round.Lasts.{
  IsTimed, AreTimed, pause_lasts, grouped_round_lasts, dispersed_round_lasts,
}
use nemo_core.Ureq.Loop.{
  Reload, Turn, finished, Plan, Looped, run_round, final_wait, count_loop, request_loop, and_on,
  clear_shup, is_due,
}

-- In a turn the clock is read from `from` on and up to `upto`, in a round of either kind.
abbrev pub IsTurnTimed : ℕ → ℕ → Turn → Type 0
IsTurnTimed from upto t = IsTimed from upto t.last × AreTimed from upto t.dispersed

-- The turns come one after the other, and the last wait behind them.
abbrev pub AreTurnsTimed : ℕ → ℕ → List Turn → Pause → Type 0
AreTurnsTimed from upto [] last = IsTimed from upto last
AreTurnsTimed from upto (t ∷ ts) last =
    (mid : ℕ) × IsTurnTimed from mid t × AreTurnsTimed mid upto ts last

last-IsTimed :
    (from upto : ℕ) (ts : List Turn) (last : Pause)
    → AreTurnsTimed from upto ts last
    → IsTimed from upto last
last-IsTimed from upto [] last h = h
last-IsTimed from upto (t ∷ ts) last (mid, ((a, b, c), _), h) =
    let (a', b', c') = last-IsTimed mid upto ts last h in (omega arith, b', c')

module _ (bo : ByteOrder) (k : Labels) (sorting : Sorting) (hn : List ℕ) (cf : Config) where
  run_round_lasts :
      (i : ℕ) (t : Turn) (p : Plan) (s : State) (from upto : ℕ)
      → IsTurnTimed from upto t
      → upto + cf.cf_int + 1 < 2 ^ 64
      → (run_round bo k sorting hn cf i t p s).result ≡ some true
      → from + cf.cf_int ≤ upto
  unfolding run_round
  run_round_lasts i t p s from upto (timed, timed') fits h =
      let tgs = take p.ntg p.tg in
      let goes = run_round bo k sorting hn cf i t p s in
      elim (Bool-cases cf.cf_grp) [
        | inl e ↦
            let whole : goes ≡ grouped_round bo k hn cf tgs i t.grouped t.last s = rw e refl in
            grouped_round_lasts bo k hn cf tgs i t.grouped t.last s from upto timed (omega arith)
              (sym (ap (λ (x : Ran). x.result) whole) ∙ h)
        | inr e ↦
            let whole : goes ≡ dispersed_round bo k hn cf tgs i t.last t.dispersed s = rw e refl in
            dispersed_round_lasts bo k hn cf tgs i t.last t.dispersed s from upto timed timed' fits
              (sym (ap (λ (x : Ran). x.result) whole) ∙ h)
      ]

  -- What follows a round comes to the end only if the round did.
  and_on_result :
      (r : Ran) (go_on : State → Looped)
      → (and_on bo k sorting hn cf r go_on).outcome ≡ finished true
      → (r.result ≡ some true) × ((go_on r.final).outcome ≡ finished true)
  and_on_result r go_on h = go r.result refl
    where
      go :
          (o : Option Bool)
          → r.result ≡ o
          → (r.result ≡ some true) × ((go_on r.final).outcome ≡ finished true)
      go none e = ground arith
      go (some true) e = ground arith
      go (some false) e = ground arith

  final_wait_lasts :
      (last : Pause) (s : State) (from upto : ℕ)
      → IsTimed from upto last
      → upto + cf.cf_wait < 2 ^ 64
      → (final_wait bo k sorting hn cf last s).outcome ≡ finished true
      → from + cf.cf_wait ≤ upto
  unfolding final_wait
  final_wait_lasts last s from upto timed fits h =
      elim (Option-cases (pause bo k hn cf cf.cf_wait last s).result) [
        | inl e ↦ absurd (ground arith)
        | inr (false, e) ↦ absurd (ground arith)
        | inr (true, e) ↦ pause_lasts bo k hn cf from upto cf.cf_wait last s timed fits e
      ]

  -- What one turn adds to the time of the rounds behind it.
  turn_lasts :
      (left i : ℕ) (t : Turn) (ts : List Turn) (last : Pause) (p : Plan) (s : State)
      (from mid upto : ℕ)
      → IsTurnTimed from mid t
      → mid + cf.cf_int + 1 < 2 ^ 64
      → ((q : Plan) (s' : State)
          → (count_loop bo k sorting hn cf left (i + 1) ts last q s').outcome ≡ finished true
          → mid + left * cf.cf_int + cf.cf_wait ≤ upto)
      → (count_loop bo k sorting hn cf (suc left) i (t ∷ ts) last p s).outcome ≡ finished true
      → from + suc left * cf.cf_int + cf.cf_wait ≤ upto
  unfolding count_loop
  turn_lasts left i t ts last p s from mid upto first fits ih h =
      let loads =
        load_targets t.reload.resolver sorting cf t.reload.garbage1 t.reload.garbage2 p.tg in
      elim (Bool-cases (is_due bo k sorting hn cf t.now p s)) [
        | inr fresh ↦ next p s (rw (count_loop, fresh) at h)
        | inl due ↦ elim (Loaded-cases loads) [
          | inl ((tg, ntg), e) ↦
              next (record { tg = tg; ntg = ntg; rld = u64 (t.now + cf.cf_rld) })
                (clear_shup bo k sorting hn cf s) (rw (count_loop, due, e) at h)
          | inr (inl e) ↦ absurd (ground arith)
          | inr (inr e) ↦ absurd (ground arith)
        ]
      ]
    where
      next :
          (q : Plan) (s' : State)
          → (and_on bo k sorting hn cf
              (run_round bo k sorting hn cf i t q s')
              (λ s''. count_loop bo k sorting hn cf left (i + 1) ts last q s'')).outcome
            ≡ finished true
          → from + suc left * cf.cf_int + cf.cf_wait ≤ upto
      next q s' e =
          let (good, rest) =
            and_on_result (run_round bo k sorting hn cf i t q s')
              (λ s''. count_loop bo k sorting hn cf left (i + 1) ts last q s'') e in
          let here = run_round_lasts i t q s' from mid first fits good in
          let later = ih q (run_round bo k sorting hn cf i t q s').final rest in grind arith

  count_loop_lasts :
      (left i : ℕ) (ts : List Turn) (last : Pause) (p : Plan) (s : State) (from upto : ℕ)
      → AreTurnsTimed from upto ts last
      → upto + cf.cf_int + 1 < 2 ^ 64
      → upto + cf.cf_wait < 2 ^ 64
      → (count_loop bo k sorting hn cf left i ts last p s).outcome ≡ finished true
      → from + left * cf.cf_int + cf.cf_wait ≤ upto
  unfolding count_loop
  count_loop_lasts zero i ts last p s from upto timed fits fits' h =
      let least =
        final_wait_lasts last s from upto (last-IsTimed from upto ts last timed) fits' h in
      omega arith
  count_loop_lasts (suc left) i [] last p s from upto timed fits fits' h = absurd (ground arith)
  count_loop_lasts (suc left) i (t ∷ ts) last p s from upto (mid, first, timed) fits fits' h =
      let (a, b, c) = last-IsTimed mid upto ts last timed in
      turn_lasts left i t ts last p s from mid upto first (omega arith)
        (λ q s' e. count_loop_lasts left (i + 1) ts last q s' mid upto timed fits fits' e) h

  -- A run of the requester that ends well lasts at least as many intervals as there are rounds, and
  -- the last wait: that much time lies between `from` and `upto` when all readings of the clock in
  -- the waits lie between these two, wait after wait, and the ends of the waits fit 64 bits.
  pub request_loop_lasts :
      (named : Bool) (r : Reload) (start : ℕ) (ts : List Turn) (last : Pause) (tg : List Target)
      (s : State) (from upto : ℕ)
      → AreTurnsTimed from upto ts last
      → upto + cf.cf_int + 1 < 2 ^ 64
      → upto + cf.cf_wait < 2 ^ 64
      → (request_loop bo k sorting hn cf named r start ts last tg s).outcome ≡ finished true
      → from + cf.cf_cnt * cf.cf_int + cf.cf_wait ≤ upto
  unfolding request_loop
  request_loop_lasts false r start ts last tg s from upto timed fits fits' h = absurd (ground arith)
  request_loop_lasts true r start ts last tg s from upto timed fits fits' h =
      elim (Loaded-cases (load_targets r.resolver sorting cf r.garbage1 r.garbage2 tg)) [
        | inl ((tg', ntg), e) ↦
            count_loop_lasts cf.cf_cnt 0 ts last
              (record { tg = tg'; ntg = ntg; rld = u64 (start + cf.cf_rld) }) s from upto timed fits
              fits' (rw (request_loop, e) at h)
        | inr (inl e) ↦ absurd (ground arith)
        | inr (inr e) ↦ absurd (ground arith)
      ]
