-- ===== src/Ureq/Loop/Numbers.antt =====
-- The sequence numbers of a whole run of the requester.
use nemo_core.Prelude.{
  ℕ, zero, suc, ◌+◌, ◌≡◌, refl, sym, Bool, true, false, Option, none, some, List, [], ◌∷◌, All,
  All_mono, take, Bool-cases, inl, inr,
}
use mathlib.Core.Path.{subst}
use nemo_core.Word.{u64}
use nemo_core.Convert.{ByteOrder}
use nemo_core.Packet.{Labels, Message}
use nemo_core.Ureq.Config.{Config}
use nemo_core.Ureq.Target.{Target, Sorting, load_targets}
use nemo_core.Ureq.Target.Cases.{Loaded-cases}
use nemo_core.Ureq.Event.{State}
use nemo_core.Ureq.Round.{Pause, Issue, Ran, pause, grouped_round, dispersed_round}
use nemo_core.Ureq.Round.Laws.{IsRequest}
use nemo_core.Ureq.Round.Numbers.{IsIssued, grouped_round-IsIssued, dispersed_round-IsIssued}
use nemo_core.Ureq.Loop.{
  Reload, Turn, Plan, Looped, run_round, final_wait, count_loop, request_loop, and_on, clear_shup,
  is_due,
}

module _ (bo : ByteOrder) (k : Labels) (sorting : Sorting) (hn : List ℕ) (cf : Config) where
  -- A request with this sequence number, to any target.
  abbrev pub IsRound : ℕ → Message → Type 0
  IsRound snum m = (tg : Target) × (i : Issue) × IsRequest bo hn cf snum tg i m

  -- The rounds are numbered one after the other from `i` on.
  abbrev pub AreNumbered : ℕ → List Ran → Type 0
  AreNumbered i [] = Unit
  AreNumbered i (r ∷ rs) = All (IsRound i) r.sent × AreNumbered (i + 1) rs

  IsIssued-IsRound :
      (snum : ℕ) (tgs : List Target) (m : Message) → IsIssued bo k hn cf snum tgs m → IsRound snum m
  IsIssued-IsRound snum tgs m (tg, i, here, r) = (tg, i, r)

  run_round-IsRound :
      (i : ℕ) (t : Turn) (p : Plan) (s : State)
      → All (IsRound i) (run_round bo k sorting hn cf i t p s).sent
  unfolding run_round
  run_round-IsRound i t p s =
      let tgs = take p.ntg p.tg in
      let numbered = λ (r : Ran) (h : All (IsIssued bo k hn cf i tgs) r.sent).
        All_mono (IsIssued-IsRound i tgs) r.sent h in
      elim (Bool-cases cf.cf_grp) [
        | inl e ↦
            let r = grouped_round bo k hn cf tgs i t.grouped t.last s in
            let whole : run_round bo k sorting hn cf i t p s ≡ r = rw e refl in
            subst (λ (x : Ran). All (IsRound i) x.sent) (sym whole)
              (numbered r (grouped_round-IsIssued bo k hn cf tgs i t.grouped t.last s))
        | inr e ↦
            let r = dispersed_round bo k hn cf tgs i t.last t.dispersed s in
            let whole : run_round bo k sorting hn cf i t p s ≡ r = rw e refl in
            subst (λ (x : Ran). All (IsRound i) x.sent) (sym whole)
              (numbered r (dispersed_round-IsIssued bo k hn cf tgs i t.last t.dispersed s))
      ]

  final_wait-AreNumbered :
      (i : ℕ) (last : Pause) (s : State)
      → AreNumbered i (final_wait bo k sorting hn cf last s).rounds
  unfolding final_wait pause
  final_wait-AreNumbered i last s = (tt, tt)

  and_on-AreNumbered :
      (i : ℕ) (r : Ran) (go_on : State → Looped)
      → All (IsRound i) r.sent
      → ((s : State) → AreNumbered (i + 1) (go_on s).rounds)
      → AreNumbered i (and_on bo k sorting hn cf r go_on).rounds
  and_on-AreNumbered i r go_on first rest = go r.result refl
    where
      go :
          (o : Option Bool)
          → r.result ≡ o
          → AreNumbered i (and_on bo k sorting hn cf r go_on).rounds
      go none e = rw e (first, tt)
      go (some true) e = rw e (first, rest r.final)
      go (some false) e = rw e (first, tt)

  count_loop-AreNumbered :
      (left i : ℕ) (ts : List Turn) (last : Pause) (p : Plan) (s : State)
      → AreNumbered i (count_loop bo k sorting hn cf left i ts last p s).rounds
  unfolding count_loop
  count_loop-AreNumbered zero i ts last p s = final_wait-AreNumbered i last s
  count_loop-AreNumbered (suc left) i [] last p s = tt
  count_loop-AreNumbered (suc left) i (t ∷ ts) last p s =
      let next = λ (q : Plan) (s' : State).
        and_on-AreNumbered i (run_round bo k sorting hn cf i t q s')
          (λ s''. count_loop bo k sorting hn cf left (i + 1) ts last q s'')
          (run_round-IsRound i t q s') (λ s''. count_loop-AreNumbered left (i + 1) ts last q s'') in
      let loads =
        load_targets t.reload.resolver sorting cf t.reload.garbage1 t.reload.garbage2 p.tg in
      elim (Bool-cases (is_due bo k sorting hn cf t.now p s)) [
        | inr fresh ↦ rw (count_loop, fresh) (next p s)
        | inl due ↦ elim (Loaded-cases loads) [
          | inl ((tg, ntg), e) ↦
              rw (count_loop, due, e)
                (next (record { tg = tg; ntg = ntg; rld = u64 (t.now + cf.cf_rld) })
                  (clear_shup bo k sorting hn cf s))
          | inr (inl e) ↦ rw (count_loop, due, e) tt
          | inr (inr e) ↦ rw (count_loop, due, e) tt
        ]
      ]

  -- Whatever the network, the resolver, the clocks and the signals do, every message that the
  -- requester gives to sendmsg(2) in round `i` of a run is a request with sequence number `i`,
  -- counted from 0, and the wait behind the last round sends nothing.
  pub request_loop-AreNumbered :
      (named : Bool) (r : Reload) (start : ℕ) (ts : List Turn) (last : Pause) (tg : List Target)
      (s : State)
      → AreNumbered 0 (request_loop bo k sorting hn cf named r start ts last tg s).rounds
  unfolding request_loop
  request_loop-AreNumbered false r start ts last tg s = tt
  request_loop-AreNumbered true r start ts last tg s =
      elim (Loaded-cases (load_targets r.resolver sorting cf r.garbage1 r.garbage2 tg)) [
        | inl ((tg', ntg), e) ↦
            rw (request_loop, e)
              (count_loop-AreNumbered cf.cf_cnt 0 ts last
                (record { tg = tg'; ntg = ntg; rld = u64 (start + cf.cf_rld) }) s)
        | inr (inl e) ↦ rw (request_loop, e) tt
        | inr (inr e) ↦ rw (request_loop, e) tt
      ]
