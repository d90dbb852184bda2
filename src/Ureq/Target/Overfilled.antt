-- ===== src/Ureq/Target/Overfilled.antt =====
-- When `load_targets` leaves the array that `main` allocates.
use nemo_core.Prelude.{
  ℕ, ◌+◌, ◌^◌, ◌≤◌, ◌<◌, ◌≡◌, ◌⊎◌, inl, inr, refl, ap, ◌∙◌, true, false, Option, some, List, [],
  ◌∷◌, ◌++◌, map, length, drop, ltb, leb, arith,
}
use nemo_core.Word.{u64}
use nemo_core.Parse.{Text}
use nemo_core.Ureq.Config.{Config}
use nemo_core.Ureq.Target.{
  Target, Resolver, Sorting, Parsed, Normalized, fault, load_loop, load_targets,
}
use nemo_core.Ureq.Target.Numeric.{body, load_step}
use nemo_core.Ureq.Target.Within.{KeepsLength}
use nemo_core.Ureq.Target.Gathered.{
  parsed, sorted, gather, last_count, index_after, count_after, AreParsed, length-batch,
  whole_array, load_loop-prefix, locals-within,
}

module _ (r : Resolver) (sorting : Sorting) (cf : Config) (keeps : KeepsLength sorting) where
  -- How a target string with `n` targets, behind others with `before` in all, overfills the array of
  -- `limit` targets: by one, which passes the test of the limit, or by more where errors are
  -- tolerated and it has more targets than the array.
  abbrev pub Overfills : ℕ → ℕ → ℕ → Type 0
  Overfills limit before n =
      (before + n ≡ limit + 1) ⊎ ((limit + 1 < before + n) × (cf.cf_err ≡ false) × (limit < n))

  overfilled :
      (p : Parsed) (n : Normalized) (rest : List (Option Text)) (idx : ℕ) (tg : List Target)
      (tall : ℕ)
      → p.ok ≡ true
      → ltb 32 p.tcnt ≡ false
      → length tg ≡ cf.cf_ntg
      → tall ≤ cf.cf_ntg
      → cf.cf_ntg < 2 ^ 63
      → n.nlen ≤ 32
      → Overfills cf.cf_ntg tall n.nlen
      → body r sorting cf p n rest idx tg tall ≡ fault
  overfilled p n rest idx tg tall ok within size room small few (inl one_more) =
      let under : ltb cf.cf_ntg (u64 (n.nlen + tall + 18446744073709551615)) ≡ false =
        ground arith in
      let full : leb (tall + n.nlen) (length tg) ≡ false = ground arith in
      rw (ok, within, under, full) refl
  overfilled p n rest idx tg tall ok within size room small few (inr (more, loose, wide)) =
      let over : ltb cf.cf_ntg (u64 (n.nlen + tall + 18446744073709551615)) ≡ true = ground arith in
      let short : leb n.nlen (length tg) ≡ false = ground arith in
      rw (ok, within, over, loose) (rw short refl)

  -- With the array of targets that `main` allocates, which has as many elements as the limit, a
  -- target string that overfills it makes `load_targets` access elements behind its end: it copies
  -- one target there, or sorts what is there. The strings before it are accepted, give a target each
  -- and fit the array, it is accepted, the first local holds at most 32, the limit is below
  -- 2^63, and qsort(3) keeps the length of what it sorts.
  pub load_targets_overfilled :
      (ts : List Text) (t : Text) (rest : List (Option Text)) (garbage1 garbage2 : ℕ)
      (tg : List Target)
      → cf.cf_tg ≡ map some ts ++ (some t ∷ rest)
      → garbage1 ≤ 32
      → AreParsed r sorting cf ts 0 garbage1
      → length (gather r sorting cf ts 0 garbage1) ≤ cf.cf_ntg
      → length tg ≡ cf.cf_ntg
      → cf.cf_ntg < 2 ^ 63
      → (let idx = index_after r sorting cf ts 0 in
          let tcnt1 = count_after r sorting cf ts 0 garbage1 in
          ((parsed r sorting cf t idx tcnt1).ok ≡ true)
          → Overfills cf.cf_ntg
              (length (gather r sorting cf ts 0 garbage1))
              (sorted r sorting cf t idx tcnt1).nlen
          → load_targets r sorting cf garbage1 garbage2 tg ≡ fault)
  unfolding load_targets
  load_targets_overfilled ts t rest garbage1 garbage2 tg e low fine room size small ok over =
      let all = gather r sorting cf ts 0 garbage1 in
      let idx = index_after r sorting cf ts 0 in
      let t1 = count_after r sorting cf ts 0 garbage1 in
      let t2 = last_count r sorting cf ts 0 garbage1 garbage2 in
      let array = all ++ drop (length all) tg in
      let p = parsed r sorting cf t idx t1 in
      let n = sorted r sorting cf t idx t1 in
      let (few, last) =
        locals-within r sorting cf keeps ts 0 garbage1 0 (length tg) low (omega arith)
          (omega arith) in
      let (less, least, same) = length-batch r sorting cf keeps t idx t1 few in
      let whole : length array ≡ cf.cf_ntg =
        whole_array r sorting cf keeps all tg (omega arith) ∙ size in
      let within : ltb 32 p.tcnt ≡ false = ground arith in
      let beyond : body r sorting cf p n rest idx array (length all) ≡ fault =
        overfilled p n rest idx array (length all) ok within whole room small least over in
      ap (λ l. load_loop r sorting cf l 0 tg 0 garbage1 garbage2) e
      ∙ load_loop-prefix r sorting cf keeps ts (some t ∷ rest) 0 [] tg garbage1 garbage2 low fine
          (omega arith) (omega arith) small
      ∙ load_step r sorting cf t rest idx array (length all) t1 t2 p n refl refl
      ∙ beyond
