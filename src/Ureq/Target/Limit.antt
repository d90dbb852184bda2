-- ===== src/Ureq/Target/Limit.antt =====
-- `load_targets` at its limit.
use nemo_core.Prelude.{
  ℕ, ◌+◌, ◌^◌, ◌≤◌, ◌<◌, ◌≡◌, refl, ap, ◌∙◌, true, false, Option, some, List, [], ◌∷◌, All, map,
  length, ltb, leb, arith,
}
use nemo_core.Word.{u64}
use nemo_core.Parse.{Text}
use nemo_core.Ureq.Config.{Config}
use nemo_core.Ureq.Target.{Target, Resolver, Sorting, fault, load_loop, load_targets}
use nemo_core.Ureq.Target.Numeric.{
  IsNumeric, one_target, parse_numeric, normalize_one, load_step, numeric_step,
}

module _ (r : Resolver) (sorting : Sorting) (cf : Config) where
  -- A numeric IPv4 target that is met when as many targets are loaded as the limit and the array hold
  -- passes the test of the limit and is written behind the array.
  pub load_loop_over :
      (t : Text) (rest : List (Option Text)) (idx : ℕ) (tg : List Target) (t1 t2 : ℕ)
      → cf.cf_ipv4 ≡ true
      → IsNumeric r t
      → length tg ≡ cf.cf_ntg
      → cf.cf_ntg < 2 ^ 63
      → load_loop r sorting cf (some t ∷ rest) idx tg cf.cf_ntg t1 t2 ≡ fault
  load_loop_over t rest idx tg t1 t2 v4 (a4, e) size small =
      let under : ltb cf.cf_ntg (u64 (1 + cf.cf_ntg + 18446744073709551615)) ≡ false =
        ground arith in
      let room : leb (cf.cf_ntg + 1) (length tg) ≡ false = ground arith in
      load_step r sorting cf t rest idx tg cf.cf_ntg t1 t2 _ _
        (parse_numeric r sorting cf t a4 idx t1 v4 e)
        (normalize_one r sorting cf (one_target r sorting cf a4))
      ∙ rw (under, room) refl

  load_loop-full :
      (ts : List Text) (idx : ℕ) (tg : List Target) (tall t1 t2 : ℕ)
      → cf.cf_ipv4 ≡ true
      → All (IsNumeric r) ts
      → tall + length ts ≤ cf.cf_ntg
      → cf.cf_ntg ≤ length tg
      → cf.cf_ntg < 2 ^ 63
      → load_loop r sorting cf (map some ts) idx tg tall t1 t2 ≡ fault
  unfolding load_loop
  load_loop-full [] idx tg tall t1 t2 v4 num low size small = refl
  load_loop-full (t ∷ ts) idx tg tall t1 t2 v4 (n, ns) low size small =
      let (tg', same, step) =
        numeric_step r sorting cf t (map some ts) idx tg tall t1 t2 v4 n (omega arith) size small in
      step ∙ load_loop-full ts (idx + 1) tg' (tall + 1) 1 1 v4 ns (omega arith) (omega arith) small

  -- With as many numeric IPv4 addresses on the command line as the limit allows, `load_targets` reads
  -- the array of pointers beyond its end, since no NULL stands there. The limit is below 2^63 and
  -- within the size of the array of targets.
  pub load_targets_full :
      (ts : List Text) (garbage1 garbage2 : ℕ) (tg : List Target)
      → cf.cf_ipv4 ≡ true
      → All (IsNumeric r) ts
      → cf.cf_tg ≡ map some ts
      → length ts ≡ cf.cf_ntg
      → cf.cf_ntg ≤ length tg
      → cf.cf_ntg < 2 ^ 63
      → load_targets r sorting cf garbage1 garbage2 tg ≡ fault
  unfolding load_targets
  load_targets_full ts garbage1 garbage2 tg v4 num e full size small =
      ap (λ l. load_loop r sorting cf l 0 tg 0 garbage1 garbage2) e
      ∙ load_loop-full ts 0 tg 0 garbage1 garbage2 v4 num (omega arith) size small
