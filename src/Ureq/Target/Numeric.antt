-- ===== src/Ureq/Target/Numeric.antt =====
-- `load_targets` where every target is a numeric IPv4 address.
use nemo_core.Prelude.{
  ℕ, ◌+◌, ◌^◌, ◌≤◌, ◌<◌, ◌≡◌, refl, ap, ◌∙◌, true, false, not, Option, none, some, List, [], ◌∷◌,
  ◌++◌, All, map, length, length-append, length-take, length-drop, take, drop, set, replicate, ltb,
  leb, if◌then◌else◌, arith,
}
use nemo_core.Word.{u64}
use nemo_core.Parse.{Text}
use nemo_core.Ureq.Config.{Config}
use nemo_core.Ureq.Target.{
  Target, zero_target, Resolver, Sorting, Parsed, Loaded, loaded, refused, fault, Normalized,
  copy_at, sweep, parse_target_string, read_target4, normalize_targets, load_loop, load_targets,
}

-- inet_pton(3) reads it.
abbrev pub IsNumeric : Resolver → Text → Type 0
IsNumeric r t = (a4 : ℕ) × (r.pton4 t ≡ some a4)

module _ (r : Resolver) (sorting : Sorting) (cf : Config) where
  -- The array that one such target gives.
  abbrev pub one_target : ℕ → List Target
  one_target a4 =
      set (replicate 32 zero_target) 0 (record (read_target4 zero_target a4) { tg_name = none })

  length-copy_at :
      (tg src : List Target) (at : ℕ) (x : Target) (rest : List Target)
      → src ≡ x ∷ rest
      → at + 1 ≤ length tg
      → length (take at tg ++ (take 1 src ++ drop (at + 1) tg)) ≡ length tg
  length-copy_at tg src at x rest e h =
      let first : length (take 1 src) ≡ 1 = rw e refl in
      omega (
        arith,
        length-append (take at tg) (take 1 src ++ drop (at + 1) tg),
        length-append (take 1 src) (drop (at + 1) tg),
        length-take at tg,
        length-drop (at + 1) tg,
      )

  pub parse_numeric :
      (t : Text) (a4 idx t1 : ℕ)
      → cf.cf_ipv4 ≡ true
      → r.pton4 t ≡ some a4
      → parse_target_string r t1 32 t (some idx) cf
        ≡ record { tg = one_target a4; tcnt = 1; ok = true }
  unfolding parse_target_string read_target4
  parse_numeric t a4 idx t1 v4 e = ground arith

  pub normalize_one :
      (tg : List Target) → normalize_targets sorting tg 1 ≡ record { tg = tg; nlen = 1 }
  unfolding normalize_targets
  normalize_one tg = ground arith

  -- The body of the loop, from what the two calls return.
  abbrev pub body : Parsed → Normalized → List (Option Text) → ℕ → List Target → ℕ → Loaded
  body p n rest idx tg tall =
      if not p.ok
      then refused
      else if ltb 32 p.tcnt
      then fault
      else if ltb cf.cf_ntg (u64 (n.nlen + tall + 18446744073709551615))
      then if cf.cf_err then refused else sweep sorting tg n.nlen
      else elim (copy_at tg tall n.tg n.nlen) [
        | none ↦ fault
        | some tg' ↦ load_loop r sorting cf rest (idx + 1) tg' (tall + n.nlen) p.tcnt n.nlen
      ]

  pub load_step :
      (t : Text) (rest : List (Option Text)) (idx : ℕ) (tg : List Target) (tall t1 t2 : ℕ)
      (p : Parsed) (n : Normalized)
      → parse_target_string r t1 32 t (some idx) cf ≡ p
      → normalize_targets sorting p.tg p.tcnt ≡ n
      → load_loop r sorting cf (some t ∷ rest) idx tg tall t1 t2 ≡ body p n rest idx tg tall
  unfolding load_loop
  load_step t rest idx tg tall t1 t2 p n e q =
      ap (λ x. body x (normalize_targets sorting x.tg x.tcnt) rest idx tg tall) e
      ∙ ap (λ x. body p x rest idx tg tall) q

  pub numeric_step :
      (t : Text) (rest : List (Option Text)) (idx : ℕ) (tg : List Target) (tall t1 t2 : ℕ)
      → cf.cf_ipv4 ≡ true
      → IsNumeric r t
      → tall < cf.cf_ntg
      → cf.cf_ntg ≤ length tg
      → cf.cf_ntg < 2 ^ 63
      → (tg' : List Target) × (length tg' ≡ length tg)
        × (load_loop r sorting cf (some t ∷ rest) idx tg tall t1 t2
            ≡ load_loop r sorting cf rest (idx + 1) tg' (tall + 1) 1 1)
  numeric_step t rest idx tg tall t1 t2 v4 (a4, e) low size small =
      let tg' = take tall tg ++ (take 1 (one_target a4) ++ drop (tall + 1) tg) in
      let under : ltb cf.cf_ntg (u64 (1 + tall + 18446744073709551615)) ≡ false = ground arith in
      let room : leb (tall + 1) (length tg) ≡ true = ground arith in
      (
        tg',
        length-copy_at tg (one_target a4) tall _ _ refl (omega arith),
        load_step t rest idx tg tall t1 t2 _ _ (parse_numeric t a4 idx t1 v4 e)
              (normalize_one (one_target a4))
            ∙ rw (under, room) refl,
      )

  room : (tg : List Target) → 1 ≤ length tg → leb 1 (length tg) ≡ true
  room tg h = ground arith

  load_loop-numeric :
      (ts : List Text) (rest : List (Option Text)) (idx : ℕ) (tg : List Target) (tall t1 : ℕ)
      → cf.cf_ipv4 ≡ true
      → All (IsNumeric r) ts
      → 1 ≤ length tg
      → tall + length ts ≤ cf.cf_ntg
      → cf.cf_ntg ≤ length tg
      → cf.cf_ntg < 2 ^ 63
      → (tg' : List Target) × (load_loop r sorting cf
            (map some ts ++ (none ∷ rest))
            idx
            tg
            tall
            t1
            1
          ≡ loaded tg' 1)
  load_loop-numeric [] rest idx tg tall t1 v4 num some_one low size small =
      (tg, unfold load_loop in rw (normalize_one tg) (rw (room tg some_one) refl))
  load_loop-numeric (t ∷ ts) rest idx tg tall t1 v4 (n, ns) some_one low size small =
      let (tg', same, step) =
        numeric_step t (map some ts ++ (none ∷ rest)) idx tg tall t1 1 v4 n (omega arith) size
          small in
      let (tg2, done) =
        load_loop-numeric ts rest (idx + 1) tg' (tall + 1) 1 v4 ns (omega arith) (omega arith)
          (omega arith) small in
      (tg2, step ∙ done)

  -- When the targets are numeric IPv4 addresses, at least one and at most the limit, with NULL
  -- behind them, the limit is below 2^63 and within the size of the array, and IPv4 is selected,
  -- `load_targets` counts one target only, however many there are: the last sweep is given the
  -- count of the last argument, not of all.
  pub load_targets_numeric :
      (t : Text) (ts : List Text) (rest : List (Option Text)) (garbage1 garbage2 : ℕ)
      (tg : List Target)
      → cf.cf_ipv4 ≡ true
      → IsNumeric r t
      → All (IsNumeric r) ts
      → cf.cf_tg ≡ map some (t ∷ ts) ++ (none ∷ rest)
      → length (t ∷ ts) ≤ cf.cf_ntg
      → cf.cf_ntg ≤ length tg
      → cf.cf_ntg < 2 ^ 63
      → (tg' : List Target) × (load_targets r sorting cf garbage1 garbage2 tg ≡ loaded tg' 1)
  unfolding load_targets
  load_targets_numeric t ts rest garbage1 garbage2 tg v4 n ns e low size small =
      let (tg', same, step) =
        numeric_step t (map some ts ++ (none ∷ rest)) 0 tg 0 garbage1 garbage2 v4 n (omega arith)
          size small in
      let (tg2, done) =
        load_loop-numeric ts rest 1 tg' 1 1 v4 ns (omega arith) (omega arith) (omega arith) small in
      (tg2, ap (λ l. load_loop r sorting cf l 0 tg 0 garbage1 garbage2) e ∙ step ∙ done)
