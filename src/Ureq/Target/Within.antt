-- ===== src/Ureq/Target/Within.antt =====
-- How many targets `parse_target_string` and `normalize_targets` count in their arrays.
use nemo_core.Prelude.{
  ℕ, zero, suc, ◌+◌, ◌-◌, ◌≤◌, ◌≡◌, ◌∙◌, not, Option, none, some, List, [], ◌∷◌, ◌++◌, length,
  length-append, length-take, length-drop, length-replicate, length-set, take, drop, replicate, set,
  get_or, ◌==◌, Bool-cases, Option-cases, inl, inr, arith,
}
use nemo_core.Parse.{Text}
use nemo_core.Ureq.Config.{Config}
use nemo_core.Ureq.Target.{
  Target, zero_target, Resolver, Sorting, Parsed, read_target4, read_target6, add_addresses,
  resolve_name, parse_target_string, dedup_loop, normalize_targets,
}
use nemo_core.Ureq.Target.Laws.{several}

-- An array of `size` elements of which at most `most` count.
abbrev pub IsWithin : ℕ → ℕ → List Target → ℕ → Type 0
IsWithin size most tg n = (length tg ≡ size) × (n ≤ most)

add_addresses-IsWithin :
    (tmax : ℕ) (name : Option ℕ) (cf : Config) (ais : List (Target → Target)) (tg : List Target)
    (tcnt size : ℕ)
    → IsWithin size tmax tg tcnt
    → (let p = add_addresses tmax name cf ais tg tcnt in IsWithin size tmax p.tg p.tcnt)
unfolding add_addresses
add_addresses-IsWithin tmax name cf [] tg tcnt size h = h
add_addresses-IsWithin tmax name cf (read ∷ ais) tg tcnt size (same, most) =
    let written = record (read (get_or tg tcnt zero_target)) { tg_name = name } in
    elim (Bool-cases (tcnt == tmax)) [
      | inl e ↦ rw e (same, most)
      | inr e ↦ rw e (
          add_addresses-IsWithin tmax name cf ais (set tg tcnt written) (tcnt + 1) size
            (length-set tg tcnt written ∙ same, ground arith))
    ]

module _ (r : Resolver) (cf : Config) where
  resolved :
      (addresses : Option (List (Target → Target))) (tg : List Target) (tcnt tmax : ℕ)
      (ptr : Option ℕ) (size most : ℕ)
      → IsWithin size most tg tcnt
      → tmax ≤ most
      → (let p : Parsed = elim addresses [
        | none ↦ record { tg = tg; tcnt = tcnt; ok = not cf.cf_err }
        | some ais ↦ add_addresses tmax ptr cf ais tg 0
      ] in
          IsWithin size most p.tg p.tcnt)
  resolved none tg tcnt tmax ptr size most h le = h
  resolved (some ais) tg tcnt tmax ptr size most (same, low) le =
      let (a, b) = add_addresses-IsWithin tmax ptr cf ais tg 0 size (same, omega arith) in
      (a, omega arith)

  resolve_name-IsWithin :
      (tg : List Target) (tcnt tmax : ℕ) (name : Text) (ptr : Option ℕ) (size most : ℕ)
      → IsWithin size most tg tcnt
      → tmax ≤ most
      → (let p = resolve_name r tg tcnt tmax name ptr cf in IsWithin size most p.tg p.tcnt)
  unfolding resolve_name
  resolve_name-IsWithin tg tcnt tmax name ptr size most h le =
      resolved _ tg tcnt tmax ptr size most h le

  -- `most` bounds what the variable for the count held before, too.
  pub parse_target_string-IsWithin :
      (tcnt tmax most : ℕ) (tstr : Text) (ptr : Option ℕ)
      → tcnt ≤ most
      → tmax ≤ most
      → 1 ≤ tmax
      → (let p = parse_target_string r tcnt tmax tstr ptr cf in IsWithin tmax most p.tg p.tcnt)
  unfolding parse_target_string
  parse_target_string-IsWithin tcnt tmax most tstr ptr low le some_one =
      let clear = replicate tmax zero_target in
      let size : length clear ≡ tmax = length-replicate tmax zero_target in
      let one : (t : Target) → length (set clear 0 t) ≡ tmax = λ t. length-set clear 0 t ∙ size in
      let (a, b) = resolve_name-IsWithin clear tcnt tmax tstr ptr tmax most (size, low) le in
      elim (Option-cases (r.pton4 tstr)) [
        | inr (a4, e) ↦
            let h = one (record (read_target4 zero_target a4) { tg_name = none }) in
            ground (arith, h)
        | inl e ↦ elim (Option-cases (r.pton6 tstr)) [
          | inr (a6, q) ↦
              let h = one (record (read_target6 zero_target a6) { tg_name = none }) in
              ground (arith, h)
          | inl q ↦ rw (parse_target_string, e, q) (a, b)
        ]
      ]

-- What the C library documents of qsort(3): it reorders the elements of the array.
abbrev pub KeepsLength : Sorting → Type 0
KeepsLength sorting = (l : List Target) → length (sorting.qsort l) ≡ length l

module _ (sorting : Sorting) (keeps : KeepsLength sorting) where
  dedup_loop-IsWithin :
      (left idx lst : ℕ) (tg : List Target) (size : ℕ)
      → length tg ≡ size
      → (let n = dedup_loop sorting left idx lst tg in IsWithin size (lst + left + 1) n.tg n.nlen)
  unfolding dedup_loop
  dedup_loop-IsWithin zero idx lst tg size h = (h, omega arith)
  dedup_loop-IsWithin (suc left) idx lst tg size h =
      let x = get_or tg idx zero_target in
      elim (Bool-cases (sorting.same x (get_or tg lst zero_target))) [
        | inl e ↦
            rw (dedup_loop, e)
              (let (a, b) = dedup_loop-IsWithin left (idx + 1) lst tg size h in (a, omega arith))
        | inr e ↦
            rw (dedup_loop, e)
              (let (a, b) =
                  dedup_loop-IsWithin left (idx + 1) (lst + 1) (set tg (lst + 1) x) size
                    (length-set tg (lst + 1) x ∙ h) in
                (a, omega arith))
      ]

  pub normalize_targets-IsWithin :
      (tg : List Target) (olen size : ℕ)
      → length tg ≡ size
      → olen ≤ size
      → (let n = normalize_targets sorting tg olen in IsWithin size olen n.tg n.nlen)
  unfolding normalize_targets
  normalize_targets-IsWithin tg zero size h low = (h, omega arith)
  normalize_targets-IsWithin tg (suc zero) size h low = (h, omega arith)
  normalize_targets-IsWithin tg (suc (suc m)) size h low =
      let olen : ℕ = suc (suc m) in
      let sorted = sorting.qsort (take olen tg) in
      let whole : length (sorted ++ drop olen tg) ≡ size = omega (
        arith,
        length-append sorted (drop olen tg),
        keeps (take olen tg),
        length-take olen tg,
        length-drop olen tg,
      ) in
      let (a, b) = dedup_loop-IsWithin (olen - 1) 1 0 (sorted ++ drop olen tg) size whole in
      rw (several sorting tg olen (omega arith)) (a, omega arith)
