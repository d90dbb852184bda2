-- ===== src/Ureq/Target/Modest.antt =====
-- `load_targets` where each target string gives few targets: no access leaves its arrays, also with
-- the array that `main` allocates.
use nemo_core.Prelude.{
  ℕ, zero, suc, ◌+◌, ◌*◌, ◌≤◌, ◌≡◌, refl, sym, ap, ◌∙◌, true, false, Option, none, some, List, [],
  ◌∷◌, ◌++◌, map, length, replicate, set, get_or, ltb, leb, ◌==◌, Bool-cases, Option-cases, inl,
  inr, arith,
}
use mathlib.Core.Path.{subst}
use nemo_core.Word.{u64}
use nemo_core.Parse.{Text}
use nemo_core.Ureq.Config.{Config}
use nemo_core.Ureq.Target.{
  Target, zero_target, Resolver, Sorting, Parsed, read_target4, read_target6, add_addresses,
  resolve_name, parse_target_string, normalize_targets, load_loop, load_targets, readers,
}
use nemo_core.Ureq.Target.Numeric.{body, load_step}
use nemo_core.Ureq.Target.Safe.{IsSafe, HasNull, length-copied, sweep-IsSafe}
use nemo_core.Ureq.Target.Within.{
  KeepsLength, parse_target_string-IsWithin, normalize_targets-IsWithin,
}

-- getaddrinfo(3) gives at most `most` addresses for each name.
abbrev pub IsModest : ℕ → Resolver → Type 0
IsModest most r =
    ((name : Text) (l : List ℕ) → r.getaddrinfo4 name ≡ some l → length l ≤ most)
    × ((name : Text) (l : List (List ℕ)) → r.getaddrinfo6 name ≡ some l → length l ≤ most)

add_addresses_few :
    (tmax : ℕ) (name : Option ℕ) (cf : Config) (ais : List (Target → Target)) (tg : List Target)
    (tcnt : ℕ)
    → (add_addresses tmax name cf ais tg tcnt).tcnt ≤ tcnt + length ais
unfolding add_addresses
add_addresses_few tmax name cf [] tg tcnt = omega arith
add_addresses_few tmax name cf (read ∷ ais) tg tcnt =
    let written = record (read (get_or tg tcnt zero_target)) { tg_name = name } in
    let rest = add_addresses_few tmax name cf ais (set tg tcnt written) (tcnt + 1) in
    elim (Bool-cases (tcnt == tmax)) [
      | inl e ↦ rw e (omega arith)
      | inr e ↦ rw e (omega (arith, rest))
    ]

length-readers {ℓ} :
    {A : Type ℓ} (f : Target → A → Target) (l : List A) → length (readers f l) ≡ length l
length-readers f [] = refl
length-readers f (a ∷ l) = ap suc (length-readers f l)

module _ (r : Resolver) (cf : Config) (most : ℕ) (modest : IsModest most r) where
  resolve_name_few :
      (tg : List Target) (tcnt tmax : ℕ) (name : Text) (ptr : Option ℕ)
      → tcnt ≤ most
      → (resolve_name r tg tcnt tmax name ptr cf).tcnt ≤ most
  unfolding resolve_name
  resolve_name_few tg tcnt tmax name ptr low = elim (Bool-cases cf.cf_ipv4) [
    | inl v4 ↦ elim (Option-cases (r.getaddrinfo4 name)) [
      | inl e ↦ rw (v4, e, resolve_name) low
      | inr (l, e) ↦
          let few = add_addresses_few tmax ptr cf (readers read_target4 l) tg 0 in
          rw (v4, e, resolve_name)
            (omega (arith, few, length-readers read_target4 l, modest.0 name l e))
    ]
    | inr v6 ↦ elim (Option-cases (r.getaddrinfo6 name)) [
      | inl e ↦ rw (v6, e, resolve_name) low
      | inr (l, e) ↦
          let few = add_addresses_few tmax ptr cf (readers read_target6 l) tg 0 in
          rw (v6, e, resolve_name)
            (omega (arith, few, length-readers read_target6 l, modest.1 name l e))
    ]
  ]

  parse_target_string_few :
      (tcnt tmax : ℕ) (tstr : Text) (ptr : Option ℕ)
      → 1 ≤ most
      → tcnt ≤ most
      → (parse_target_string r tcnt tmax tstr ptr cf).tcnt ≤ most
  unfolding parse_target_string
  parse_target_string_few tcnt tmax tstr ptr some_one low =
      let name = resolve_name_few (replicate tmax zero_target) tcnt tmax tstr ptr low in
      ground arith

-- As many targets as the strings before NULL give at most.
abbrev pub in_all : ℕ → List (Option Text) → ℕ
in_all most [] = 0
in_all most (none ∷ rest) = 0
in_all most (some t ∷ rest) = most + in_all most rest

module _ (r : Resolver) (sorting : Sorting) (cf : Config) (keeps : KeepsLength sorting) (most : ℕ)
    (modest : IsModest most r) (some_one : 1 ≤ most) where
  body_modest :
      (p : Parsed) (rest : List (Option Text)) (idx : ℕ) (tg : List Target) (tall size : ℕ)
      → p.tcnt ≤ 32
      → p.tcnt ≤ most
      → length p.tg ≡ 32
      → length tg ≡ size
      → tall + most ≤ size
      → (let n = normalize_targets sorting p.tg p.tcnt in
          ((tg' : List Target)
            → length tg' ≡ size
            → n.nlen ≤ most
            → IsSafe size (load_loop r sorting cf rest (idx + 1) tg' (tall + n.nlen) p.tcnt n.nlen))
          → IsSafe size (body r sorting cf p n rest idx tg tall))
  body_modest p rest idx tg tall size few low wide same room later =
      let n = normalize_targets sorting p.tg p.tcnt in
      let (a, b) = normalize_targets-IsWithin sorting keeps p.tg p.tcnt 32 wide few in
      let sum = u64 (n.nlen + tall + 18446744073709551615) in
      let within : ltb 32 p.tcnt ≡ false = ground arith in
      let fits : leb (tall + n.nlen) (length tg) ≡ true = ground arith in
      elim (Bool-cases p.ok) [
        | inr e ↦ rw e tt
        | inl e ↦ elim (Bool-cases (ltb cf.cf_ntg sum)) [
          | inl over ↦ elim (Bool-cases cf.cf_err) [
            | inl strict ↦ rw (e, within, over, strict) tt
            | inr loose ↦
                rw (e, within, over, loose)
                  (sweep-IsSafe sorting keeps tg n.nlen size same (omega arith))
          ]
          | inr under ↦
              rw (e, within, under, fits)
                (later _
                  (length-copied sorting keeps tg n.tg tall n.nlen (omega arith) (omega arith)
                    ∙ same)
                  (omega arith))
        ]
      ]

  load_loop_modest :
      (l : List (Option Text)) (idx : ℕ) (tg : List Target) (tall tcnt1 tcnt2 size : ℕ)
      → HasNull l
      → tcnt1 ≤ 32
      → tcnt1 ≤ most
      → tcnt2 ≤ size
      → length tg ≡ size
      → tall + in_all most l ≤ size
      → IsSafe size (load_loop r sorting cf l idx tg tall tcnt1 tcnt2)
  load_loop_modest [] idx tg tall t1 t2 size null h1 low h2 same room = absurd null
  load_loop_modest (none ∷ rest) idx tg tall t1 t2 size null h1 low h2 same room =
      unfold load_loop in sweep-IsSafe sorting keeps tg t2 size same h2
  load_loop_modest (some t ∷ rest) idx tg tall t1 t2 size null h1 low h2 same room =
      let p = parse_target_string r t1 32 t (some idx) cf in
      let n = normalize_targets sorting p.tg p.tcnt in
      let (a, b) =
        parse_target_string-IsWithin r cf t1 32 32 t (some idx) h1 (omega arith) (omega arith) in
      let few = parse_target_string_few r cf most modest t1 32 t (some idx) some_one low in
      subst (IsSafe size) (sym (load_step r sorting cf t rest idx tg tall t1 t2 p n refl refl)) (
        body_modest p rest idx tg tall size b few a same (omega arith) (λ tg' same' least.
          load_loop_modest rest (idx + 1) tg' (tall + n.nlen) p.tcnt n.nlen size null b few
            (omega arith) same' (omega arith)))

  -- When NULL ends the target strings, the array has room for `most` targets of each, at least one,
  -- and getaddrinfo(3) gives at most that many addresses for a name, `load_targets` neither reads nor
  -- writes outside its arrays, for any limit: it fails, or it gives an array of the same size with a
  -- count within it. What it finds in its first local must be at most 32 and at most `most`, and in
  -- its second at most the size of the array, and qsort(3) must keep the length of what it sorts.
  pub load_targets_modest :
      (garbage1 garbage2 : ℕ) (tg : List Target)
      → HasNull cf.cf_tg
      → garbage1 ≤ 32
      → garbage1 ≤ most
      → garbage2 ≤ length tg
      → in_all most cf.cf_tg ≤ length tg
      → IsSafe (length tg) (load_targets r sorting cf garbage1 garbage2 tg)
  unfolding load_targets
  load_targets_modest garbage1 garbage2 tg null h1 low h2 room =
      load_loop_modest cf.cf_tg 0 tg 0 garbage1 garbage2 (length tg) null h1 low h2 refl
        (omega arith)

-- The strings of a command line, with NULL behind them.
pub in_all-map :
    (most : ℕ) (args : List Text) (k : ℕ)
    → in_all most (map some args ++ replicate k none) ≡ most * length args
in_all-map most [] zero = omega arith
in_all-map most [] (suc k) = omega arith
in_all-map most (t ∷ args) k = grind (arith, in_all-map most args k)

pub HasNull-map : (args : List Text) (k : ℕ) → 1 ≤ k → HasNull (map some args ++ replicate k none)
HasNull-map [] zero h = elim h [ ]
HasNull-map [] (suc k) h = tt
HasNull-map (t ∷ args) k h = HasNull-map args k h
