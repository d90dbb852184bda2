-- ===== src/Ureq/Target/Safe.antt =====
-- The arrays of `load_targets`: when no access leaves them.
use nemo_core.Prelude.{
  ℕ, ◌+◌, ◌^◌, ◌≤◌, ◌<◌, ◌≡◌, refl, sym, ◌∙◌, true, false, Option, none, some, List, [], ◌∷◌, ◌++◌,
  length, length-append, length-take, length-drop, take, drop, ltb, leb, Bool-cases, inl, inr,
  arith,
}
use mathlib.Core.Path.{subst}
use nemo_core.Word.{u64}
use nemo_core.Parse.{Text}
use nemo_core.Ureq.Config.{Config}
use nemo_core.Ureq.Target.{
  Target, Resolver, Sorting, Parsed, Loaded, loaded, refused, fault, Normalized,
  parse_target_string, normalize_targets, sweep, load_loop, load_targets,
}
use nemo_core.Ureq.Target.Numeric.{body, load_step}
use nemo_core.Ureq.Target.Within.{
  IsWithin, KeepsLength, parse_target_string-IsWithin, normalize_targets-IsWithin,
}

-- No fault, and an array of `size` elements.
abbrev pub IsSafe : ℕ → Loaded → Type 0
IsSafe size (loaded tg n) = IsWithin size size tg n
IsSafe size refused = Unit
IsSafe size fault = ⊥

-- A NULL occurs in the array of pointers.
abbrev pub HasNull : List (Option Text) → Type 0
HasNull [] = ⊥
HasNull (none ∷ rest) = Unit
HasNull (some t ∷ rest) = HasNull rest

module _ (sorting : Sorting) (keeps : KeepsLength sorting) where
  pub length-copied :
      (tg src : List Target) (at n : ℕ)
      → n ≤ length src
      → at + n ≤ length tg
      → length (take at tg ++ (take n src ++ drop (at + n) tg)) ≡ length tg
  length-copied tg src at n small room = omega (
    arith,
    length-append (take at tg) (take n src ++ drop (at + n) tg),
    length-append (take n src) (drop (at + n) tg),
    length-take at tg,
    length-take n src,
    length-drop (at + n) tg,
  )

  pub sweep-IsSafe :
      (tg : List Target) (tcnt2 size : ℕ)
      → length tg ≡ size
      → tcnt2 ≤ size
      → IsSafe size (sweep sorting tg tcnt2)
  sweep-IsSafe tg tcnt2 size h low =
      let room : leb tcnt2 (length tg) ≡ true = ground arith in
      let (a, b) = normalize_targets-IsWithin sorting keeps tg tcnt2 size h low in
      rw room (a, omega arith)

module _ (r : Resolver) (sorting : Sorting) (cf : Config) (keeps : KeepsLength sorting) where
  -- One round, for the rounds behind it.
  body-IsSafe :
      (p : Parsed) (n : Normalized) (rest : List (Option Text)) (idx : ℕ) (tg : List Target)
      (tall size : ℕ)
      → p.tcnt ≤ 32
      → IsWithin 32 32 n.tg n.nlen
      → length tg ≡ size
      → tall ≤ size
      → cf.cf_ntg + 1 ≤ size
      → 32 ≤ size
      → size < 2 ^ 63
      → ((tg' : List Target)
          → length tg' ≡ size
          → tall + n.nlen ≤ size
          → IsSafe size (load_loop r sorting cf rest (idx + 1) tg' (tall + n.nlen) p.tcnt n.nlen))
      → IsSafe size (body r sorting cf p n rest idx tg tall)
  body-IsSafe p n rest idx tg tall size few (wide, most) same low limit large small later =
      let sum = u64 (n.nlen + tall + 18446744073709551615) in
      let within : ltb 32 p.tcnt ≡ false = ground arith in
      elim (Bool-cases p.ok) [
        | inr e ↦ rw e tt
        | inl e ↦
            rw (e, within)
              (elim (Bool-cases (ltb cf.cf_ntg sum)) [
                | inl over ↦ rw over (elim (Bool-cases cf.cf_err) [
                  | inl strict ↦ rw strict tt
                  | inr loose ↦
                      rw loose (sweep-IsSafe sorting keeps tg n.nlen size same (omega arith))
                ])
                | inr under ↦
                    let sum_small : sum ≤ cf.cf_ntg = ground arith in
                    let fits : tall + n.nlen ≤ size = omega arith in
                    let room : leb (tall + n.nlen) (length tg) ≡ true = ground arith in
                    rw (under, room)
                      (later _
                        (length-copied sorting keeps tg n.tg tall n.nlen (omega arith) (omega arith)
                          ∙ same)
                        fits)
              ])
      ]

  load_loop-IsSafe :
      (l : List (Option Text)) (idx : ℕ) (tg : List Target) (tall tcnt1 tcnt2 size : ℕ)
      → HasNull l
      → tcnt1 ≤ 32
      → tcnt2 ≤ size
      → length tg ≡ size
      → tall ≤ size
      → cf.cf_ntg + 1 ≤ size
      → 32 ≤ size
      → size < 2 ^ 63
      → IsSafe size (load_loop r sorting cf l idx tg tall tcnt1 tcnt2)
  load_loop-IsSafe [] idx tg tall t1 t2 size null h1 h2 same low limit large small = absurd null
  load_loop-IsSafe (none ∷ rest) idx tg tall t1 t2 size null h1 h2 same low limit large small =
      unfold load_loop in sweep-IsSafe sorting keeps tg t2 size same h2
  load_loop-IsSafe (some t ∷ rest) idx tg tall t1 t2 size null h1 h2 same low limit large small =
      let p = parse_target_string r t1 32 t (some idx) cf in
      let n = normalize_targets sorting p.tg p.tcnt in
      let (a, b) =
        parse_target_string-IsWithin r cf t1 32 32 t (some idx) h1 (omega arith) (omega arith) in
      let (c, d) = normalize_targets-IsWithin sorting keeps p.tg p.tcnt 32 a b in
      let e : n.nlen ≤ 32 = omega arith in
      subst (IsSafe size) (sym (load_step r sorting cf t rest idx tg tall t1 t2 p n refl refl)) (
        body-IsSafe p n rest idx tg tall size b (c, e) same low limit large small
          (λ tg' same' fits.
            load_loop-IsSafe rest (idx + 1) tg' (tall + n.nlen) p.tcnt n.nlen size null b
              (omega arith) same' fits limit large small))

  -- When NULL ends the target strings, the array holds one target more than the limit and at least
  -- 32, but less than 2^63, and `load_targets` finds no more than 32 and the size of the array in its
  -- two locals, it neither reads nor writes outside its arrays, whatever the resolver answers: it
  -- fails, or it gives an array of the same size with a count within it. qsort(3) must keep the
  -- length of what it sorts.
  pub load_targets-IsSafe :
      (garbage1 garbage2 : ℕ) (tg : List Target)
      → HasNull cf.cf_tg
      → garbage1 ≤ 32
      → garbage2 ≤ length tg
      → cf.cf_ntg + 1 ≤ length tg
      → 32 ≤ length tg
      → length tg < 2 ^ 63
      → IsSafe (length tg) (load_targets r sorting cf garbage1 garbage2 tg)
  unfolding load_targets
  load_targets-IsSafe garbage1 garbage2 tg null h1 h2 limit large small =
      load_loop-IsSafe cf.cf_tg 0 tg 0 garbage1 garbage2 (length tg) null h1 h2 refl (omega arith)
        limit large small
