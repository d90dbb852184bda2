-- ===== src/Ureq/Target/Size.antt =====
-- `load_targets` keeps the size of the array of targets.
use nemo_core.Prelude.{
  ℕ, ◌+◌, ◌≤◌, ◌≡◌, refl, sym, ◌∙◌, Option, none, some, List, [], ◌∷◌, length, ltb, leb, Bool-cases,
  inl, inr, arith,
}
use mathlib.Core.Path.{subst}
use nemo_core.Word.{u64}
use nemo_core.Parse.{Text}
use nemo_core.Ureq.Config.{Config}
use nemo_core.Ureq.Target.{
  Target, Resolver, Sorting, Parsed, parse_target_string, normalize_targets, sweep, load_loop,
  load_targets,
}
use nemo_core.Ureq.Target.Cases.{Settles}
use nemo_core.Ureq.Target.Numeric.{body, load_step}
use nemo_core.Ureq.Target.Safe.{length-copied}
use nemo_core.Ureq.Target.Within.{
  KeepsLength, parse_target_string-IsWithin, normalize_targets-IsWithin,
}

module _ (r : Resolver) (sorting : Sorting) (cf : Config) (keeps : KeepsLength sorting) where
  sweep-Settles :
      (tg : List Target) (tcnt2 size : ℕ)
      → length tg ≡ size
      → Settles Unit size (sweep sorting tg tcnt2)
  sweep-Settles tg tcnt2 size h = elim (Bool-cases (leb tcnt2 (length tg))) [
    | inr e ↦ rw e tt
    | inl e ↦
        let (a, b) = normalize_targets-IsWithin sorting keeps tg tcnt2 size h (ground arith) in
        rw e a
  ]

  body-Settles :
      (p : Parsed) (rest : List (Option Text)) (idx : ℕ) (tg : List Target) (tall size : ℕ)
      → length p.tg ≡ 32
      → length tg ≡ size
      → (let n = normalize_targets sorting p.tg p.tcnt in
          ((tg' : List Target)
            → length tg' ≡ size
            → Settles Unit size
                (load_loop r sorting cf rest (idx + 1) tg' (tall + n.nlen) p.tcnt n.nlen))
          → Settles Unit size (body r sorting cf p n rest idx tg tall))
  body-Settles p rest idx tg tall size wide same later =
      let n = normalize_targets sorting p.tg p.tcnt in
      let sum = u64 (n.nlen + tall + 18446744073709551615) in
      elim (Bool-cases p.ok) [
        | inr e ↦ rw e tt
        | inl e ↦ elim (Bool-cases (ltb 32 p.tcnt)) [
          | inl many ↦ rw (e, many) tt
          | inr few ↦ elim (Bool-cases (ltb cf.cf_ntg sum)) [
            | inl over ↦ elim (Bool-cases cf.cf_err) [
              | inl strict ↦ rw (e, few, over, strict) tt
              | inr loose ↦ rw (e, few, over, loose) (sweep-Settles tg n.nlen size same)
            ]
            | inr under ↦ elim (Bool-cases (leb (tall + n.nlen) (length tg))) [
              | inr full ↦ rw (e, few, under, full) tt
              | inl room ↦
                  let low : p.tcnt ≤ 32 = ground arith in
                  let fits : tall + n.nlen ≤ length tg = ground arith in
                  let (a, b) = normalize_targets-IsWithin sorting keeps p.tg p.tcnt 32 wide low in
                  rw (e, few, under, room)
                    (later _
                      (length-copied sorting keeps tg n.tg tall n.nlen (omega arith) fits ∙ same))
            ]
          ]
        ]
      ]

  load_loop-Settles :
      (l : List (Option Text)) (idx : ℕ) (tg : List Target) (tall tcnt1 tcnt2 size : ℕ)
      → length tg ≡ size
      → Settles Unit size (load_loop r sorting cf l idx tg tall tcnt1 tcnt2)
  unfolding load_loop
  load_loop-Settles [] idx tg tall t1 t2 size same = tt
  load_loop-Settles (none ∷ rest) idx tg tall t1 t2 size same = sweep-Settles tg t2 size same
  load_loop-Settles (some t ∷ rest) idx tg tall t1 t2 size same =
      let p = parse_target_string r t1 32 t (some idx) cf in
      let n = normalize_targets sorting p.tg p.tcnt in
      let (a, b) =
        parse_target_string-IsWithin r cf t1 32 (32 + t1) t (some idx) (omega arith) (omega arith)
          (omega arith) in
      subst (Settles Unit size)
        (sym (load_step r sorting cf t rest idx tg tall t1 t2 p n refl refl))
        (body-Settles p rest idx tg tall size a same (λ tg' same'.
          load_loop-Settles rest (idx + 1) tg' (tall + n.nlen) p.tcnt n.nlen size same'))

  -- Whatever the resolver answers, the array of targets that `load_targets` leaves has the size that
  -- it had.
  pub load_targets-Settles :
      (garbage1 garbage2 : ℕ) (tg : List Target)
      → Settles Unit (length tg) (load_targets r sorting cf garbage1 garbage2 tg)
  unfolding load_targets
  load_targets-Settles garbage1 garbage2 tg =
      load_loop-Settles cf.cf_tg 0 tg 0 garbage1 garbage2 (length tg) refl
