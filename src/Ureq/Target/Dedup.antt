-- ===== src/Ureq/Target/Dedup.antt =====
-- The in-place loop of `normalize_targets` against removing neighbours that are the same.
use nemo_core.Prelude.{
  ℕ, zero, suc, ◌+◌, ◌≡◌, refl, sym, ap, ◌∙◌, List, [], ◌∷◌, ◌++◌, length, length-append, get_or,
  set, take, if◌then◌else◌, arith, Bool-cases, inl, inr,
}
use mathlib.Core.List.{append_assoc}
use nemo_core.Ureq.Target.{Target, zero_target, Sorting, dedup_loop}

module _ {ℓ} {A : Type ℓ} where
  get_or-append :
      (xs : List A) (y d : A) (zs : List A) (i : ℕ)
      → length xs ≡ i
      → get_or (xs ++ (y ∷ zs)) i d ≡ y
  get_or-append [] y d zs zero e = refl
  get_or-append [] y d zs (suc i) e = absurd (omega arith)
  get_or-append (x ∷ xs) y d zs zero e = absurd (omega arith)
  get_or-append (x ∷ xs) y d zs (suc i) e = get_or-append xs y d zs i (omega arith)

  set-append :
      (xs : List A) (y v : A) (zs : List A) (i : ℕ)
      → length xs ≡ i
      → set (xs ++ (y ∷ zs)) i v ≡ xs ++ (v ∷ zs)
  set-append [] y v zs zero e = refl
  set-append [] y v zs (suc i) e = absurd (omega arith)
  set-append (x ∷ xs) y v zs zero e = absurd (omega arith)
  set-append (x ∷ xs) y v zs (suc i) e = ap (◌∷◌ x) (set-append xs y v zs i (omega arith))

  pub take-append : (xs ys : List A) (n : ℕ) → length xs ≡ n → take n (xs ++ ys) ≡ xs
  take-append [] ys zero e = refl
  take-append [] ys (suc n) e = absurd (omega arith)
  take-append (x ∷ xs) ys zero e = absurd (omega arith)
  take-append (x ∷ xs) ys (suc n) e = ap (◌∷◌ x) (take-append xs ys n (omega arith))

module _ (sorting : Sorting) where
  -- `last`, and then each element that differs from the last one kept.
  unfoldable pub dedup_from : Target → List Target → List Target
  dedup_from last [] = last ∷ []
  dedup_from last (x ∷ xs) =
      if sorting.same x last then dedup_from last xs else last ∷ dedup_from x xs

  -- The array is the elements kept before `last`, some that are passed over, and those not read.
  abbrev pub layout : List Target → Target → List Target → List Target → List Target → List Target
  layout kept last junk rest behind = kept ++ (last ∷ (junk ++ (rest ++ behind)))

  -- A different element goes right behind the last one kept.
  keep_one :
      (kept : List Target) (last y : Target) (junk ys behind : List Target) (i : ℕ)
      → length kept + 1 ≡ i
      → (junk' : List Target) × (set (layout kept last junk (y ∷ ys) behind) i y
          ≡ layout (kept ++ (last ∷ [])) y junk' ys behind)
        × (length junk' ≡ length junk)
  keep_one kept last y [] ys behind i e = (
    [],
    rw (← append_assoc kept (last ∷ []) (y ∷ (ys ++ behind))) (
        set-append (kept ++ (last ∷ [])) y y (ys ++ behind) i
          (omega (arith, length-append kept (last ∷ [])))),
    refl,
  )
  keep_one kept last y (j ∷ js) ys behind i e = (
    js ++ (y ∷ []),
    ap (λ (l : List Target). set l i y)
          (sym (append_assoc kept (last ∷ []) (j ∷ (js ++ (y ∷ (ys ++ behind))))))
        ∙ set-append (kept ++ (last ∷ [])) j y (js ++ (y ∷ (ys ++ behind))) i
            (omega (arith, length-append kept (last ∷ [])))
        ∙ ap (λ (l : List Target). (kept ++ (last ∷ [])) ++ (y ∷ l))
            (sym (append_assoc js (y ∷ []) (ys ++ behind))),
    omega (arith, length-append js (y ∷ [])),
  )

  -- What the loop reads at its two indices.
  read_last :
      (kept : List Target) (last : Target) (junk rest behind arr : List Target) (lst : ℕ)
      → arr ≡ layout kept last junk rest behind
      → lst ≡ length kept
      → get_or arr lst zero_target ≡ last
  read_last kept last junk rest behind arr lst e hl =
      rw e (get_or-append kept last zero_target (junk ++ (rest ++ behind)) lst (omega arith))

  read_next :
      (kept : List Target) (last : Target) (junk : List Target) (y : Target)
      (ys behind arr : List Target) (idx : ℕ)
      → arr ≡ layout kept last junk (y ∷ ys) behind
      → idx ≡ length kept + length junk + 1
      → get_or arr idx zero_target ≡ y
  read_next kept last junk y ys behind arr idx e hi =
      let regroup : arr ≡ (kept ++ (last ∷ junk)) ++ (y ∷ (ys ++ behind)) =
        e ∙ sym (append_assoc kept (last ∷ junk) (y ∷ (ys ++ behind))) in
      rw regroup (
        get_or-append (kept ++ (last ∷ junk)) y zero_target (ys ++ behind) idx
          (omega (arith, length-append kept (last ∷ junk))))

  dedup_step :
      (left idx lst : ℕ) (arr : List Target) (x l : Target)
      → get_or arr idx zero_target ≡ x
      → get_or arr lst zero_target ≡ l
      → dedup_loop sorting (suc left) idx lst arr
        ≡ dedup_loop sorting left
            (idx + 1)
            (if sorting.same x l then lst else lst + 1)
            (if sorting.same x l then arr else set arr (lst + 1) x)
  unfolding dedup_loop
  dedup_step left idx lst arr x l p q = λ i.
      dedup_loop sorting left (idx + 1) (if sorting.same (p i) (q i) then lst else lst + 1)
        (if sorting.same (p i) (q i) then arr else set arr (lst + 1) (p i))

  pub dedup_loop_lem :
      (kept : List Target) (last : Target) (junk rest behind arr : List Target) (idx lst : ℕ)
      → arr ≡ layout kept last junk rest behind
      → idx ≡ length kept + length junk + 1
      → lst ≡ length kept
      → take
          (dedup_loop sorting (length rest) idx lst arr).nlen
          (dedup_loop sorting (length rest) idx lst arr).tg
        ≡ kept ++ dedup_from last rest
  unfolding dedup_from
  dedup_loop_lem kept last junk [] behind arr idx lst e hi hl =
      unfold dedup_loop in
      rw (e, ← append_assoc kept (last ∷ []) (junk ++ behind))
        (take-append (kept ++ (last ∷ [])) (junk ++ behind) (lst + 1)
          (omega (arith, length-append kept (last ∷ []))))
  dedup_loop_lem kept last junk (y ∷ ys) behind arr idx lst e hi hl =
      rw
        (dedup_step (length ys) idx lst arr y last
          (read_next kept last junk y ys behind arr idx e hi)
          (read_last kept last junk (y ∷ ys) behind arr lst e hl))
        (elim (Bool-cases (sorting.same y last)) [
          | inl skip ↦ rw skip (
              dedup_loop_lem kept last (junk ++ (y ∷ [])) ys behind arr (idx + 1) lst
                (e
                  ∙ ap (λ (l : List Target). kept ++ (last ∷ l))
                      (sym (append_assoc junk (y ∷ []) (ys ++ behind))))
                (omega (arith, length-append junk (y ∷ []))) hl)
          | inr differs ↦
              let (junk', q, size) = keep_one kept last y junk ys behind (lst + 1) (omega arith) in
              rw differs (
                dedup_loop_lem (kept ++ (last ∷ [])) y junk' ys behind (set arr (lst + 1) y)
                  (idx + 1) (lst + 1) (ap (λ (l : List Target). set l (lst + 1) y) e ∙ q)
                  (omega (arith, length-append kept (last ∷ [])))
                  (omega (arith, length-append kept (last ∷ [])))
                ∙ append_assoc kept (last ∷ []) (dedup_from y ys))
        ])
