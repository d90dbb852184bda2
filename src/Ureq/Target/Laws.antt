-- ===== src/Ureq/Target/Laws.antt =====
-- `normalize_targets` keeps each target once.
use nemo_core.Prelude.{
  In, ℕ, zero, suc, ◌-◌, ◌≤◌, ◌≡◌, ◌↔◌, refl, sym, ap, ◌∙◌, true, false, List, [], ◌∷◌, ◌++◌,
  length, length-take, take, drop, arith, Bool-cases, inl, inr,
}
use mathlib.Core.Path.{subst}
use nemo_core.Ureq.Target.{Target, Sorting, normalize_targets, dedup_loop}
use nemo_core.Ureq.Target.Dedup.{dedup_from, dedup_loop_lem}

abbrev pub IsSorted : (Target → Target → Type 0) → List Target → Type 0
IsSorted le [] = Unit
IsSorted le (x ∷ xs) = ((t : Target) → In t xs → le x t) × IsSorted le xs

-- No element twice.
abbrev pub IsDistinct : List Target → Type 0
IsDistinct [] = Unit
IsDistinct (x ∷ xs) = ¬ (In x xs) × IsDistinct xs

-- What the C library documents: memcmp(3) is 0 for equal targets only and orders them, and qsort(3)
-- gives the elements of the array in that order.
pub record IsSorting (s : Sorting) (arr : List Target) : Type 1 where
  pub le : Target → Target → Type 0
  pub le_antisymm : (a b : Target) → le a b → le b a → a ≡ b
  pub same_iff : (a b : Target) → (s.same a b ≡ true) ↔ (a ≡ b)
  pub qsort-IsSorted : IsSorted le (s.qsort arr)
  pub In-qsort : (t : Target) → In t (s.qsort arr) ↔ In t arr
  pub length-qsort : length (s.qsort arr) ≡ length arr

module _ (s : Sorting) (arr : List Target) (law : IsSorting s arr) where
  In-dedup_from :
      (last : Target) (xs : List Target) (t : Target)
      → In t (dedup_from s last xs) ↔ In t (last ∷ xs)
  unfolding dedup_from
  In-dedup_from last [] t = (λ h. h, λ h. h)
  In-dedup_from last (x ∷ xs) t = elim (Bool-cases (s.same x last)) [
    | inl e ↦
        let twin : x ≡ last = (law.same_iff x last).0 e in
        let ih = In-dedup_from last xs t in
        rw e (
          λ h. elim (ih.0 h) [ inl q ↦ inl q | inr q ↦ inr (inr q) ],
          λ h. ih.1 (elim h [
            | inl q ↦ inl q
            | inr q ↦ elim q [ inl p ↦ inl (p ∙ twin) | inr p ↦ inr p ]
          ]),
        )
    | inr e ↦
        let ih = In-dedup_from x xs t in
        rw e (
          λ h. elim h [ inl q ↦ inl q | inr q ↦ inr (ih.0 q) ],
          λ h. elim h [ inl q ↦ inl q | inr q ↦ inr (ih.1 q) ],
        )
  ]

  dedup_from-IsDistinct :
      (last : Target) (xs : List Target)
      → IsSorted law.le (last ∷ xs)
      → IsDistinct (dedup_from s last xs)
  unfolding dedup_from
  dedup_from-IsDistinct last [] h = (λ e. e, tt)
  dedup_from-IsDistinct last (x ∷ xs) (low, (low2, rest)) = elim (Bool-cases (s.same x last)) [
    | inl e ↦ rw e (dedup_from-IsDistinct last xs (λ t q. low t (inr q), rest))
    | inr e ↦ rw e (
      λ again.
          let back : law.le x last = elim ((In-dedup_from x xs last).0 again) [
            | inl p ↦ subst (λ u. law.le x u) (sym p) (subst (λ u. law.le u x) p (low x (inl refl)))
            | inr p ↦ low2 last p
          ] in
          let twin : x ≡ last = law.le_antisymm x last back (low x (inl refl)) in
          absurd (false_true (sym e ∙ (law.same_iff x last).1 twin)),
      dedup_from-IsDistinct x xs (low2, rest),
    )
  ]
    where
      false_true : false ≡ true → ⊥
      false_true h = cc

  -- A sorted array after the loop.
  swept :
      (olen : ℕ) (sorted behind : List Target)
      → length sorted ≡ suc olen
      → s.qsort arr ≡ sorted
      → (let n = dedup_loop s olen 1 0 (sorted ++ behind) in
          IsDistinct (take n.nlen n.tg) × ((t : Target) → In t (take n.nlen n.tg) ↔ In t arr))
  swept olen [] behind size e = absurd (omega arith)
  swept olen (x ∷ rest) behind size e =
      let count : olen ≡ length rest = omega arith in
      let kept =
        ap
          (λ k.
            take (dedup_loop s k 1 0 (x ∷ (rest ++ behind))).nlen
              (dedup_loop s k 1 0 (x ∷ (rest ++ behind))).tg)
          count
        ∙ dedup_loop_lem s [] x [] rest behind (x ∷ (rest ++ behind)) 1 0 refl refl refl in
      rw kept (
        dedup_from-IsDistinct x rest (subst (IsSorted law.le) e law.qsort-IsSorted),
        λ t.
            let a = In-dedup_from x rest t in
            let b = subst (λ l. In t l ↔ In t arr) e (law.In-qsort t) in
            (λ h. b.0 (a.0 h), λ h. a.1 (b.1 h)),
      )

pub several :
    (s : Sorting) (tg : List Target) (olen : ℕ)
    → 2 ≤ olen
    → normalize_targets s tg olen
      ≡ dedup_loop s (olen - 1) 1 0 (s.qsort (take olen tg) ++ drop olen tg)
unfolding normalize_targets
several s tg olen h = ground arith

-- The elements that `normalize_targets` keeps of an array's first `olen` are those elements, each
-- once. Sorting and comparing them must be as the C library documents.
pub normalize_targets_lem :
    (s : Sorting) (tg : List Target) (olen : ℕ)
    → IsSorting s (take olen tg)
    → olen ≤ length tg
    → (let n = normalize_targets s tg olen in
        IsDistinct (take n.nlen n.tg)
        × ((t : Target) → In t (take n.nlen n.tg) ↔ In t (take olen tg)))
unfolding normalize_targets
normalize_targets_lem s tg zero law h = (tt, λ t. (λ q. q, λ q. q))
normalize_targets_lem s [] (suc zero) law h = absurd (omega arith)
normalize_targets_lem s (x ∷ tg) (suc zero) law h = ((λ q. q, tt), λ t. (λ q. q, λ q. q))
normalize_targets_lem s tg (suc (suc m)) law h = rw (several s tg (suc (suc m)) (omega arith)) (
    swept s (take (suc (suc m)) tg) law (suc (suc m) - 1) (s.qsort (take (suc (suc m)) tg))
      (drop (suc (suc m)) tg) (omega (arith, length-take (suc (suc m)) tg, law.length-qsort)) refl)
