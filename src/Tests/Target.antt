-- ===== src/Tests/Target.antt =====
-- src/ureq/target.c at concrete inputs.
use nemo_core.Prelude.{
  In, ℕ, ◌<◌, ◌≡◌, sym, ◌↔◌, ◌⊎◌, inl, inr, refl, Bool, true, false, ◌&&◌, Option, none, some,
  length, suc, List, [], ◌∷◌, ◌++◌, map, take, replicate, if◌then◌else◌, ltb, ◌==◌, arith,
}
use mathlib.Core.Path.{subst}
use nemo_core.Parse.{Text}
use nemo_core.Ureq.Config.{Config, set_defaults}
use nemo_core.Ureq.Target.{Target, Resolver, Sorting, normalize_targets}
use nemo_core.Ureq.Target.Laws.{IsDistinct, IsSorting, normalize_targets_lem}

abbrev pub first_name : Text
first_name = b'a' ∷ []

abbrev pub same_name : Option ℕ → Option ℕ → Bool
same_name none none = true
same_name (some a) (some b) = a == b
same_name _ _ = false

abbrev pub same_target : Target → Target → Bool
same_target a b =
    same_name a.tg_name b.tg_name && (a.tg_laddr == b.tg_laddr && a.tg_haddr == b.tg_haddr)

abbrev pub insert : Target → List Target → List Target
insert t [] = t ∷ []
insert t (x ∷ xs) =
    let behind = insert t xs in if ltb x.tg_laddr t.tg_laddr then x ∷ behind else t ∷ x ∷ xs

abbrev pub sort : List Target → List Target
sort [] = []
sort (x ∷ xs) = insert x (sort xs)

abbrev pub sorting : Sorting
sorting = record { same = same_target; qsort = sort }

abbrev pub target : ℕ → Target
target a = record { tg_name = none; tg_laddr = a; tg_haddr = 0 }

abbrev three : List Target
three = target 7 ∷ target 5 ∷ target 7 ∷ []

same_self : (a : Target) → same_target a a ≡ true
same_self a = go a.tg_name refl
  where
    go : (m : Option ℕ) → a.tg_name ≡ m → same_target a a ≡ true
    go none p = ground arith
    go (some x) p = ground arith

same_target_iff : (a b : Target) → (same_target a b ≡ true) ↔ (a ≡ b)
same_target_iff a b = (
  λ h. go a.tg_name b.tg_name refl refl h,
  λ h. subst (λ u. same_target a u ≡ true) h (same_self a),
)
  where
    go : (m n : Option ℕ) → a.tg_name ≡ m → b.tg_name ≡ n → same_target a b ≡ true → a ≡ b
    go none none p q h = ground arith
    go none (some y) p q h = ground arith
    go (some x) none p q h = ground arith
    go (some x) (some y) p q h = ground arith

sorted5 : (t : Target) → In t (target 7 ∷ target 7 ∷ []) → (5 < t.tg_laddr) ⊎ (target 5 ≡ t)
sorted5 t h = inl (elim h [
  | inl e ↦ rw e (omega arith)
  | inr e ↦ elim e [ inl e' ↦ rw e' (omega arith) | inr e' ↦ absurd e' ]
])

three-IsSorting : IsSorting sorting (take 3 three)
three-IsSorting = record {
  le = λ a b. (a.tg_laddr < b.tg_laddr) ⊎ (a ≡ b);
  le_antisymm = λ a b p q. ground arith;
  same_iff = same_target_iff;
  qsort-IsSorted = (
    λ t h. sorted5 t h,
    (λ t h. elim h [ inl e ↦ inr (sym e) | inr e ↦ absurd e ], (λ t h. absurd h, tt)),
  );
  In-qsort = λ t. (λ h. ground arith, λ h. ground arith);
  length-qsort = refl;
}

normalize_targets_lem_example :
    IsDistinct
      (take (normalize_targets sorting three 3).nlen (normalize_targets sorting three 3).tg)
    × ((t : Target)
        → In t
            (take (normalize_targets sorting three 3).nlen (normalize_targets sorting three 3).tg)
          ↔ In t (take 3 three))
normalize_targets_lem_example = normalize_targets_lem sorting three 3 three-IsSorting (omega arith)

-- Names of one byte are addresses.
abbrev pub resolver : Resolver
resolver = record {
  pton4 = λ t. elim t [ [] ↦ none | ◌∷◌ c cs ↦ some c ];
  pton6 = λ t. none;
  getaddrinfo4 = λ t. none;
  getaddrinfo6 = λ t. none;
}

abbrev three_names : Config
three_names = record set_defaults {
  cf_tg = map some (first_name ∷ (b'b' ∷ []) ∷ (b'c' ∷ []) ∷ []) ++ (none ∷ replicate 60 none);
}

length-insert : (t : Target) (l : List Target) → length (insert t l) ≡ suc (length l)
length-insert t [] = refl
length-insert t (x ∷ xs) = ground (arith, length-insert t xs)

pub length-sort : (l : List Target) → length (sort l) ≡ length l
length-sort [] = refl
length-sort (x ∷ xs) = omega (arith, length-insert x (sort xs), length-sort xs)
