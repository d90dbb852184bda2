-- ===== src/Options/Laws.antt =====
-- Invariants of the option loop, and the size of the getopt(3) string.
use nemo_core.Prelude.{
  ℕ, refl, Option, none, some, ◌*◌, ◌≤◌, ◌≡◌, List, [], ◌∷◌, ◌==◌, length, All, arith, Bool-cases,
  inl, inr,
}
use nemo_core.Options.{
  Action, next, refused, exits, Opt, Getopt, generate_getopt_string, run_option, run_options, store,
}

-- Whatever an action leads to holds the predicate.
abbrev pub Keeps : {S : Type 0} → (S → Type 0) → Action S → Type 0
Keeps P (next s) = P s
Keeps P refused = Unit
Keeps P exits = Unit

-- A stored value keeps the predicate if every value within the parser's bounds does.
pub store-Keeps :
    {S : Type 0} (P : S → Type 0) (o : Option ℕ) (lo hi : ℕ) (f : ℕ → S)
    → ((x : ℕ) → o ≡ some x → (lo ≤ x) × (x ≤ hi))
    → ((x : ℕ) → lo ≤ x → x ≤ hi → P (f x))
    → Keeps P (store o f)
store-Keeps P none lo hi f bounds keep = tt
store-Keeps P (some x) lo hi f bounds keep = keep x (bounds x refl).0 (bounds x refl).1

pub next-injective : {S : Type 0} {s t : S} → next s ≡ next t → s ≡ t
next-injective h = cc

module _ {S : Type 0} (P : S → Type 0) where
  abbrev pub EachKeeps : List (Opt S) → Type 0
  EachKeeps opts = All (λ o. (arg : List ℕ) (s : S) → P s → Keeps P (o.op_act arg s)) opts

  pub run_option-Keeps :
      (opts : List (Opt S)) (g : Getopt) (s : S)
      → EachKeeps opts
      → P s
      → Keeps P (run_option opts g s)
  unfolding run_option
  run_option-Keeps [] g s each h = h
  run_option-Keeps (o ∷ opts) g s each h = elim (Bool-cases (o.op_name == g.opt)) [
    | inl e ↦ rw e (each.0 g.optarg s h)
    | inr e ↦ rw e (run_option-Keeps opts g s each.1 h)
  ]

  -- An invariant that every option keeps is kept by the whole loop.
  pub run_options-Keeps :
      (opts : List (Opt S)) (gs : List Getopt) (s : S)
      → EachKeeps opts
      → P s
      → Keeps P (run_options opts gs s)
  unfolding run_options
  run_options-Keeps opts [] s each h = h
  run_options-Keeps opts (g ∷ gs) s each h = elim (Bool-cases (g.opt == b'?')) [
    | inl e ↦ rw e tt
    | inr e ↦ rw e (
        go (run_option opts g s) (run_option-Keeps opts g s each h)
          (λ s' k. run_options-Keeps opts gs s' each k))
  ]
    where
      go :
          (a : Action S)
          → Keeps P a
          → ((s' : S) → P s' → Keeps P (run_options opts gs s'))
          → Keeps P
              (elim a [ next s' ↦ run_options opts gs s' | refused ↦ refused | exits ↦ exits ])
      go (next s') k later = later s' k
      go refused k later = tt
      go exits k later = tt

-- The string fits a buffer of two characters for each option and the NUL.
pub length-generate_getopt_string :
    {S : Type 0} (opts : List (Opt S)) → length (generate_getopt_string opts) ≤ 2 * length opts
unfolding generate_getopt_string
length-generate_getopt_string [] = omega arith
length-generate_getopt_string (o ∷ opts) = elim (Bool-cases o.op_arg) [
  | inl e ↦ rw e (omega (arith, length-generate_getopt_string opts))
  | inr e ↦ rw e (omega (arith, length-generate_getopt_string opts))
]
