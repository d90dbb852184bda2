-- ===== src/Options/Reading.antt =====
-- The string of `generate_getopt_string` as getopt(3) reads it.
use nemo_core.Prelude.{
  ℕ, ◌≡◌, ◌≢◌, refl, Bool, false, Option, none, some, List, [], ◌∷◌, ◌==◌, All, if◌then◌else◌,
  arith,
}
use nemo_core.Parse.{Text}
use nemo_core.Options.{Opt, generate_getopt_string}

abbrev pub starts_with_colon : Text → Bool
starts_with_colon [] = false
starts_with_colon (x ∷ xs) = x == b':'

-- What POSIX says of the string: a character of it is an option, which takes an argument if a colon
-- follows. `none` is an unknown option.
abbrev pub look_up : Text → ℕ → Option Bool
look_up [] c = none
look_up (x ∷ xs) c =
    let later = look_up xs c in if x == c then some (starts_with_colon xs) else later

module _ {S : Type 0} where
  -- The first option of that name in the table.
  abbrev pub takes_argument : List (Opt S) → ℕ → Option Bool
  takes_argument [] c = none
  takes_argument (o ∷ opts) c =
      let later = takes_argument opts c in if o.op_name == c then some o.op_arg else later

  abbrev pub AreNames : List (Opt S) → Type 0
  AreNames = All (λ (o : Opt S). o.op_name ≢ b':')

  no_colon :
      (opts : List (Opt S))
      → AreNames opts
      → starts_with_colon (generate_getopt_string opts) ≡ false
  unfolding generate_getopt_string
  no_colon [] h = refl
  no_colon (o ∷ opts) (name, h) = ground arith

  -- For each character but the colon, getopt(3) finds in the generated string what the table says:
  -- whether there is an option of that name, and whether the first of them takes an argument. No
  -- option may be named by a colon.
  pub look_up-generate_getopt_string :
      (opts : List (Opt S)) (c : ℕ)
      → AreNames opts
      → c ≢ b':'
      → look_up (generate_getopt_string opts) c ≡ takes_argument opts c
  unfolding generate_getopt_string
  look_up-generate_getopt_string [] c h other = refl
  look_up-generate_getopt_string (o ∷ opts) c (name, h) other =
      let rest = look_up-generate_getopt_string opts c h other in
      let start = no_colon opts h in ground arith
