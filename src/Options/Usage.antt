-- ===== src/Options/Usage.antt =====
-- Reading the usage texts that `print_usage` gives to printf(3) in both config.c files.
use nemo_core.Prelude.{
  ℕ, Bool, true, false, not, ◌&&◌, ◌||◌, List, [], ◌∷◌, ◌++◌, ◌==◌, map, if◌then◌else◌,
}
use nemo_core.Parse.{Text}
use nemo_core.Options.{Opt}

-- A call of printf(3).
pub record Printf : Type 0 where
  pub format : Text
  pub args : List ℕ

-- The characters behind a percent sign.
abbrev pub conversions : Text → List ℕ
conversions [] = []
conversions (c ∷ []) = []
conversions (c ∷ d ∷ cs) = let rest = conversions (d ∷ cs) in if c == b'%' then d ∷ rest else rest

-- An option that a line describes: "  -c " and a capital letter if it takes an argument.
abbrev pub option_of : Text → List (ℕ × Bool)
option_of (a ∷ b ∷ dash ∷ name ∷ c ∷ arg ∷ cs) =
    if dash == b'-' then (name, not (arg == b' ')) ∷ [] else []
option_of cs = []

-- The options that lines describe.
abbrev pub described : List Text → List (ℕ × Bool)
described [] = []
described (l ∷ ls) = option_of l ++ described ls

abbrev pub table : {S : Type 0} → List (Opt S) → List (ℕ × Bool)
table opts = map (λ o. (o.op_name, o.op_arg)) opts

abbrev pub xor : Bool → Bool → Bool
xor true b = not b
xor false b = b

abbrev pub same_option : ℕ × Bool → ℕ × Bool → Bool
same_option x y = (x.0 == y.0) && not (xor x.1 y.1)

abbrev pub is_in : ℕ × Bool → List (ℕ × Bool) → Bool
is_in x [] = false
is_in x (y ∷ ys) = same_option x y || is_in x ys

-- The options of the first list that the second lacks.
abbrev pub missing : List (ℕ × Bool) → List (ℕ × Bool) → List (ℕ × Bool)
missing [] ys = []
missing (x ∷ xs) ys = let rest = missing xs ys in if is_in x ys then rest else x ∷ rest
