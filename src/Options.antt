-- ===== src/Options.antt =====
-- The option machinery that src/ureq/config.c and src/ures/config.c both hold, in the same text:
-- the table of options, the string for getopt(3), and the loop over what getopt(3) returns.
pub mod Laws
pub mod Reading
pub mod Usage
use nemo_core.Prelude.{ℕ, ◌+◌, Bool, Option, none, some, List, [], ◌∷◌, ◌++◌, ◌==◌, if◌then◌else◌}
use nemo_core.Parse.{Text}

-- What an option's action did: changed the state, returned false, or left the process by exit(3).
pub data Action (S : Type 0) : Type 0 where
  next : S → Action S
  refused : Action S
  exits : Action S

-- `struct option`. The state is the configuration with the static counter of `option_a`.
pub record Opt (S : Type 0) : Type 0 where
  pub op_name : ℕ
  pub op_arg : Bool
  pub op_act : Text → S → Action S

-- One return of getopt(3): an option character with `optarg`. `b'?'` is an option unknown to it.
pub record Getopt : Type 0 where
  pub opt : ℕ
  pub optarg : Text

-- A store of the form `*out = x; return true` where a parser succeeded, else `return false`.
abbrev pub store : {S : Type 0} → Option ℕ → (ℕ → S) → Action S
store none f = refused
store (some x) f = next (f x)

module _ {S : Type 0} where
  -- The characters that `generate_getopt_string` writes from `sidx` on.
  unfoldable pub generate_getopt_string : List (Opt S) → Text
  generate_getopt_string [] = []
  generate_getopt_string (o ∷ opts) =
      o.op_name ∷ ((if o.op_arg then b':' ∷ [] else []) ++ generate_getopt_string opts)

  -- The inner loop: the action of the first option of that name. A character that no option has
  -- changes nothing.
  unfoldable pub run_option : List (Opt S) → Getopt → S → Action S
  run_option [] g s = next s
  run_option (o ∷ opts) g s =
      let rest = run_option opts g s in if o.op_name == g.opt then o.op_act g.optarg s else rest

  -- The outer loop, over what getopt(3) returns before its -1.
  unfoldable pub run_options : List (Opt S) → List Getopt → S → Action S
  run_options opts [] s = next s
  run_options opts (g ∷ gs) s = if g.opt == b'?' then refused else elim (run_option opts g s) [
    | next s' ↦ run_options opts gs s'
    | refused ↦ refused
    | exits ↦ exits
  ]
