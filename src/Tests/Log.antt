-- ===== src/Tests/Log.antt =====
-- src/common/log.c at concrete inputs.
use nemo_core.Prelude.{◌-◌, ◌≡◌, refl, false, [], ◌∷◌, ◌++◌, take, replicate, length, arith}
use Prim.Native.Nat.{min}
use nemo_core.Parse.{Text}
use nemo_core.Log.{
  append, split_percent, split_conversion, highlight_loop, highlight, log_max_length, reset,
}
use nemo_core.Log.Laws.{highlight_lem}
use nemo_core.Log.Marked.{marked}

-- "a %s b"
abbrev format : Text
format = b'a' ∷ b' ' ∷ b'%' ∷ b's' ∷ b' ' ∷ b'b' ∷ []

highlighted :
    take 19 (highlight format 128)
    ≡ b'a' ∷ b' ' ∷ 27 ∷ b'[' ∷ b'1' ∷ b'm' ∷ b'%' ∷ b's' ∷ 27 ∷ b'[' ∷ b'0' ∷ b'm' ∷ b' ' ∷ b'b'
      ∷ 27 ∷ b'[' ∷ b'0' ∷ b'm' ∷ 0 ∷ []
unfolding highlight highlight_loop append split_percent split_conversion
highlighted = refl

-- A format that fills the array: the last escape code is missing from it.
cut : take 11 (highlight (replicate 9 b'x') 11) ≡ replicate 6 b'x' ++ replicate 5 0
unfolding highlight highlight_loop append split_percent split_conversion
cut = refl

highlight_lem_example :
    highlight format 11
    ≡ take (11 - 5) (marked false (take (log_max_length - 1) format) ++ reset)
      ++ replicate
          (11 - min (11 - 5) (length (marked false (take (log_max_length - 1) format) ++ reset)))
          0
highlight_lem_example = highlight_lem format 11 (omega arith) (omega arith)
