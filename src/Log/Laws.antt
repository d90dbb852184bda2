-- ===== src/Log/Laws.antt =====
-- src/common/log.c, highlight and log: highlighting against a plain description of it, and what a
-- call of the log prints.
use mathlib.Core.Path.{subst}
use Prim.Native.Nat.{min}
use nemo_core.Prelude.{
  ℕ, zero, suc, ◌+◌, ◌-◌, ◌^◌, ◌≤◌, ◌<◌, ◌≡◌, refl, sym, ap, ap₂, ◌∙◌, Bool, true, false, none,
  some, [], ◌∷◌, ◌++◌, length, take, replicate, ltb, if◌then◌else◌, arith, Option-cases, inl, inr,
}
use mathlib.Core.List.{append_assoc}
use nemo_core.Word.{u64}
use nemo_core.Parse.{Text}
use nemo_core.Log.{
  ll_trace, c_string, line, print_line, log, level_name, log_max_length, append, split_percent,
  split_conversion, bold, reset, highlight_loop, highlight,
}
use nemo_core.Log.Filled.{take_all, buffer, filled, append-filled}
use nemo_core.Log.Marked.{
  marked, Opens, opens, Closes, closes, IsText, marked-IsText, take-IsText, append-IsText,
  c_string_zeros,
}

module _ (len max : ℕ) (room : max ≤ len) (small : len < 2 ^ 64) where
  -- Four calls, as around a substitution.
  append_four :
      (t a b c d : Text)
      → append (append (append (append (filled len max t) a max) b max) c max) d max
        ≡ filled len max (t ++ (a ++ (b ++ (c ++ d))))
  append_four t a b c d =
      let put = append-filled len max room small in
      rw (put t a, put (t ++ a) b, put ((t ++ a) ++ b) c, put (((t ++ a) ++ b) ++ c) d)
        (ap (filled len max) (simp append_assoc refl))

  highlight_loop-marked :
      (fuel : ℕ) (t str : Text)
      → length str < fuel
      → highlight_loop fuel (filled len max t) str max ≡ filled len max (t ++ marked false str)
  unfolding highlight_loop
  highlight_loop-marked zero t str h = absurd (omega arith)
  highlight_loop-marked (suc fuel) t str h = elim (Option-cases (split_percent str)) [
    | inl e ↦
        let m : Opens str none = subst (Opens str) e (opens str) in
        rw (highlight_loop, e, m) (append-filled len max room small t str)
    | inr ((before, pcent), e) ↦
        let m : Opens str (some (before, pcent)) = subst (Opens str) e (opens str) in
        elim (Option-cases (split_conversion pcent)) [
          | inl k ↦
              let n : Closes pcent none = subst (Closes pcent) k (closes pcent) in
              let text : marked false str ≡ before ++ (bold ++ (pcent ++ reset)) =
                m.0 ∙ ap (λ s. before ++ (bold ++ s)) n in
              rw (highlight_loop, e, k, text) (append_four t before bold pcent reset)
          | inr ((conversion, rest), k) ↦
              let n : Closes pcent (some (conversion, rest)) =
                subst (Closes pcent) k (closes pcent) in
              let l : length pcent ≤ length str = m.1 in
              let q : length rest < length pcent = n.1 in
              let text : marked false str
                  ≡ before ++ (bold ++ (conversion ++ (reset ++ marked false rest))) =
                m.0 ∙ ap (λ s. before ++ (bold ++ s)) n.0 in
              rw (highlight_loop, e, k, text, append_four t before bold conversion reset)
                (highlight_loop-marked fuel (t ++ (before ++ (bold ++ (conversion ++ reset)))) rest
                    (omega arith)
                  ∙ ap (filled len max) (simp append_assoc refl))
        ]
  ]

-- For a length that has room for the last escape code and the NUL, highlighting is the plain
-- description of the first 127 bytes, cut to `len - 5` bytes, in a buffer that is zero behind it.
pub highlight_lem :
    (inp : Text) (len : ℕ)
    → 5 ≤ len
    → len < 2 ^ 64
    → highlight inp len
      ≡ take (len - 5) (marked false (take (log_max_length - 1) inp) ++ reset)
        ++ replicate
            (len - min (len - 5) (length (marked false (take (log_max_length - 1) inp) ++ reset)))
            0
unfolding highlight
highlight_lem inp len h small =
    let cpy = take (log_max_length - 1) inp in
    let room : len - 5 ≤ len = omega arith in
    let max : u64 (len + 18446744073709551616 - 5) ≡ len - 5 = ground arith in
    let text : take (len - 5) [] ≡ [] = take_all (len - 5) [] (omega arith) in
    let zero_cur : min (len - 5) 0 ≡ 0 = omega arith in
    let whole : len - 0 ≡ len = omega arith in
    let start : buffer (replicate len 0) 0 ≡ filled len (len - 5) [] = sym (
      ap₂ (λ s k. buffer (s ++ replicate (len - k) 0) k) text zero_cur
      ∙ ap (λ k. buffer (replicate k 0) 0) whole) in
    ap (λ b. b.out)
      (ap
          (λ m.
            append (highlight_loop (suc (length cpy)) (buffer (replicate len 0) 0) cpy m) reset m)
          max
        ∙ ap (λ b. append (highlight_loop (suc (length cpy)) b cpy (len - 5)) reset (len - 5)) start
        ∙ ap (λ b. append b reset (len - 5))
            (highlight_loop-marked len (len - 5) room small (suc (length cpy)) [] cpy (omega arith))
        ∙ append-filled len (len - 5) room small (marked false cpy) reset)

-- The string in the buffer: at most `len - 5` bytes.
pub c_string-highlight :
    (inp : Text) (len : ℕ)
    → 5 ≤ len
    → len < 2 ^ 64
    → IsText inp
    → c_string (highlight inp len)
      ≡ take (len - 5) (marked false (take (log_max_length - 1) inp) ++ reset)
c_string-highlight inp len h small k =
    let whole = marked false (take (log_max_length - 1) inp) ++ reset in
    let text : IsText (take (len - 5) whole) = take-IsText (len - 5) whole (
      append-IsText (marked false (take (log_max_length - 1) inp)) reset
        (marked-IsText false (take (log_max_length - 1) inp)
          (take-IsText (log_max_length - 1) inp k))
        (refl, (refl, (refl, (refl, tt))))) in
    let more : len - min (len - 5) (length whole) ≡ suc (len - min (len - 5) (length whole) - 1) =
      omega arith in
    ap c_string
      (highlight_lem inp len h small ∙ ap (λ n. take (len - 5) whole ++ replicate n 0) more)
    ∙ c_string_zeros (take (len - 5) whole) (len - min (len - 5) (length whole) - 1) text

level_name_known : (lvl : ℕ) → lvl ≤ ll_trace → (lstr : Text) × (level_name true lvl ≡ some lstr)
level_name_known zero h = (_, refl)
level_name_known (suc zero) h = (_, refl)
level_name_known (suc (suc zero)) h = (_, refl)
level_name_known (suc (suc (suc zero))) h = (_, refl)
level_name_known (suc (suc (suc (suc zero)))) h = (_, refl)
level_name_known (suc (suc (suc (suc (suc lvl))))) h = absurd (omega arith)

ltb-true : (a b : ℕ) → a < b → ltb a b ≡ true
ltb-true a b h = ground arith

print_line_fits :
    (col : Bool) (vsprintf : Text → Text) (strerror tstr : Text) (lvl : ℕ) (perr : Bool)
    (hfmt lstr : Text)
    → level_name col lvl ≡ some lstr
    → length (vsprintf hfmt) < log_max_length
    → length strerror + 2 < log_max_length
    → print_line col vsprintf strerror tstr lvl perr hfmt
      ≡ line (
          (b'[' ∷ tstr)
          ++ (b']'
              ∷ b' '
              ∷ (lstr
                  ++ (b' '
                      ∷ b'-'
                      ∷ b' '
                      ∷ (vsprintf hfmt
                          ++ ((if perr then b':' ∷ b' ' ∷ strerror else []) ++ (10 ∷ [])))))))
unfolding print_line
print_line_fits col vsprintf strerror tstr lvl true hfmt lstr name fits err =
    let here : ltb (length (vsprintf hfmt)) log_max_length ≡ true = ltb-true _ _ fits in
    let there : ltb (suc (suc (length strerror))) log_max_length ≡ true =
      ltb-true _ _ (omega arith) in
    rw (print_line, name, here, there) refl
print_line_fits col vsprintf strerror tstr lvl false hfmt lstr name fits err =
    let here : ltb (length (vsprintf hfmt)) log_max_length ≡ true = ltb-true _ _ fits in
    rw (print_line, name, here) refl

-- What a colored line consists of, for a message that fits in its array.
pub log_colored :
    (threshold : ℕ) (vsprintf : Text → Text) (strerror tstr : Text) (lvl : ℕ) (perr : Bool)
    (fmt : Text)
    → lvl ≤ threshold
    → lvl ≤ ll_trace
    → IsText fmt
    → let hfmt =
        take (log_max_length - 5) (marked false (take (log_max_length - 1) fmt) ++ reset) in
      length (vsprintf hfmt) < log_max_length
      → length strerror + 2 < log_max_length
      → (lstr : Text) × (level_name true lvl ≡ some lstr)
        × (log (record { log_lvl = threshold; log_col = true }) vsprintf strerror tstr lvl perr fmt
            ≡ line (
                (b'[' ∷ tstr)
                ++ (b']'
                    ∷ b' '
                    ∷ (lstr
                        ++ (b' '
                            ∷ b'-'
                            ∷ b' '
                            ∷ (vsprintf hfmt
                                ++ ((if perr then b':' ∷ b' ' ∷ strerror else [])
                                    ++ (10 ∷ []))))))))
unfolding log
log_colored threshold vsprintf strerror tstr lvl perr fmt low known text fits err =
    let (lstr, name) = level_name_known lvl known in
    let big : 128 < 2 ^ 64 = omega arith in
    let hfmt : c_string (highlight fmt log_max_length)
        ≡ take (log_max_length - 5) (marked false (take (log_max_length - 1) fmt) ++ reset) =
      c_string-highlight fmt log_max_length (omega arith) big text in
    let quiet : ltb threshold lvl ≡ false = ground arith in
    (
      lstr,
      name,
      rw (log, quiet)
          (ap (print_line true vsprintf strerror tstr lvl perr) hfmt
            ∙ print_line_fits true vsprintf strerror tstr lvl perr _ lstr name fits err),
    )
