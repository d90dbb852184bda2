-- ===== src/Log.antt =====
-- src/common/log.c: the lines of the log, and the highlighting of their substitutions. A C string is
-- the list of its bytes before the NUL; a buffer is the list of all its bytes.
pub mod Filled
pub mod Marked
pub mod Laws
use nemo_core.Prelude.{
  ℕ, [], zero, suc, ◌+◌, ◌-◌, Bool, ◌&&◌, ◌||◌, Option, none, some, List, ◌∷◌, ◌++◌, length, take,
  drop, get_elem?, replicate, ltb, ◌==◌, if◌then◌else◌,
}
use nemo_core.Word.{u64}
use nemo_core.Parse.{Text}

abbrev pub log_max_length : ℕ
log_max_length = 128

abbrev pub ll_error : ℕ
ll_error = 0

abbrev pub ll_trace : ℕ
ll_trace = 4

-- A buffer that is written from its start, and the number of bytes written.
pub record Buffer : Type 0 where
  pub out : List ℕ
  pub cur : ℕ

unfoldable pub append : Buffer → Text → ℕ → Buffer
append b inp max =
    let rem = u64 (max + 18446744073709551616 - b.cur) in
    let len = length inp in
    let act = if ltb rem len then rem else len in
    if b.cur == max then b else record {
      out = take b.cur b.out ++ (take act inp ++ drop (b.cur + act) b.out);
      cur = u64 (b.cur + act);
    }

-- `strchr(str, '%')`: what stands before the first percent sign, and the rest from it on.
unfoldable pub split_percent : Text → Option (Text × Text)
split_percent [] = none
split_percent (c ∷ cs) =
    if c == b'%'
    then some ([], c ∷ cs)
    else elim (split_percent cs) [ none ↦ none | some (before, rest) ↦ some (c ∷ before, rest) ]

-- The letters of `strpbrk(pcent, "cdfghopsux")`.
abbrev pub is_conversion : ℕ → Bool
is_conversion c =
    (c == b'c' || c == b'd' || c == b'f' || c == b'g' || c == b'h')
    || (c == b'o' || c == b'p' || c == b's' || c == b'u' || c == b'x')

-- The text up to the first such letter and with it, and what is behind.
unfoldable pub split_conversion : Text → Option (Text × Text)
split_conversion [] = none
split_conversion (c ∷ cs) =
    if is_conversion c
    then some (c ∷ [], cs)
    else elim (split_conversion cs) [ none ↦ none | some (before, rest) ↦ some (c ∷ before, rest) ]

-- "\x1b[1m" and "\x1b[0m".
abbrev pub bold : Text
bold = 27 ∷ b'[' ∷ b'1' ∷ b'm' ∷ []

abbrev pub reset : Text
reset = 27 ∷ b'[' ∷ b'0' ∷ b'm' ∷ []

-- The loop over the copy of the input. Each round but the last moves past a percent sign, so the
-- length of the text is enough fuel.
unfoldable pub highlight_loop : ℕ → Buffer → Text → ℕ → Buffer
unfolding append split_percent split_conversion
highlight_loop zero b str max = b
highlight_loop (suc fuel) b str max = elim (split_percent str) [
  | none ↦ append b str max
  | some (before, pcent) ↦
      let opened = append (append b before max) bold max in
      elim (split_conversion pcent) [
        | none ↦ append (append opened pcent max) reset max
        | some (conversion, rest) ↦
            highlight_loop fuel (append (append opened conversion max) reset max) rest max
      ]
]

-- The buffer of `len` bytes after the call.
unfoldable pub highlight : Text → ℕ → List ℕ
unfolding highlight_loop
highlight inp len =
    let cpy = take (log_max_length - 1) inp in
    let max = u64 (len + 18446744073709551616 - 5) in
    let start : Buffer = record { out = replicate len 0; cur = 0 } in
    (append (highlight_loop (suc (length cpy)) start cpy max) reset max).out

-- The bytes of a buffer before its first NUL.
unfoldable pub c_string : List ℕ → Text
c_string [] = []
c_string (c ∷ cs) = if c == 0 then [] else c ∷ c_string cs

-- The two globals.
pub record Settings : Type 0 where
  pub log_lvl : ℕ
  pub log_col : Bool

abbrev pub lname : List Text
lname =
    (b'E' ∷ b'R' ∷ b'R' ∷ b'O' ∷ b'R' ∷ [])
    ∷ (b' ' ∷ b'W' ∷ b'A' ∷ b'R' ∷ b'N' ∷ [])
    ∷ (b' ' ∷ b'I' ∷ b'N' ∷ b'F' ∷ b'O' ∷ [])
    ∷ (b'D' ∷ b'E' ∷ b'B' ∷ b'U' ∷ b'G' ∷ [])
    ∷ (b'T' ∷ b'R' ∷ b'A' ∷ b'C' ∷ b'E' ∷ [])
    ∷ []

-- The two digits of the color.
abbrev pub lcol : List Text
lcol =
    (b'3' ∷ b'1' ∷ [])
    ∷ (b'3' ∷ b'3' ∷ [])
    ∷ (b'3' ∷ b'2' ∷ [])
    ∷ (b'3' ∷ b'4' ∷ [])
    ∷ (b'3' ∷ b'5' ∷ [])
    ∷ []

-- What the call does: nothing, a line on the standard error stream, or a write or read beyond one of
-- its arrays.
pub data Logged : Type 0 where
  silent overrun : Logged
  line : Text → Logged

-- The text of the level, in color or not.
abbrev pub level_name : Bool → ℕ → Option Text
level_name col lvl = elim (get_elem? lname lvl) [
  | none ↦ none
  | some name ↦
      if col
      then elim (get_elem? lcol lvl) [
        | none ↦ none
        | some color ↦ some (27 ∷ b'[' ∷ (color ++ (b'm' ∷ (name ++ reset))))
      ]
      else some name
]

-- The rest of the call, with the highlighted format: `vsprintf` gives the message for a format with
-- the arguments of the call, `strerror` the text of the saved errno, `tstr` is the formatted time.
unfoldable pub print_line : Bool → (Text → Text) → Text → Text → ℕ → Bool → Text → Logged
print_line col vsprintf strerror tstr lvl perr hfmt =
    let msg = vsprintf hfmt in
    let errmsg = if perr then b':' ∷ b' ' ∷ strerror else [] in
    let fits = ltb (length msg) log_max_length && ltb (length errmsg) log_max_length in
    elim (level_name col lvl) [
      | none ↦ overrun
      | some lstr ↦
          if fits
          then line (
              (b'[' ∷ tstr)
              ++ (b']' ∷ b' ' ∷ (lstr ++ (b' ' ∷ b'-' ∷ b' ' ∷ (msg ++ (errmsg ++ (10 ∷ [])))))))
          else overrun
    ]

-- Without colors the format is copied into its array as it is.
unfoldable pub log : Settings → (Text → Text) → Text → Text → ℕ → Bool → Text → Logged
unfolding highlight c_string print_line
log g vsprintf strerror tstr lvl perr fmt =
    if ltb g.log_lvl lvl
    then silent
    else if g.log_col
    then print_line g.log_col vsprintf strerror tstr lvl perr
        (c_string (highlight fmt log_max_length))
    else if ltb (length fmt) log_max_length
    then print_line g.log_col vsprintf strerror tstr lvl perr fmt
    else overrun
