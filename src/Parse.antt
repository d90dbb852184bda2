-- ===== src/Parse.antt =====
-- src/common/parse.c: numbers, units and bounded quantities from option arguments. The C library
-- functions that read the text are parameters; a result is `none` where the code returns false
-- and leaves `*out` alone.
pub mod Laws
use nemo_core.Prelude.{
  ℕ, ◌*◌, ◌/◌, Bool, true, false, ◌&&◌, ◌||◌, Option, none, some, List, [], ◌∷◌, length, ltb, ◌==◌,
  ◌!=◌, if◌then◌else◌,
}
use nemo_core.Word.{u32, u64}

-- The bytes of a string before its NUL.
abbrev pub Text : Type 0
Text = List ℕ

-- What `strtoumax(str, NULL, 10)` returns, and whether it set `errno`.
pub record Converted : Type 0 where
  pub value : ℕ
  pub failed : Bool

-- What `sscanf(inp, "%" SCNu64 "%2s%n", &num, unit, &adv)` returns (`none` is EOF) and leaves in
-- its arguments.
pub record Scanned : Type 0 where
  pub count : Option ℕ
  pub num : ℕ
  pub unit : Text
  pub adv : ℕ

pub record Libc : Type 0 where
  pub strtoumax : Text → Converted
  pub sscanf : Text → Scanned
  -- Whether `strcasecmp` returns 0.
  pub strcaseeq : Text → Text → Bool

unfoldable pub check_bounds : ℕ → ℕ → ℕ → Bool
check_bounds val min max = if ltb val min then false else if ltb max val then false else true

-- After the unit is known: the product in 64 bits, the overflow test, and the bounds.
unfoldable pub scale : ℕ → ℕ → ℕ → ℕ → Option ℕ
unfolding check_bounds
scale num mult min max =
    let x = u64 (num * mult) in
    if x / mult != num then none else if check_bounds x min max then some x else none

abbrev pub is_count : Option ℕ → ℕ → Bool
is_count none n = false
is_count (some k) n = k == n

module _ (c : Libc) where
  unfoldable pub parse_uint64 : Text → ℕ → ℕ → Option ℕ
  unfolding check_bounds
  parse_uint64 str min max =
      let x = c.strtoumax str in
      if x.value == 0 && x.failed
      then none
      else if check_bounds (u64 x.value) min max
      then some (u64 x.value)
      else none

  unfoldable pub parse_time_unit : Text → Option ℕ
  parse_time_unit unit =
      if c.strcaseeq unit (b'n' ∷ b's' ∷ [])
      then some 1
      else if c.strcaseeq unit (b'u' ∷ b's' ∷ [])
      then some 1000
      else if c.strcaseeq unit (b'm' ∷ b's' ∷ [])
      then some (1000 * 1000)
      else if c.strcaseeq unit (b's' ∷ [])
      then some (1000 * 1000 * 1000)
      else if c.strcaseeq unit (b'm' ∷ [])
      then some (1000 * 1000 * 1000 * 60)
      else if c.strcaseeq unit (b'h' ∷ [])
      then some (1000 * 1000 * 1000 * 60 * 60)
      else if c.strcaseeq unit (b'd' ∷ [])
      then some (1000 * 1000 * 1000 * 60 * 60 * 24)
      else if c.strcaseeq unit (b'w' ∷ [])
      then some (1000 * 1000 * 1000 * 60 * 60 * 24 * 7)
      else none

  unfoldable pub parse_memory_unit : Text → Option ℕ
  parse_memory_unit unit =
      if c.strcaseeq unit (b'b' ∷ [])
      then some 1
      else if c.strcaseeq unit (b'k' ∷ []) || c.strcaseeq unit (b'k' ∷ b'b' ∷ [])
      then some 1024
      else if c.strcaseeq unit (b'm' ∷ []) || c.strcaseeq unit (b'm' ∷ b'b' ∷ [])
      then some (1024 * 1024)
      else if c.strcaseeq unit (b'g' ∷ []) || c.strcaseeq unit (b'g' ∷ b'b' ∷ [])
      then some (1024 * 1024 * 1024)
      else none

  unfoldable pub parse_scalar : Text → ℕ → ℕ → (Text → Option ℕ) → Option ℕ
  parse_scalar inp min max func =
      let s = c.sscanf inp in
      if is_count s.count 0
      then none
      else if is_count s.count 1
      then none
      else if s.adv != u32 (length inp)
      then none
      else elim (func s.unit) [ none ↦ none | some mult ↦ scale s.num mult min max ]
