-- ===== src/Parse/Laws.antt =====
-- What the parsers of src/common/parse.c accept.
use nemo_core.Prelude.{
  ℕ, ◌*◌, ◌/◌, ◌^◌, ◌≤◌, ◌<◌, ◌≡◌, ◌≢◌, ◌↔◌, ◌⊎◌, inl, inr, false, Option, some, length, arith,
  Option-cases,
}
use native.Mathlib.Nat.{div-mul-le_self, mul-div_cancel}
use nemo_core.Word.{u32, u64}
use nemo_core.Parse.{
  Text, Libc, parse_uint64, parse_time_unit, parse_memory_unit, scale, is_count, parse_scalar,
}

-- `x` is the true product of the two numbers, in 64 bits and within the bounds.
abbrev pub IsProduct : ℕ → ℕ → ℕ → ℕ → ℕ → Type 0
IsProduct num mult min max x = (x ≡ num * mult) × (num * mult < 2 ^ 64) × (min ≤ x) × (x ≤ max)

product_fits :
    (num mult : ℕ)
    → num < 2 ^ 64
    → 0 < mult
    → ((u64 (num * mult) / mult ≡ num) ↔ (num * mult < 2 ^ 64))
product_fits num mult hn hm = (fits, kept)
  where
    fits : u64 (num * mult) / mult ≡ num → num * mult < 2 ^ 64
    fits e =
        let low : num * mult ≤ u64 (num * mult) =
          rw e at (div-mul-le_self (u64 (num * mult)) mult) in
        omega arith

    kept : num * mult < 2 ^ 64 → u64 (num * mult) / mult ≡ num
    kept small = let e : u64 (num * mult) ≡ num * mult = omega arith in rw e (mul-div_cancel num hm)

-- The test `x / mult != num` on the wrapped product finds every overflow and nothing else.
pub scale_iff :
    (num mult min max x : ℕ)
    → num < 2 ^ 64
    → 0 < mult
    → (scale num mult min max ≡ some x) ↔ IsProduct num mult min max x
unfolding scale
scale_iff num mult min max x hn hm = (
  λ h. ground (arith, product_fits num mult hn hm),
  λ h. ground (arith, product_fits num mult hn hm),
)

-- `parse_scalar` gives a quantity exactly when both conversions were made (or the input was at its
-- end), the whole input was read, the unit is known, the product with its multiplier stays below
-- 2^64, and the product lies within the bounds; and the quantity is that product, unwrapped. The
-- multipliers of the unit parser must be positive.
pub parse_scalar_iff :
    (c : Libc) (inp : Text) (min max : ℕ) (func : Text → Option ℕ) (x : ℕ)
    → (c.sscanf inp).num < 2 ^ 64
    → ((m : ℕ) → func (c.sscanf inp).unit ≡ some m → 0 < m)
    → (parse_scalar c inp min max func ≡ some x) ↔ (
        (is_count (c.sscanf inp).count 0 ≡ false)
        × (is_count (c.sscanf inp).count 1 ≡ false)
        × ((c.sscanf inp).adv ≡ u32 (length inp))
        × ((mult : ℕ) × (func (c.sscanf inp).unit ≡ some mult)
            × IsProduct (c.sscanf inp).num mult min max x))
unfolding parse_scalar
parse_scalar_iff c inp min max func x hn pos = elim (Option-cases (func (c.sscanf inp).unit)) [
  | inl unknown ↦ (λ h. ground arith, λ h. ground (arith, h.3))
  | inr (mult, known) ↦ (
    λ h. (
      ground arith,
      ground arith,
      ground arith,
      (mult, known, (scale_iff _ mult min max x hn (pos mult known)).0 (ground arith)),
    ),
    λ h.
        let scaled : scale (c.sscanf inp).num h.3.0 min max ≡ some x =
          (scale_iff _ h.3.0 min max x hn (pos h.3.0 h.3.1)).1 h.3.2 in
        ground (arith, h.3.1),
  )
]

-- `parse_uint64` gives what `strtoumax` gives, cut to 64 bits, exactly when that lies within the
-- bounds and is not a zero that came with an error. An error with any other value, such as the
-- largest integer for a number out of range, is no refusal.
pub parse_uint64_iff :
    (c : Libc) (str : Text) (min max x : ℕ)
    → (parse_uint64 c str min max ≡ some x) ↔ (
        (x ≡ u64 (c.strtoumax str).value)
        × (min ≤ x)
        × (x ≤ max)
        × (((c.strtoumax str).value ≢ 0) ⊎ ((c.strtoumax str).failed ≡ false)))
unfolding parse_uint64
parse_uint64_iff c str min max x = (λ h. ground arith, λ h. ground arith)

pub parse_uint64_bounds :
    (c : Libc) (str : Text) (min max x : ℕ)
    → parse_uint64 c str min max ≡ some x
    → (min ≤ x) × (x ≤ max)
parse_uint64_bounds c str min max x h = let p = (parse_uint64_iff c str min max x).0 h in (p.1, p.2)

pub parse_time_unit_pos : (c : Libc) (u : Text) (m : ℕ) → parse_time_unit c u ≡ some m → 0 < m
unfolding parse_time_unit
parse_time_unit_pos c u m h = ground arith

pub parse_memory_unit_pos : (c : Libc) (u : Text) (m : ℕ) → parse_memory_unit c u ≡ some m → 0 < m
unfolding parse_memory_unit
parse_memory_unit_pos c u m h = ground arith

pub parse_scalar_bounds :
    (c : Libc) (inp : Text) (min max : ℕ) (func : Text → Option ℕ) (x : ℕ)
    → parse_scalar c inp min max func ≡ some x
    → (min ≤ x) × (x ≤ max)
unfolding parse_scalar scale
parse_scalar_bounds c inp min max func x h = ground arith
