-- ===== src/Convert/Mixed.antt =====
-- 64-bit integers of src/common/convert.c between hosts of different byte orders.
use nemo_core.Prelude.{ℕ, ◌+◌, ◌*◌, ◌/◌, ◌%◌, ◌^◌, ◌<◌, ◌≡◌, ◌↔◌, sym, ap, ap₂, ◌∙◌, ◌++◌, arith}
use mathlib.Core.List.{reverse, reverse-reverse}
use nemo_core.Convert.{ByteOrder, IsByteOrder, htonll, ntohll}
use nemo_core.Convert.Bytes.{le_bytes, le_value, le_value-le_bytes}
use nemo_core.Convert.Integers.{be_bytes, htonll-wire, htonll-lt, ntohll-htonll}

-- The two 32-bit halves change places.
abbrev pub swap_words : ℕ → ℕ
swap_words x = x / 2 ^ 32 + x % 2 ^ 32 * 2 ^ 32

le_bytes_injective : (x y : ℕ) → x < 2 ^ 64 → y < 2 ^ 64 → le_bytes 8 x ≡ le_bytes 8 y → x ≡ y
le_bytes_injective x y hx hy e =
    sym (le_value-le_bytes 8 x (omega arith)) ∙ ap le_value e ∙ le_value-le_bytes 8 y (omega arith)

be_bytes_injective : (x y : ℕ) → x < 2 ^ 64 → y < 2 ^ 64 → be_bytes 8 x ≡ be_bytes 8 y → x ≡ y
be_bytes_injective x y hx hy e =
    le_bytes_injective x y hx hy
      (sym (reverse-reverse (le_bytes 8 x)) ∙ ap reverse e ∙ reverse-reverse (le_bytes 8 y))

-- What a receiver of the other byte order reads.
abbrev pub IsMixed : ℕ → ℕ → Type 0
IsMixed x y = (y ≡ swap_words x) × ((y ≡ x) ↔ (x / 2 ^ 32 ≡ x % 2 ^ 32))

swapped-IsMixed : (x y : ℕ) → y ≡ swap_words x → IsMixed x y
swapped-IsMixed x y e = (e, (λ h. omega arith, λ h. omega arith))

module _ (le be : ByteOrder) (le_law : IsByteOrder le) (be_law : IsByteOrder be)
    (net : (y : ℕ) → y < 2 ^ 32 → le_bytes 4 (le.htonl y) ≡ be_bytes 4 y)
    (same : (y : ℕ) → y < 2 ^ 32 → be.htonl y ≡ y) where
  -- A 64-bit integer below 2^64 that a little-endian host writes to the wire with `htonll` is read by
  -- a big-endian host with `ntohll` as the integer with its 32-bit halves exchanged, and the same the
  -- other way round; so it arrives as it was sent exactly when its halves are equal. `y` and `z`,
  -- below 2^64, are what the bytes from the wire are as integers of the two receivers, and the byte
  -- order functions are as POSIX says: `htonl` writes the highest byte first on the little-endian
  -- host and changes nothing on the other.
  pub ntohll-htonll-IsMixed :
      (x y z : ℕ)
      → x < 2 ^ 64
      → y < 2 ^ 64
      → z < 2 ^ 64
      → be_bytes 8 y ≡ le_bytes 8 (htonll le x)
      → le_bytes 8 z ≡ be_bytes 8 (htonll be x)
      → IsMixed x (ntohll be y) × IsMixed x (ntohll le z)
  ntohll-htonll-IsMixed x y z hx hy hz e e' =
      let w : ℕ = swap_words x in
      let hw : w < 2 ^ 64 = omega arith in
      let lo : w % 2 ^ 32 ≡ x / 2 ^ 32 = omega arith in
      let hi : w / 2 ^ 32 ≡ x % 2 ^ 32 = omega arith in
      let halves = λ (a b : ℕ). be_bytes 4 a ++ be_bytes 4 b in
      let (from_le, from_be) = htonll-wire le be le_law be_law net same x hx in
      let (by_le, by_be) = htonll-wire le be le_law be_law net same w hw in
      let wire = e ∙ from_le ∙ ap₂ halves (sym hi) (sym lo) ∙ sym by_be in
      let wire' = e' ∙ from_be ∙ ap₂ halves (sym lo) (sym hi) ∙ sym by_le in
      let read = be_bytes_injective y (htonll be w) hy (htonll-lt be be_law w hw) wire in
      let read' = le_bytes_injective z (htonll le w) hz (htonll-lt le le_law w hw) wire' in
      (
        swapped-IsMixed x _ (ap (ntohll be) read ∙ ntohll-htonll be be_law w hw),
        swapped-IsMixed x _ (ap (ntohll le) read' ∙ ntohll-htonll le le_law w hw),
      )
