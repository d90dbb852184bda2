-- ===== src/Convert/Integers.antt =====
-- Time and byte order in src/common/convert.c.
use nemo_core.Prelude.{
  ℕ, ◌+◌, ◌*◌, ◌/◌, ◌%◌, ◌^◌, ◌<◌, ◌≡◌, ap, ap₂, ◌∙◌, bit_and, bit_or, ◌++◌, List, arith,
}
use nemo_core.Word.{u32, u64, shl, shr, or_shl, and_mask}
use mathlib.Core.List.{reverse}
use nemo_core.Convert.Bytes.{le_bytes}
use nemo_core.Convert.{Timespec, fnanos, tnanos, ByteOrder, IsByteOrder, htonll, ntohll}

-- A 64-bit count of nanoseconds is split by `fnanos` with less than a second left, and `tnanos`
-- undoes it.
pub tnanos-fnanos :
    (ns : ℕ) → ns < 2 ^ 64 → ((fnanos ns).tv_nsec < 1000000000) × (tnanos (fnanos ns) ≡ ns)
unfolding fnanos tnanos
tnanos-fnanos ns h = omega arith

-- The nanoseconds that a time is in all.
abbrev pub in_nanos : Timespec → ℕ
in_nanos t = t.tv_sec * 1000000000 + t.tv_nsec

-- `fnanos` splits a count of nanoseconds into whole seconds and less than a second.
pub fnanos_lem : (ns : ℕ) → ((fnanos ns).tv_nsec < 1000000000) × (in_nanos (fnanos ns) ≡ ns)
unfolding fnanos
fnanos_lem ns = omega arith

-- The body of `htonll` and `ntohll`, over the 32-bit conversion `f`: each half stays in its place.
by_words :
    (f : ℕ → ℕ)
    → ((x : ℕ) → x < 4294967296 → f x < 4294967296)
    → (x : ℕ) → x < 2 ^ 64
    → bit_or (f (u32 (bit_and x 0xffff_ffff))) (u64 (shl (f (u32 (shr x 32))) 32))
      ≡ f (x % 2 ^ 32) + f (x / 2 ^ 32) * 2 ^ 32
by_words f keeps x h =
    let low : u32 (bit_and x 0xffff_ffff) ≡ x % 2 ^ 32 = omega (arith, and_mask 32 x) in
    let high : u32 (shr x 32) ≡ x / 2 ^ 32 = omega arith in
    let fits : f (x / 2 ^ 32) < 4294967296 = keeps (x / 2 ^ 32) (omega arith) in
    let exact : u64 (shl (f (x / 2 ^ 32)) 32) ≡ shl (f (x / 2 ^ 32)) 32 = omega arith in
    rw (low, high, exact)
      (or_shl 32 (f (x % 2 ^ 32)) (f (x / 2 ^ 32)) (keeps (x % 2 ^ 32) (omega arith)))

module _ (bo : ByteOrder) (law : IsByteOrder bo) (x : ℕ) (h : x < 2 ^ 64) where
  pub htonll_lem : htonll bo x ≡ bo.htonl (x % 2 ^ 32) + bo.htonl (x / 2 ^ 32) * 2 ^ 32
  unfolding htonll
  htonll_lem = by_words bo.htonl law.htonl-lt x h

  pub ntohll_lem : ntohll bo x ≡ bo.ntohl (x % 2 ^ 32) + bo.ntohl (x / 2 ^ 32) * 2 ^ 32
  unfolding ntohll
  ntohll_lem = by_words bo.ntohl law.ntohl-lt x h

  pub htonll-lt : htonll bo x < 2 ^ 64
  htonll-lt = omega (
    arith,
    htonll_lem,
    law.htonl-lt (x % 2 ^ 32) (omega arith),
    law.htonl-lt (x / 2 ^ 32) (omega arith),
  )

pub ntohll-lt : (bo : ByteOrder) → IsByteOrder bo → (x : ℕ) → x < 2 ^ 64 → ntohll bo x < 2 ^ 64
ntohll-lt bo law x h = omega (
  arith,
  ntohll_lem bo law x h,
  law.ntohl-lt (x % 2 ^ 32) (omega arith),
  law.ntohl-lt (x / 2 ^ 32) (omega arith),
)

-- Whatever the byte order of the host, `ntohll` undoes `htonll` on every 64-bit integer.
pub ntohll-htonll :
    (bo : ByteOrder) → IsByteOrder bo → (x : ℕ) → x < 2 ^ 64 → ntohll bo (htonll bo x) ≡ x
ntohll-htonll bo law x h =
    let y : ℕ = htonll bo x in
    let lo : y % 2 ^ 32 ≡ bo.htonl (x % 2 ^ 32) =
      omega (arith, htonll_lem bo law x h, law.htonl-lt (x % 2 ^ 32) (omega arith)) in
    let hi : y / 2 ^ 32 ≡ bo.htonl (x / 2 ^ 32) =
      omega (arith, htonll_lem bo law x h, law.htonl-lt (x % 2 ^ 32) (omega arith)) in
    ntohll_lem bo law y (htonll-lt bo law x h)
    ∙ rw
        (
          lo,
          hi,
          law.ntohl-htonl (x % 2 ^ 32) (omega arith),
          law.ntohl-htonl (x / 2 ^ 32) (omega arith),
        )
        (omega arith)

-- The bytes of a number, the highest first.
abbrev pub be_bytes : ℕ → ℕ → List ℕ
be_bytes n x = reverse (le_bytes n x)

bytes_of_words : (a b : ℕ) → a < 2 ^ 32 → le_bytes 8 (a + b * 2 ^ 32) ≡ le_bytes 4 a ++ le_bytes 4 b
bytes_of_words a b h = ground arith

-- What memory holds after `htonll` on a little-endian host, whose `htonl` writes the highest byte
-- first, and on a big-endian host, whose `htonl` changes nothing. The first puts the low 32 bits
-- before the high 32 bits, the second the high 32 bits before the low, each word in network order.
pub htonll-wire :
    (le be : ByteOrder)
    → IsByteOrder le
    → IsByteOrder be
    → ((y : ℕ) → y < 2 ^ 32 → le_bytes 4 (le.htonl y) ≡ be_bytes 4 y)
    → ((y : ℕ) → y < 2 ^ 32 → be.htonl y ≡ y)
    → (x : ℕ) → x < 2 ^ 64
    → (le_bytes 8 (htonll le x) ≡ be_bytes 4 (x % 2 ^ 32) ++ be_bytes 4 (x / 2 ^ 32))
      × (be_bytes 8 (htonll be x) ≡ be_bytes 4 (x / 2 ^ 32) ++ be_bytes 4 (x % 2 ^ 32))
htonll-wire le be le_law be_law net same x h = (
  rw (htonll_lem le le_law x h) (
      bytes_of_words _ (le.htonl (x / 2 ^ 32)) (le_law.htonl-lt (x % 2 ^ 32) (omega arith))
      ∙ ap₂ ◌++◌ (net (x % 2 ^ 32) (omega arith)) (net (x / 2 ^ 32) (omega arith))),
  rw (htonll_lem be be_law x h, same (x % 2 ^ 32) (omega arith), same (x / 2 ^ 32) (omega arith))
      (ap reverse (bytes_of_words (x % 2 ^ 32) (x / 2 ^ 32) (omega arith))),
)
