-- ===== src/Convert/Bytes.antt =====
-- The byte loops of src/common/convert.c against positional notation in base 256.
use native.Mathlib.Nat.{pow-suc, pow-le-pow_right, div-div-eq-div-mul}
use native.Mathlib.Numerals.{towards_suc}
use nemo_core.Prelude.{
  ℕ, zero, suc, ◌+◌, ◌*◌, ◌/◌, ◌%◌, ◌^◌, ◌≤◌, ◌<◌, ◌≡◌, refl, sym, ap, ap₂, ◌∙◌, bit_or, List, [],
  ◌∷◌, get_or, take, drop, length, All, arith,
}
use nemo_core.Word.{u8, u64, shl, shr, or_shl, and_mask}
use nemo_core.Convert.{or_bytes, split_bytes}

-- The number that a list of bytes spells, the lowest byte first.
abbrev pub le_value : List ℕ → ℕ
le_value [] = 0
le_value (b ∷ bs) = b + 256 * le_value bs

abbrev pub IsByte : ℕ → Type 0
IsByte b = b < 256

eight_more : (k : ℕ) → 2 ^ (k + 8) ≡ 256 * 2 ^ k
eight_more k = simp towards_suc (omega arith)

pow_byte : (i : ℕ) → 2 ^ (suc i * 8) ≡ 256 * 2 ^ (i * 8)
pow_byte i = let e : suc i * 8 ≡ i * 8 + 8 = omega arith in rw e (eight_more (i * 8))

pow_byte' : (i : ℕ) → 2 ^ (8 * suc i) ≡ 256 * 2 ^ (8 * i)
pow_byte' i = let e : 8 * suc i ≡ 8 * i + 8 = omega arith in rw e (eight_more (8 * i))

byte_fits : (i : ℕ) → i < 8 → 256 * 2 ^ (i * 8) ≤ 2 ^ 64
byte_fits i h =
    let top : 2 ^ (suc i * 8) ≤ 2 ^ 64 = pow-le-pow_right (omega arith) {j = 64} (omega arith) in
    omega (arith, top, pow_byte i)

-- One round of the loop adds the byte at its place.
or_byte :
    (k acc b : ℕ)
    → acc < 2 ^ k
    → b < 256
    → 256 * 2 ^ k ≤ 2 ^ 64
    → u64 (bit_or acc (u64 (shl b k))) ≡ acc + b * 2 ^ k
or_byte k acc b small byte room =
    let below : b * 2 ^ k + 2 ^ k ≤ 2 ^ 64 = grind arith in
    let exact : b * 2 ^ k % 2 ^ 64 ≡ b * 2 ^ k = omega arith in
    rw exact (omega (arith, or_shl k acc b small))

get_or-IsByte : (ab : List ℕ) (i : ℕ) → All IsByte ab → IsByte (get_or ab i 0)
get_or-IsByte [] i h = omega arith
get_or-IsByte (b ∷ ab) zero h = h.0
get_or-IsByte (b ∷ ab) (suc i) h = get_or-IsByte ab i h.1

le_value-drop :
    (ab : List ℕ) (i left : ℕ)
    → le_value (take (suc left) (drop i ab))
      ≡ get_or ab i 0 + 256 * le_value (take left (drop (suc i) ab))
le_value-drop [] zero zero = refl
le_value-drop [] zero (suc left) = refl
le_value-drop [] (suc i) zero = refl
le_value-drop [] (suc i) (suc left) = refl
le_value-drop (b ∷ ab) zero left = refl
le_value-drop (b ∷ ab) (suc i) left = le_value-drop ab i left

regroup :
    (acc b rest p q v : ℕ) → q ≡ 256 * p → v ≡ b + 256 * rest → acc + b * p + rest * q ≡ acc + v * p
regroup acc b rest p q v hq hv = rw (hq, hv) (omega arith)

-- The loop from index `i` on reads the bytes that are left in positional notation.
pub or_bytes_lem :
    (left i : ℕ) (ab : List ℕ) (acc : ℕ)
    → i + left ≤ 8
    → All IsByte ab
    → acc < 2 ^ (i * 8)
    → or_bytes left i ab acc ≡ acc + le_value (take left (drop i ab)) * 2 ^ (i * 8)
unfolding or_bytes
or_bytes_lem zero i ab acc room bytes small = omega arith
or_bytes_lem (suc left) i ab acc room bytes small =
    let b : ℕ = get_or ab i 0 in
    let byte : b < 256 = get_or-IsByte ab i bytes in
    let fits : 256 * 2 ^ (i * 8) ≤ 2 ^ 64 = byte_fits i (omega arith) in
    let next : acc + b * 2 ^ (i * 8) < 256 * 2 ^ (i * 8) = grind arith in
    rw (or_byte (i * 8) acc b small byte fits) (
      or_bytes_lem left (suc i) ab (acc + b * 2 ^ (i * 8)) (omega arith) bytes
        (omega (arith, pow_byte i))
      ∙ regroup acc b _ _ _ _ (pow_byte i) (le_value-drop ab i left))

-- The bytes of a number, the lowest first.
abbrev pub le_bytes : ℕ → ℕ → List ℕ
le_bytes zero x = []
le_bytes (suc n) x = x % 256 ∷ le_bytes n (x / 256)

div_twice : (x p q : ℕ) → q ≡ 256 * p → x / p / 256 ≡ x / q
div_twice x p q e = let e' : q ≡ p * 256 = omega arith in rw e' (div-div-eq-div-mul x p 256)

pub split_bytes_lem : (left i x : ℕ) → split_bytes left i x ≡ le_bytes left (x / 2 ^ (8 * i))
unfolding split_bytes
split_bytes_lem zero i x = refl
split_bytes_lem (suc left) i x = ap₂ ◌∷◌ (and_mask 8 (u8 (shr x (8 * i))) ∙ omega arith) (
    split_bytes_lem left (suc i) x
    ∙ ap (le_bytes left) (sym (div_twice x (2 ^ (8 * i)) _ (pow_byte' i))))

pub length-le_bytes : (n x : ℕ) → length (le_bytes n x) ≡ n
length-le_bytes zero x = refl
length-le_bytes (suc n) x = ap suc (length-le_bytes n (x / 256))

pub le_bytes-IsByte : (n x : ℕ) → All IsByte (le_bytes n x)
le_bytes-IsByte zero x = tt
le_bytes-IsByte (suc n) x = (omega arith, le_bytes-IsByte n (x / 256))

-- Writing a number in base 256 and reading it back gives the number.
pub le_value-le_bytes : (n x : ℕ) → x < 256 ^ n → le_value (le_bytes n x) ≡ x
le_value-le_bytes zero x h = omega arith
le_value-le_bytes (suc n) x h =
    omega (arith, le_value-le_bytes n (x / 256) (omega (arith, pow-suc 256 n)))

-- Reading bytes as a number and writing it gives the bytes.
pub le_bytes-le_value :
    (n : ℕ) (bs : List ℕ) → length bs ≡ n → All IsByte bs → le_bytes n (le_value bs) ≡ bs
le_bytes-le_value zero [] e h = refl
le_bytes-le_value zero (b ∷ bs) e h = absurd (omega arith)
le_bytes-le_value (suc n) [] e h = absurd (omega arith)
le_bytes-le_value (suc n) (b ∷ bs) e (byte, rest) =
    let low : (b + 256 * le_value bs) % 256 ≡ b = omega arith in
    let high : (b + 256 * le_value bs) / 256 ≡ le_value bs = omega arith in
    ap₂ ◌∷◌ low (ap (le_bytes n) high ∙ le_bytes-le_value n bs (omega arith) rest)

pub le_value-lt : (bs : List ℕ) → All IsByte bs → le_value bs < 256 ^ length bs
le_value-lt [] h = omega arith
le_value-lt (b ∷ bs) h = omega (arith, le_value-lt bs h.1, pow-suc 256 (length bs))
