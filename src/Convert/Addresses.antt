-- ===== src/Convert/Addresses.antt =====
-- IPv6 addresses as pairs of 64-bit integers: the conversions of src/common/convert.c undo one
-- another, and what reading the high part one byte early, as `ipv6_part` callers do, gives.
use nemo_core.Prelude.{
  ℕ, zero, suc, ◌+◌, ◌^◌, ◌≤◌, ◌<◌, ◌≡◌, refl, ap, ap₂, ◌∙◌, List, [], ◌∷◌, ◌++◌, take, drop,
  length, length-take, length-drop, All, arith,
}
use nemo_core.Convert.{or_bytes, split_bytes, fipv6, tipv6, ipv6_part}
use nemo_core.Convert.Bytes.{
  le_value, le_bytes, IsByte, or_bytes_lem, split_bytes_lem, le_bytes-IsByte, le_value-le_bytes,
  le_bytes-le_value,
}

-- The 16 bytes of `struct in6_addr`.
pub record IsAddress (addr : List ℕ) : Type 0 where
  pub sixteen : length addr ≡ 16
  pub bytes : All IsByte addr

All-take : (n : ℕ) (bs : List ℕ) → All IsByte bs → All IsByte (take n bs)
All-take zero bs h = tt
All-take (suc n) [] h = tt
All-take (suc n) (b ∷ bs) h = (h.0, All-take n bs h.1)

All-drop : (n : ℕ) (bs : List ℕ) → All IsByte bs → All IsByte (drop n bs)
All-drop zero bs h = h
All-drop (suc n) [] h = tt
All-drop (suc n) (b ∷ bs) h = All-drop n bs h.1

-- Eight bytes from the start of the array, as the loop reads them.
read_eight : (ab : List ℕ) → All IsByte ab → or_bytes 8 0 ab 0 ≡ le_value (take 8 ab)
read_eight ab h = or_bytes_lem 8 0 ab 0 (omega arith) h (omega arith) ∙ omega arith

pub part_lem : (ab : List ℕ) → All IsByte ab → ipv6_part ab ≡ le_value (take 8 ab)
unfolding ipv6_part
part_lem ab h = read_eight ab h

write_eight : (x : ℕ) → split_bytes 8 0 x ≡ le_bytes 8 x
write_eight x = split_bytes_lem 8 0 x ∙ ap (le_bytes 8) (omega arith)

pub tipv6_lem : (lo hi : ℕ) → tipv6 lo hi ≡ le_bytes 8 lo ++ le_bytes 8 hi
unfolding tipv6
tipv6_lem lo hi = ap₂ ◌++◌ (write_eight lo) (write_eight hi)

pub fipv6_lem :
    (addr : List ℕ)
    → All IsByte addr
    → fipv6 addr ≡ record { lo = le_value (take 8 addr); hi = le_value (take 8 (drop 8 addr)) }
unfolding fipv6
fipv6_lem addr h =
    λ i. record { lo = read_eight addr h i; hi = read_eight (drop 8 addr) (All-drop 8 addr h) i }

All-append : (xs ys : List ℕ) → All IsByte xs → All IsByte ys → All IsByte (xs ++ ys)
All-append [] ys hx hy = hy
All-append (x ∷ xs) ys hx hy = (hx.0, All-append xs ys hx.1 hy)

take-append-take :
    (n m : ℕ) (xs : List ℕ) → length xs ≤ n + m → take n xs ++ take m (drop n xs) ≡ xs
take-append-take zero zero [] h = refl
take-append-take zero (suc m) [] h = refl
take-append-take zero zero (x ∷ xs) h = absurd (omega arith)
take-append-take zero (suc m) (x ∷ xs) h = ap (◌∷◌ x) (take-append-take zero m xs (omega arith))
take-append-take (suc n) zero [] h = refl
take-append-take (suc n) (suc m) [] h = refl
take-append-take (suc n) m (x ∷ xs) h = ap (◌∷◌ x) (take-append-take n m xs (omega arith))

-- Eight bytes read as an integer and written again are the same bytes.
pub rewrite_eight :
    (k : ℕ) (addr : List ℕ)
    → k ≤ 8
    → IsAddress addr
    → le_bytes 8 (le_value (take 8 (drop k addr))) ≡ take 8 (drop k addr)
rewrite_eight k addr room h =
    le_bytes-le_value 8 (take 8 (drop k addr))
      (omega (arith, length-take 8 (drop k addr), length-drop k addr, h.sixteen))
      (All-take 8 (drop k addr) (All-drop k addr h.bytes))

-- Two 64-bit integers written as an IPv6 address by `tipv6` are read back by `fipv6`.
pub fipv6-tipv6 :
    (lo hi : ℕ) → lo < 2 ^ 64 → hi < 2 ^ 64 → fipv6 (tipv6 lo hi) ≡ record { lo = lo; hi = hi }
fipv6-tipv6 lo hi hlo hhi =
    ap fipv6 (tipv6_lem lo hi)
    ∙ fipv6_lem (le_bytes 8 lo ++ le_bytes 8 hi)
        (All-append (le_bytes 8 lo) (le_bytes 8 hi) (le_bytes-IsByte 8 lo) (le_bytes-IsByte 8 hi))
    ∙ (λ i. record { lo = le_value-le_bytes 8 lo hlo i; hi = le_value-le_bytes 8 hi hhi i })

-- The 16 bytes of an IPv6 address read by `fipv6` are written back by `tipv6`.
pub tipv6-fipv6 : (addr : List ℕ) → IsAddress addr → tipv6 (fipv6 addr).lo (fipv6 addr).hi ≡ addr
tipv6-fipv6 addr h = rw (fipv6_lem addr h.bytes) (
    tipv6_lem _ _
    ∙ ap₂ ◌++◌ (rewrite_eight 0 addr (omega arith) h) (rewrite_eight 8 addr (omega arith) h)
    ∙ take-append-take 8 8 addr (omega (arith, h.sixteen)))

-- With the high part read from byte 7, as the callers of `ipv6_part` do, the address written back
-- holds bytes 0 to 7 and then bytes 7 to 14: byte 7 twice, and byte 15 lost.
pub tipv6-ipv6_part :
    (addr : List ℕ)
    → IsAddress addr
    → tipv6 (ipv6_part addr) (ipv6_part (drop 7 addr)) ≡ take 8 addr ++ take 8 (drop 7 addr)
tipv6-ipv6_part addr h =
    rw (part_lem addr h.bytes, part_lem (drop 7 addr) (All-drop 7 addr h.bytes))
      (tipv6_lem _ _
        ∙ ap₂ ◌++◌ (rewrite_eight 0 addr (omega arith) h) (rewrite_eight 7 addr (omega arith) h))
