-- ===== src/Convert.antt =====
-- src/common/convert.c: time in nanoseconds, the byte order of 64-bit integers, and IPv6
-- addresses as two 64-bit integers.
pub mod Addresses
pub mod Bytes
pub mod Integers
pub mod Mixed
use nemo_core.Prelude.{
  ℕ, zero, suc, ◌+◌, ◌*◌, ◌/◌, ◌%◌, ◌<◌, ◌≡◌, bit_and, bit_or, List, [], ◌∷◌, ◌++◌, get_or, drop,
}
use nemo_core.Word.{u8, u32, u64, shl, shr}

-- `struct timespec`, with a `time_t` that holds the seconds of every 64-bit count of nanoseconds.
pub record Timespec : Type 0 where
  pub tv_sec : ℕ
  pub tv_nsec : ℕ

unfoldable pub fnanos : ℕ → Timespec
fnanos ns = record { tv_sec = ns / 1000000000; tv_nsec = ns % 1000000000 }

unfoldable pub tnanos : Timespec → ℕ
tnanos ts = u64 (ts.tv_nsec + u64 (ts.tv_sec * 1000000000))

-- The conversions of `arpa/inet.h`, which the host supplies.
pub record ByteOrder : Type 0 where
  pub htons : ℕ → ℕ
  pub ntohs : ℕ → ℕ
  pub htonl : ℕ → ℕ
  pub ntohl : ℕ → ℕ

-- What POSIX says of them: they act on 16-bit and 32-bit integers, and each `ntoh` undoes its
-- `hton`.
pub record IsByteOrder (bo : ByteOrder) : Type 0 where
  pub htons-lt : (x : ℕ) → x < 65536 → bo.htons x < 65536
  pub ntohs-lt : (x : ℕ) → x < 65536 → bo.ntohs x < 65536
  pub ntohs-htons : (x : ℕ) → x < 65536 → bo.ntohs (bo.htons x) ≡ x
  pub htonl-lt : (x : ℕ) → x < 4294967296 → bo.htonl x < 4294967296
  pub ntohl-lt : (x : ℕ) → x < 4294967296 → bo.ntohl x < 4294967296
  pub ntohl-htonl : (x : ℕ) → x < 4294967296 → bo.ntohl (bo.htonl x) ≡ x

module _ (bo : ByteOrder) where
  unfoldable pub htonll : ℕ → ℕ
  htonll x =
      let hi = u32 (shr x 32) in
      let lo = u32 (bit_and x 0xffff_ffff) in bit_or (bo.htonl lo) (u64 (shl (bo.htonl hi) 32))

  unfoldable pub ntohll : ℕ → ℕ
  ntohll x =
      let hi = u32 (shr x 32) in
      let lo = u32 (bit_and x 0xffff_ffff) in bit_or (bo.ntohl lo) (u64 (shl (bo.ntohl hi) 32))

-- The loop `*lo |= (uint64_t)ab[i] << (i * 8)`, at index `i` with `left` rounds to go.
unfoldable pub or_bytes : ℕ → ℕ → List ℕ → ℕ → ℕ
or_bytes zero i ab acc = acc
or_bytes (suc left) i ab acc =
    or_bytes left (suc i) ab (u64 (bit_or acc (u64 (shl (get_or ab i 0) (i * 8)))))

-- The bytes `s6_addr` of `struct in6_addr` are a list of length 16.
unfoldable pub fipv6 : List ℕ → record { lo : ℕ; hi : ℕ }
unfolding or_bytes
fipv6 addr = record { lo = or_bytes 8 0 addr 0; hi = or_bytes 8 0 (drop 8 addr) 0 }

-- `addr->s6_addr[i] = (uint8_t)(x >> (8 * i)) & 0xff` for each index from `i` on.
unfoldable pub split_bytes : ℕ → ℕ → ℕ → List ℕ
split_bytes zero i x = []
split_bytes (suc left) i x = bit_and (u8 (shr x (8 * i))) 0xff ∷ split_bytes left (suc i) x

unfoldable pub tipv6 : ℕ → ℕ → List ℕ
unfolding split_bytes
tipv6 lo hi = split_bytes 8 0 lo ++ split_bytes 8 0 hi

-- `ipv6_part` of src/ureq/target.c, src/ureq/event.c and src/ures/event.c, which all hold the same
-- text. Its argument points into the address, so it is the list from that byte on.
unfoldable pub ipv6_part : List ℕ → ℕ
unfolding or_bytes
ipv6_part ab = or_bytes 8 0 ab 0
