-- ===== src/Tests/Convert.antt =====
-- src/common/convert.c at concrete inputs.
use nemo_core.Prelude.{ℕ, ◌≡◌, refl, List, [], ◌∷◌, ◌++◌, take, drop, arith}
use nemo_core.Convert.{htonll, ntohll, tipv6, ipv6_part}
use nemo_core.Convert.Mixed.{swap_words, IsMixed, ntohll-htonll-IsMixed}
use nemo_core.Convert.Addresses.{IsAddress, tipv6-ipv6_part}
use nemo_core.Tests.Data.{big_host, big_host-IsByteOrder, little_host, little_host-IsByteOrder}

abbrev sample : ℕ
sample = 81985529216486895

-- What each host reads of the integer that the other sends.
abbrev mixed : ℕ
mixed = swap_words sample

ntohll-htonll-IsMixed_example :
    IsMixed sample (ntohll big_host (htonll big_host mixed))
    × IsMixed sample (ntohll little_host (htonll little_host mixed))
unfolding htonll
ntohll-htonll-IsMixed_example =
    ntohll-htonll-IsMixed little_host big_host little_host-IsByteOrder big_host-IsByteOrder
      (λ y h. ground arith) (λ y h. refl) sample (htonll big_host mixed) (htonll little_host mixed)
      (omega arith) (omega arith) (omega arith) refl refl

abbrev address : List ℕ
address = 32 ∷ 1 ∷ 13 ∷ 184 ∷ 0 ∷ 0 ∷ 0 ∷ 7 ∷ 8 ∷ 9 ∷ 10 ∷ 11 ∷ 12 ∷ 13 ∷ 14 ∷ 15 ∷ []

address-IsAddress : IsAddress address
address-IsAddress = record { sixteen = refl; bytes = ground arith }

tipv6-ipv6_part_example :
    tipv6 (ipv6_part address) (ipv6_part (drop 7 address))
    ≡ take 8 address ++ take 8 (drop 7 address)
tipv6-ipv6_part_example = tipv6-ipv6_part address address-IsAddress
