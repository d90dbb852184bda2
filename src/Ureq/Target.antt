-- ===== src/Ureq/Target.antt =====
-- src/ureq/target.c: resolving, sorting and loading the network targets. getaddrinfo(3),
-- inet_pton(3), qsort(3) and memcmp(3) are parameters.
pub mod Cases
pub mod Dedup
pub mod Laws
pub mod Limit
pub mod Shown
pub mod Numeric
pub mod Safe
pub mod Within
pub mod Size
pub mod Modest
pub mod Gathered
pub mod Overfilled
use nemo_core.Prelude.{
  ℕ, zero, suc, ◌+◌, ◌-◌, Bool, true, false, not, Option, none, some, List, [], ◌∷◌, ◌++◌, length,
  get_or, set, take, drop, replicate, ltb, leb, ◌==◌, if◌then◌else◌,
}
use nemo_core.Word.{u64}
use nemo_core.Convert.{ipv6_part}
use nemo_core.Parse.{Text}
use nemo_core.Ureq.Config.{Config}

-- `tg_name` is a pointer into the command line, as the index of the argument; `none` is NULL.
pub record Target : Type 0 where
  pub tg_name : Option ℕ
  pub tg_laddr : ℕ
  pub tg_haddr : ℕ

-- What `memset` leaves.
abbrev pub zero_target : Target
zero_target = record { tg_name = none; tg_laddr = 0; tg_haddr = 0 }

-- inet_pton(3) for each family, and getaddrinfo(3) with each family as its hint (`none` where it
-- fails).
pub record Resolver : Type 0 where
  pub pton4 : Text → Option ℕ
  pub pton6 : Text → Option (List ℕ)
  pub getaddrinfo4 : Text → Option (List ℕ)
  pub getaddrinfo6 : Text → Option (List (List ℕ))

-- `same a b` is whether memcmp(3) of two targets is 0; `qsort` is qsort(3) with that comparison.
pub record Sorting : Type 0 where
  pub same : Target → Target → Bool
  pub qsort : List Target → List Target

unfoldable pub read_target4 : Target → ℕ → Target
read_target4 tg a4 = record tg { tg_laddr = a4; tg_haddr = 0 }

-- The high part is read from byte 7 of the address.
unfoldable pub read_target6 : Target → List ℕ → Target
read_target6 tg a6 = record tg { tg_laddr = ipv6_part a6; tg_haddr = ipv6_part (drop 7 a6) }

-- An array of targets, a count, and a result.
pub record Parsed : Type 0 where
  pub tg : List Target
  pub tcnt : ℕ
  pub ok : Bool

-- The loop over the addresses, each with the function that writes it into a target.
unfoldable pub add_addresses :
    ℕ → Option ℕ → Config → List (Target → Target) → List Target → ℕ → Parsed
add_addresses tmax name cf [] tg tcnt = record { tg = tg; tcnt = tcnt; ok = true }
add_addresses tmax name cf (read ∷ ais) tg tcnt =
    let written = record (read (get_or tg tcnt zero_target)) { tg_name = name } in
    let rest = add_addresses tmax name cf ais (set tg tcnt written) (tcnt + 1) in
    if tcnt == tmax then record { tg = tg; tcnt = tcnt; ok = not cf.cf_err } else rest

abbrev readers {ℓ} : {A : Type ℓ} → (Target → A → Target) → List A → List (Target → Target)
readers f [] = []
readers f (a ∷ as') = (λ tg. f tg a) ∷ readers f as'

abbrev found {ℓ} :
    {A : Type ℓ} → (Target → A → Target) → Option (List A) → Option (List (Target → Target))
found f none = none
found f (some l) = some (readers f l)

-- Where the name cannot be resolved the count is left as it was.
unfoldable pub resolve_name : Resolver → List Target → ℕ → ℕ → Text → Option ℕ → Config → Parsed
unfolding add_addresses
resolve_name r tg tcnt tmax name ptr cf =
    let addresses =
      if cf.cf_ipv4
      then found read_target4 (r.getaddrinfo4 name)
      else found read_target6 (r.getaddrinfo6 name) in
    elim addresses [
      | none ↦ record { tg = tg; tcnt = tcnt; ok = not cf.cf_err }
      | some ais ↦ add_addresses tmax ptr cf ais tg 0
    ]

-- `tcnt` is what the variable held before the call.
unfoldable pub parse_target_string : Resolver → ℕ → ℕ → Text → Option ℕ → Config → Parsed
parse_target_string r tcnt tmax tstr ptr cf =
    let tg = replicate tmax zero_target in
    let one : Target → Parsed =
      λ t. record { tg = set tg 0 (record t { tg_name = none }); tcnt = 1; ok = true } in
    let refuse : Parsed = record { tg = tg; tcnt = tcnt; ok = false } in
    elim (r.pton4 tstr) [
      | some a4 ↦ if cf.cf_ipv4 then one (read_target4 zero_target a4) else refuse
      | none ↦ elim (r.pton6 tstr) [
        | some a6 ↦ if cf.cf_ipv4 then refuse else one (read_target6 zero_target a6)
        | none ↦ resolve_name r tg tcnt tmax tstr ptr cf
      ]
    ]

-- An array and the number of its elements that count.
pub record Normalized : Type 0 where
  pub tg : List Target
  pub nlen : ℕ

module _ (sorting : Sorting) where
  -- The loop at index `idx` with `left` rounds to go.
  unfoldable pub dedup_loop : ℕ → ℕ → ℕ → List Target → Normalized
  dedup_loop zero idx lst tg = record { tg = tg; nlen = lst + 1 }
  dedup_loop (suc left) idx lst tg =
      let x = get_or tg idx zero_target in
      let skip = sorting.same x (get_or tg lst zero_target) in
      dedup_loop left (idx + 1) (if skip then lst else lst + 1)
        (if skip then tg else set tg (lst + 1) x)

  unfoldable pub normalize_targets : List Target → ℕ → Normalized
  unfolding dedup_loop
  normalize_targets tg olen =
      if olen == 0
      then record { tg = tg; nlen = olen }
      else if olen == 1
      then record { tg = tg; nlen = olen }
      else dedup_loop (olen - 1) 1 0 (sorting.qsort (take olen tg) ++ drop olen tg)

-- Leaving the array of targets, the array `tg2` or the array of pointers is a fault.
pub data Loaded : Type 0 where
  loaded : List Target → ℕ → Loaded
  refused fault : Loaded

-- `memcpy(tg + at, src, n)` of elements.
abbrev pub copy_at : List Target → ℕ → List Target → ℕ → Option (List Target)
copy_at tg at src n =
    if leb (at + n) (length tg) then some (take at tg ++ (take n src ++ drop (at + n) tg)) else none

-- The final sweep.
abbrev pub sweep : Sorting → List Target → ℕ → Loaded
sweep sorting tg tcnt2 =
    let n = normalize_targets sorting tg tcnt2 in
    if leb tcnt2 (length tg) then loaded n.tg n.nlen else fault

module _ (r : Resolver) (sorting : Sorting) (cf : Config) where
  -- The loop over the target strings from index `idx` on. `tcnt1` and `tcnt2` are the two locals,
  -- with what they hold from the round before; the last is used by the final sweep.
  unfoldable pub load_loop : List (Option Text) → ℕ → List Target → ℕ → ℕ → ℕ → Loaded
  load_loop [] idx tg tall tcnt1 tcnt2 = fault
  load_loop (none ∷ rest) idx tg tall tcnt1 tcnt2 = sweep sorting tg tcnt2
  load_loop (some tstr ∷ rest) idx tg tall tcnt1 tcnt2 =
      let p = parse_target_string r tcnt1 32 tstr (some idx) cf in
      let n = normalize_targets sorting p.tg p.tcnt in
      let next =
        λ (tg' : List Target). load_loop rest (idx + 1) tg' (tall + n.nlen) p.tcnt n.nlen in
      if not p.ok
      then refused
      else if ltb 32 p.tcnt
      then fault
      else if ltb cf.cf_ntg (u64 (n.nlen + tall + 18446744073709551615))
      then if cf.cf_err then refused else sweep sorting tg n.nlen
      else elim (copy_at tg tall n.tg n.nlen) [ none ↦ fault | some tg' ↦ next tg' ]

  -- `garbage1` and `garbage2` are what the two locals hold before they are set.
  unfoldable pub load_targets : ℕ → ℕ → List Target → Loaded
  unfolding load_loop
  load_targets garbage1 garbage2 tg = load_loop cf.cf_tg 0 tg 0 garbage1 garbage2
