-- ===== src/Ureq/Config.antt =====
-- src/ureq/types.h and src/ureq/config.c: the requester's configuration and its options. What
-- `print_usage` and `log_config` print is left out.
pub mod Laws
pub mod Shown
pub mod Usage
use nemo_core.Prelude.{
  ℕ, ◌+◌, ◌-◌, ◌/◌, Bool, true, false, Option, none, some, List, [], ◌∷◌, ◌==◌, ltb, leb, length,
  map, ◌++◌, if◌then◌else◌, set, replicate,
}
use nemo_core.Parse.{Text, Libc, parse_uint64, parse_time_unit, parse_memory_unit, parse_scalar}
use nemo_core.Options.{Action, next, refused, exits, Opt, Getopt, store, run_options}

abbrev pub plug_max : ℕ
plug_max = 32

abbrev pub uint64_max : ℕ
uint64_max = 18446744073709551615

abbrev pub target_limit : ℕ
target_limit = uint64_max / 24 - 1

abbrev pub payload_size : ℕ
payload_size = 128

pub record Config : Type 0 where
  pub cf_pi : List (Option Text)
  -- The array of `cf_ntg` pointers, NULL behind the targets of the command line.
  pub cf_tg : List (Option Text)
  pub cf_ntg : ℕ
  pub cf_cnt : ℕ
  pub cf_int : ℕ
  pub cf_wait : ℕ
  pub cf_rbuf : ℕ
  pub cf_sbuf : ℕ
  pub cf_ttl : ℕ
  pub cf_key : ℕ
  pub cf_port : ℕ
  pub cf_rld : ℕ
  pub cf_len : ℕ
  pub cf_llvl : ℕ
  pub cf_lcol : Bool
  pub cf_err : Bool
  pub cf_mono : Bool
  pub cf_sil : Bool
  pub cf_grp : Bool
  pub cf_ipv4 : Bool

-- The configuration, and the static counter of `option_a`.
pub record Parsing : Type 0 where
  pub cf : Config
  pub attached : ℕ

unfoldable pub set_defaults : Config
set_defaults = record {
  cf_pi = replicate plug_max none;
  cf_tg = [];
  cf_ntg = 64;
  cf_cnt = uint64_max;
  cf_int = 1000000000;
  cf_wait = 2000000000;
  cf_rbuf = 2000000;
  cf_sbuf = 2000000;
  cf_ttl = 64;
  cf_key = 0;
  cf_port = 23000;
  cf_rld = 60000000000;
  cf_len = payload_size;
  cf_llvl = 1;
  cf_lcol = true;
  cf_err = false;
  cf_mono = false;
  cf_sil = false;
  cf_grp = false;
  cf_ipv4 = true;
}

abbrev with_cf : Parsing → Config → Parsing
with_cf s c = record s { cf = c }

unfoldable pub option_6 : Text → Parsing → Action Parsing
option_6 arg s = next (with_cf s (record (s.cf) { cf_ipv4 = false }))

unfoldable pub option_a : Text → Parsing → Action Parsing
option_a arg s =
    if leb plug_max s.attached
    then refused
    else next (record {
      cf = record (s.cf) { cf_pi = set s.cf.cf_pi s.attached (some arg) };
      attached = s.attached + 1;
    })

unfoldable pub option_e : Text → Parsing → Action Parsing
option_e arg s = next (with_cf s (record (s.cf) { cf_err = true }))

unfoldable pub option_g : Text → Parsing → Action Parsing
option_g arg s = next (with_cf s (record (s.cf) { cf_grp = true }))

unfoldable pub option_h : Text → Parsing → Action Parsing
option_h arg s = exits

unfoldable pub option_m : Text → Parsing → Action Parsing
option_m arg s = next (with_cf s (record (s.cf) { cf_mono = true }))

unfoldable pub option_n : Text → Parsing → Action Parsing
option_n arg s = next (with_cf s (record (s.cf) { cf_lcol = false }))

unfoldable pub option_q : Text → Parsing → Action Parsing
option_q arg s = next (with_cf s (record (s.cf) { cf_sil = true }))

-- The four tests of `option_v`, in their order. The levels are LL_ERROR 0 to LL_TRACE 4.
unfoldable pub raise_level : ℕ → ℕ
raise_level l =
    let l1 = if l == 3 then 4 else l in
    let l2 = if l1 == 2 then 3 else l1 in
    let l3 = if l2 == 1 then 2 else l2 in if l3 == 0 then 1 else l3

unfoldable pub option_v : Text → Parsing → Action Parsing
unfolding raise_level
option_v arg s = next (with_cf s (record (s.cf) { cf_llvl = raise_level s.cf.cf_llvl }))

module _ (c : Libc) where
  unfoldable pub option_c : Text → Parsing → Action Parsing
  option_c arg s =
      store (parse_uint64 c arg 0 uint64_max) λ x. with_cf s (record (s.cf) { cf_cnt = x })

  unfoldable pub option_i : Text → Parsing → Action Parsing
  option_i arg s =
      store (parse_scalar c arg 1 uint64_max (parse_time_unit c))
        λ x. with_cf s (record (s.cf) { cf_int = x })

  -- `sizeof(struct target)` is 24 on a 64-bit host.
  unfoldable pub option_j : Text → Parsing → Action Parsing
  option_j arg s =
      store (parse_uint64 c arg 1 target_limit) λ x. with_cf s (record (s.cf) { cf_ntg = x })

  unfoldable pub option_k : Text → Parsing → Action Parsing
  option_k arg s =
      store (parse_uint64 c arg 1 uint64_max) λ x. with_cf s (record (s.cf) { cf_key = x })

  unfoldable pub option_l : Text → Parsing → Action Parsing
  option_l arg s =
      store (parse_scalar c arg payload_size 64436 (parse_memory_unit c))
        λ x. with_cf s (record (s.cf) { cf_len = x })

  unfoldable pub option_p : Text → Parsing → Action Parsing
  option_p arg s = store (parse_uint64 c arg 1 65535) λ x. with_cf s (record (s.cf) { cf_port = x })

  -- SIZE_MAX of a 64-bit host.
  unfoldable pub option_r : Text → Parsing → Action Parsing
  option_r arg s =
      store (parse_scalar c arg payload_size uint64_max (parse_memory_unit c))
        λ x. with_cf s (record (s.cf) { cf_rbuf = x })

  unfoldable pub option_s : Text → Parsing → Action Parsing
  option_s arg s =
      store (parse_scalar c arg payload_size uint64_max (parse_memory_unit c))
        λ x. with_cf s (record (s.cf) { cf_sbuf = x })

  unfoldable pub option_t : Text → Parsing → Action Parsing
  option_t arg s = store (parse_uint64 c arg 1 255) λ x. with_cf s (record (s.cf) { cf_ttl = x })

  unfoldable pub option_u : Text → Parsing → Action Parsing
  option_u arg s =
      store (parse_scalar c arg 1 uint64_max (parse_time_unit c))
        λ x. with_cf s (record (s.cf) { cf_rld = x })

  unfoldable pub option_w : Text → Parsing → Action Parsing
  option_w arg s =
      store (parse_scalar c arg 1 uint64_max (parse_time_unit c))
        λ x. with_cf s (record (s.cf) { cf_wait = x })

  abbrev pub flag : ℕ → (Text → Parsing → Action Parsing) → Opt Parsing
  flag n act = record { op_name = n; op_arg = false; op_act = act }

  abbrev pub valued : ℕ → (Text → Parsing → Action Parsing) → Opt Parsing
  valued n act = record { op_name = n; op_arg = true; op_act = act }

  unfoldable pub opts : List (Opt Parsing)
  opts =
      flag b'6' option_6
      ∷ valued b'a' option_a
      ∷ valued b'c' option_c
      ∷ flag b'e' option_e
      ∷ flag b'g' option_g
      ∷ flag b'h' option_h
      ∷ valued b'i' option_i
      ∷ valued b'j' option_j
      ∷ valued b'k' option_k
      ∷ valued b'l' option_l
      ∷ flag b'm' option_m
      ∷ flag b'n' option_n
      ∷ valued b'p' option_p
      ∷ flag b'q' option_q
      ∷ valued b'r' option_r
      ∷ valued b's' option_s
      ∷ valued b't' option_t
      ∷ valued b'u' option_u
      ∷ flag b'v' option_v
      ∷ valued b'w' option_w
      ∷ []

  abbrev pub with_targets : Parsing → List Text → Parsing
  with_targets s args =
      with_cf s
        (record (s.cf) { cf_tg = map some args ++ replicate (s.cf.cf_ntg - length args) none })

  -- `gs` is what getopt(3) returns before its -1, `args` the positional arguments after it, and
  -- `allocated` whether calloc(3) succeeds.
  unfoldable pub parse_config : List Getopt → List Text → Bool → Action Parsing
  unfolding set_defaults
  parse_config gs args allocated =
      elim (run_options opts gs (record { cf = set_defaults; attached = 0 })) [
        | next s ↦
            if length args == 0
            then refused
            else if ltb s.cf.cf_ntg (length args)
            then refused
            else if allocated
            then next (with_targets s args)
            else refused
        | refused ↦ refused
        | exits ↦ exits
      ]
