-- ===== src/Ures/Config.antt =====
-- src/ures/types.h and src/ures/config.c: the responder's configuration and its options. What
-- `print_usage` and `log_config` print is left out.
pub mod Laws
pub mod Shown
pub mod Usage
use nemo_core.Prelude.{
  ℕ, ◌+◌, Bool, true, false, Option, none, some, List, [], ◌∷◌, ◌==◌, leb, if◌then◌else◌, set,
  replicate,
}
use nemo_core.Parse.{Text, Libc, parse_uint64, parse_time_unit, parse_memory_unit, parse_scalar}
use nemo_core.Options.{Action, next, refused, exits, Opt, Getopt, store, run_options}

abbrev pub plug_max : ℕ
plug_max = 32

abbrev pub uint64_max : ℕ
uint64_max = 18446744073709551615

abbrev pub payload_size : ℕ
payload_size = 128

pub record Config : Type 0 where
  pub cf_plgs : List (Option Text)
  pub cf_port : ℕ
  pub cf_rbuf : ℕ
  pub cf_sbuf : ℕ
  pub cf_key : ℕ
  pub cf_ttl : ℕ
  pub cf_ito : ℕ
  pub cf_len : ℕ
  pub cf_err : Bool
  pub cf_ipv4 : Bool
  pub cf_llvl : ℕ
  pub cf_lcol : Bool
  pub cf_mono : Bool
  pub cf_sil : Bool

-- The configuration, and the static counter of `option_a`.
pub record Parsing : Type 0 where
  pub cf : Config
  pub attached : ℕ

unfoldable pub set_defaults : Config
set_defaults = record {
  cf_plgs = replicate plug_max none;
  cf_port = 23000;
  cf_rbuf = 2000000;
  cf_sbuf = 2000000;
  cf_key = 0;
  cf_ttl = 64;
  cf_ito = 0;
  cf_len = 0;
  cf_err = false;
  cf_ipv4 = true;
  cf_llvl = 1;
  cf_lcol = true;
  cf_mono = false;
  cf_sil = false;
}

abbrev with_cf : Parsing → Config → Parsing
with_cf s c = record s { cf = c }

unfoldable pub option_6 : Text → Parsing → Action Parsing
option_6 arg s = next (with_cf s (record (s.cf) { cf_ipv4 = false }))

unfoldable pub option_a : Text → Parsing → Action Parsing
option_a arg s =
    if leb plug_max s.attached
    then refused
    else next (record {
      cf = record (s.cf) { cf_plgs = set s.cf.cf_plgs s.attached (some arg) };
      attached = s.attached + 1;
    })

unfoldable pub option_e : Text → Parsing → Action Parsing
option_e arg s = next (with_cf s (record (s.cf) { cf_err = true }))

unfoldable pub option_h : Text → Parsing → Action Parsing
option_h arg s = exits

unfoldable pub option_m : Text → Parsing → Action Parsing
option_m arg s = next (with_cf s (record (s.cf) { cf_mono = true }))

unfoldable pub option_n : Text → Parsing → Action Parsing
option_n arg s = next (with_cf s (record (s.cf) { cf_lcol = false }))

unfoldable pub option_q : Text → Parsing → Action Parsing
option_q arg s = next (with_cf s (record (s.cf) { cf_sil = true }))

-- The four tests of `option_v`, in their order. The levels are LL_ERROR 0 to LL_TRACE 4.
unfoldable pub raise_level : ℕ → ℕ
raise_level l =
    let l1 = if l == 3 then 4 else l in
    let l2 = if l1 == 2 then 3 else l1 in
    let l3 = if l2 == 1 then 2 else l2 in if l3 == 0 then 1 else l3

unfoldable pub option_v : Text → Parsing → Action Parsing
unfolding raise_level
option_v arg s = next (with_cf s (record (s.cf) { cf_llvl = raise_level s.cf.cf_llvl }))

module _ (c : Libc) where
  unfoldable pub option_d : Text → Parsing → Action Parsing
  option_d arg s =
      store (parse_scalar c arg 1 uint64_max (parse_time_unit c))
        λ x. with_cf s (record (s.cf) { cf_ito = x })

  unfoldable pub option_k : Text → Parsing → Action Parsing
  option_k arg s =
      store (parse_uint64 c arg 1 uint64_max) λ x. with_cf s (record (s.cf) { cf_key = x })

  unfoldable pub option_l : Text → Parsing → Action Parsing
  option_l arg s =
      store (parse_scalar c arg payload_size 64436 (parse_memory_unit c))
        λ x. with_cf s (record (s.cf) { cf_len = x })

  unfoldable pub option_p : Text → Parsing → Action Parsing
  option_p arg s = store (parse_uint64 c arg 1 65535) λ x. with_cf s (record (s.cf) { cf_port = x })

  -- SIZE_MAX of a 64-bit host.
  unfoldable pub option_r : Text → Parsing → Action Parsing
  option_r arg s =
      store (parse_scalar c arg payload_size uint64_max (parse_memory_unit c))
        λ x. with_cf s (record (s.cf) { cf_rbuf = x })

  unfoldable pub option_s : Text → Parsing → Action Parsing
  option_s arg s =
      store (parse_scalar c arg payload_size uint64_max (parse_memory_unit c))
        λ x. with_cf s (record (s.cf) { cf_sbuf = x })

  unfoldable pub option_t : Text → Parsing → Action Parsing
  option_t arg s = store (parse_uint64 c arg 1 255) λ x. with_cf s (record (s.cf) { cf_ttl = x })

  abbrev pub flag : ℕ → (Text → Parsing → Action Parsing) → Opt Parsing
  flag n act = record { op_name = n; op_arg = false; op_act = act }

  abbrev pub valued : ℕ → (Text → Parsing → Action Parsing) → Opt Parsing
  valued n act = record { op_name = n; op_arg = true; op_act = act }

  unfoldable pub opts : List (Opt Parsing)
  opts =
      flag b'6' option_6
      ∷ valued b'a' option_a
      ∷ valued b'd' option_d
      ∷ flag b'e' option_e
      ∷ flag b'h' option_h
      ∷ valued b'k' option_k
      ∷ valued b'l' option_l
      ∷ flag b'm' option_m
      ∷ flag b'n' option_n
      ∷ valued b'p' option_p
      ∷ flag b'q' option_q
      ∷ valued b'r' option_r
      ∷ valued b's' option_s
      ∷ valued b't' option_t
      ∷ flag b'v' option_v
      ∷ []

  -- `gs` is what getopt(3) returns before its -1, and `positional` is `argc - optind` after it.
  unfoldable pub parse_config : List Getopt → ℕ → Action Parsing
  unfolding set_defaults
  parse_config gs positional =
      elim (run_options opts gs (record { cf = set_defaults; attached = 0 })) [
        | next s ↦ if positional == 0 then next s else refused
        | refused ↦ refused
        | exits ↦ exits
      ]
