-- ===== src/Ures/Config/Laws.antt =====
-- Every configuration that the responder's options can produce is within its ranges.
use nemo_core.Prelude.{
  ℕ, ◌+◌, ◌≤◌, ◌≡◌, ◌⊎◌, inl, inr, some, List, ◌==◌, length, length-set, if◌then◌else◌, arith,
  Bool-cases,
}
use mathlib.Core.Path.{subst}
use nemo_core.Parse.{Text, Libc}
use nemo_core.Parse.Laws.{parse_uint64_bounds, parse_scalar_bounds}
use nemo_core.Options.{Action, next, refused, exits, Getopt, run_options}
use nemo_core.Options.Laws.{Keeps, store-Keeps, EachKeeps, run_options-Keeps, next-injective}
use nemo_core.Ures.Config.{
  Parsing, plug_max, uint64_max, set_defaults, raise_level, option_6, option_a, option_d, option_e,
  option_h, option_k, option_l, option_m, option_n, option_p, option_q, option_r, option_s,
  option_t, option_v, opts, parse_config,
}

pub record IsValid (s : Parsing) : Type 0 where
  pub slots : length s.cf.cf_plgs ≡ plug_max
  pub attached_le : s.attached ≤ plug_max
  pub port_pos : 1 ≤ s.cf.cf_port
  pub port_le : s.cf.cf_port ≤ 65535
  pub ttl_pos : 1 ≤ s.cf.cf_ttl
  pub ttl_le : s.cf.cf_ttl ≤ 255
  pub len_any : (s.cf.cf_len ≡ 0) ⊎ (128 ≤ s.cf.cf_len)
  pub len_le : s.cf.cf_len ≤ 64436
  pub rbuf_ge : 128 ≤ s.cf.cf_rbuf
  pub sbuf_ge : 128 ≤ s.cf.cf_sbuf
  pub key_le : s.cf.cf_key ≤ uint64_max
  pub ito_le : s.cf.cf_ito ≤ uint64_max
  pub llvl_le : s.cf.cf_llvl ≤ 4

-- `option_v` goes up one level, and stays at the last.
raise_level_lem : (l : ℕ) → l ≤ 4 → raise_level l ≡ (if l == 4 then 4 else l + 1)
unfolding raise_level
raise_level_lem l h = ground arith

option_v-IsValid : (arg : Text) (s : Parsing) → IsValid s → Keeps IsValid (option_v arg s)
unfolding option_v
option_v-IsValid arg s v = ground arith

option_a-IsValid : (arg : Text) (s : Parsing) → IsValid s → Keeps IsValid (option_a arg s)
unfolding option_a
option_a-IsValid arg s v = ground (arith, length-set s.cf.cf_plgs s.attached (some arg))

defaults-IsValid : IsValid (record { cf = set_defaults; attached = 0 })
unfolding set_defaults
defaults-IsValid = ground arith

module _ (c : Libc) where
  option_d-IsValid : (arg : Text) (s : Parsing) → IsValid s → Keeps IsValid (option_d c arg s)
  unfolding option_d
  option_d-IsValid arg s v =
      store-Keeps IsValid _ 1 uint64_max _ (λ x. parse_scalar_bounds c arg 1 uint64_max _ x)
        (λ x lo hi. ground arith)

  option_k-IsValid : (arg : Text) (s : Parsing) → IsValid s → Keeps IsValid (option_k c arg s)
  unfolding option_k
  option_k-IsValid arg s v =
      store-Keeps IsValid _ 1 uint64_max _ (λ x. parse_uint64_bounds c arg 1 uint64_max x)
        (λ x lo hi. ground arith)

  option_l-IsValid : (arg : Text) (s : Parsing) → IsValid s → Keeps IsValid (option_l c arg s)
  unfolding option_l
  option_l-IsValid arg s v =
      store-Keeps IsValid _ 128 64436 _ (λ x. parse_scalar_bounds c arg 128 64436 _ x)
        (λ x lo hi. ground arith)

  option_p-IsValid : (arg : Text) (s : Parsing) → IsValid s → Keeps IsValid (option_p c arg s)
  unfolding option_p
  option_p-IsValid arg s v =
      store-Keeps IsValid _ 1 65535 _ (λ x. parse_uint64_bounds c arg 1 65535 x)
        (λ x lo hi. ground arith)

  option_r-IsValid : (arg : Text) (s : Parsing) → IsValid s → Keeps IsValid (option_r c arg s)
  unfolding option_r
  option_r-IsValid arg s v =
      store-Keeps IsValid _ 128 uint64_max _ (λ x. parse_scalar_bounds c arg 128 uint64_max _ x)
        (λ x lo hi. ground arith)

  option_s-IsValid : (arg : Text) (s : Parsing) → IsValid s → Keeps IsValid (option_s c arg s)
  unfolding option_s
  option_s-IsValid arg s v =
      store-Keeps IsValid _ 128 uint64_max _ (λ x. parse_scalar_bounds c arg 128 uint64_max _ x)
        (λ x lo hi. ground arith)

  option_t-IsValid : (arg : Text) (s : Parsing) → IsValid s → Keeps IsValid (option_t c arg s)
  unfolding option_t
  option_t-IsValid arg s v =
      store-Keeps IsValid _ 1 255 _ (λ x. parse_uint64_bounds c arg 1 255 x)
        (λ x lo hi. ground arith)

  each_option-IsValid : EachKeeps IsValid (opts c)
  unfolding opts option_6 option_e option_h option_m option_n option_q
  each_option-IsValid = (
    λ arg s v. ground arith,
    (
      option_a-IsValid,
      (
        option_d-IsValid,
        (
          λ arg s v. ground arith,
          (
            λ arg s v. tt,
            (
              option_k-IsValid,
              (
                option_l-IsValid,
                (
                  λ arg s v. ground arith,
                  (
                    λ arg s v. ground arith,
                    (
                      option_p-IsValid,
                      (
                        λ arg s v. ground arith,
                        (
                          option_r-IsValid,
                          (option_s-IsValid, (option_t-IsValid, (option_v-IsValid, tt))),
                        ),
                      ),
                    ),
                  ),
                ),
              ),
            ),
          ),
        ),
      ),
    ),
  )

  -- Whatever getopt(3) returns, a configuration that `parse_config` accepts has all 32 plugin slots
  -- with at most 32 attached, a port in 1..65535, a time-to-live in 1..255, a length that is 0 or in
  -- 128..64436, buffers of at least 128 bytes, a key and a timeout in 64 bits and a log level of at
  -- most 4; and there were no positional arguments.
  pub responder_config-IsValid :
      (gs : List Getopt) (positional : ℕ) (s : Parsing)
      → parse_config c gs positional ≡ next s
      → IsValid s × (positional ≡ 0)
  unfolding parse_config
  responder_config-IsValid gs positional s h =
      go (run_options (opts c) gs start)
        (run_options-Keeps IsValid (opts c) gs start each_option-IsValid defaults-IsValid) h
    where
      start : Parsing
      start = record { cf = set_defaults; attached = 0 }

      go :
          (a : Action Parsing)
          → Keeps IsValid a
          → (elim a [
            | next s ↦ if positional == 0 then next s else refused
            | refused ↦ refused
            | exits ↦ exits
          ])
            ≡ next s
          → IsValid s × (positional ≡ 0)
      go (next t) k e = elim (Bool-cases (positional == 0)) [
        | inl z ↦ (subst IsValid (next-injective (rw z at e)) k, ground arith)
        | inr z ↦ ground arith
      ]
      go refused k e = cc
      go exits k e = cc
