-- ===== src/Ureq/Config/Laws.antt =====
-- Every configuration that the requester's options can produce is within its ranges.
use nemo_core.Prelude.{
  ◌-◌, map, ◌++◌, replicate, ltb, ◌≤◌, ◌≡◌, refl, Bool, none, some, List, ◌==◌, length, length-set,
  if◌then◌else◌, arith,
}
use mathlib.Core.Path.{subst}
use nemo_core.Parse.{Text, Libc}
use nemo_core.Parse.Laws.{parse_uint64_bounds, parse_scalar_bounds}
use nemo_core.Options.{Action, next, refused, exits, Getopt, run_options}
use nemo_core.Options.Laws.{Keeps, store-Keeps, EachKeeps, run_options-Keeps}
use nemo_core.Ureq.Config.{
  Parsing, plug_max, uint64_max, target_limit, with_targets, set_defaults, option_6, option_a,
  option_c, option_e, option_g, option_h, option_i, option_j, option_k, option_l, option_m,
  option_n, option_p, option_q, option_r, option_s, option_t, option_u, option_w, option_v, opts,
  parse_config,
}

pub record IsValid (s : Parsing) : Type 0 where
  pub slots : length s.cf.cf_pi ≡ plug_max
  pub attached_le : s.attached ≤ plug_max
  pub ntg_pos : 1 ≤ s.cf.cf_ntg
  pub ntg_le : s.cf.cf_ntg ≤ target_limit
  pub cnt_le : s.cf.cf_cnt ≤ uint64_max
  pub int_pos : 1 ≤ s.cf.cf_int
  pub int_le : s.cf.cf_int ≤ uint64_max
  pub wait_pos : 1 ≤ s.cf.cf_wait
  pub wait_le : s.cf.cf_wait ≤ uint64_max
  pub rld_pos : 1 ≤ s.cf.cf_rld
  pub rld_le : s.cf.cf_rld ≤ uint64_max
  pub port_pos : 1 ≤ s.cf.cf_port
  pub port_le : s.cf.cf_port ≤ 65535
  pub ttl_pos : 1 ≤ s.cf.cf_ttl
  pub ttl_le : s.cf.cf_ttl ≤ 255
  pub len_ge : 128 ≤ s.cf.cf_len
  pub len_le : s.cf.cf_len ≤ 64436
  pub rbuf_ge : 128 ≤ s.cf.cf_rbuf
  pub sbuf_ge : 128 ≤ s.cf.cf_sbuf
  pub key_le : s.cf.cf_key ≤ uint64_max
  pub llvl_le : s.cf.cf_llvl ≤ 4

option_v-IsValid : (arg : Text) (s : Parsing) → IsValid s → Keeps IsValid (option_v arg s)
unfolding option_v
option_v-IsValid arg s v = ground arith

option_a-IsValid : (arg : Text) (s : Parsing) → IsValid s → Keeps IsValid (option_a arg s)
unfolding option_a
option_a-IsValid arg s v = ground (arith, length-set s.cf.cf_pi s.attached (some arg))

defaults-IsValid : IsValid (record { cf = set_defaults; attached = 0 })
unfolding set_defaults
defaults-IsValid = ground arith

module _ (c : Libc) where
  option_c-IsValid : (arg : Text) (s : Parsing) → IsValid s → Keeps IsValid (option_c c arg s)
  unfolding option_c
  option_c-IsValid arg s v =
      store-Keeps IsValid _ 0 uint64_max _ (λ x. parse_uint64_bounds c arg 0 uint64_max x)
        (λ x lo hi. ground arith)

  option_i-IsValid : (arg : Text) (s : Parsing) → IsValid s → Keeps IsValid (option_i c arg s)
  unfolding option_i
  option_i-IsValid arg s v =
      store-Keeps IsValid _ 1 uint64_max _ (λ x. parse_scalar_bounds c arg 1 uint64_max _ x)
        (λ x lo hi. ground arith)

  option_j-IsValid : (arg : Text) (s : Parsing) → IsValid s → Keeps IsValid (option_j c arg s)
  unfolding option_j
  option_j-IsValid arg s v =
      store-Keeps IsValid _ 1 target_limit _ (λ x. parse_uint64_bounds c arg 1 target_limit x)
        (λ x lo hi. ground arith)

  option_u-IsValid : (arg : Text) (s : Parsing) → IsValid s → Keeps IsValid (option_u c arg s)
  unfolding option_u
  option_u-IsValid arg s v =
      store-Keeps IsValid _ 1 uint64_max _ (λ x. parse_scalar_bounds c arg 1 uint64_max _ x)
        (λ x lo hi. ground arith)

  option_w-IsValid : (arg : Text) (s : Parsing) → IsValid s → Keeps IsValid (option_w c arg s)
  unfolding option_w
  option_w-IsValid arg s v =
      store-Keeps IsValid _ 1 uint64_max _ (λ x. parse_scalar_bounds c arg 1 uint64_max _ x)
        (λ x lo hi. ground arith)

  option_k-IsValid : (arg : Text) (s : Parsing) → IsValid s → Keeps IsValid (option_k c arg s)
  unfolding option_k
  option_k-IsValid arg s v =
      store-Keeps IsValid _ 1 uint64_max _ (λ x. parse_uint64_bounds c arg 1 uint64_max x)
        (λ x lo hi. ground arith)

  option_l-IsValid : (arg : Text) (s : Parsing) → IsValid s → Keeps IsValid (option_l c arg s)
  unfolding option_l
  option_l-IsValid arg s v =
      store-Keeps IsValid _ 128 64436 _ (λ x. parse_scalar_bounds c arg 128 64436 _ x)
        (λ x lo hi. ground arith)

  option_p-IsValid : (arg : Text) (s : Parsing) → IsValid s → Keeps IsValid (option_p c arg s)
  unfolding option_p
  option_p-IsValid arg s v =
      store-Keeps IsValid _ 1 65535 _ (λ x. parse_uint64_bounds c arg 1 65535 x)
        (λ x lo hi. ground arith)

  option_r-IsValid : (arg : Text) (s : Parsing) → IsValid s → Keeps IsValid (option_r c arg s)
  unfolding option_r
  option_r-IsValid arg s v =
      store-Keeps IsValid _ 128 uint64_max _ (λ x. parse_scalar_bounds c arg 128 uint64_max _ x)
        (λ x lo hi. ground arith)

  option_s-IsValid : (arg : Text) (s : Parsing) → IsValid s → Keeps IsValid (option_s c arg s)
  unfolding option_s
  option_s-IsValid arg s v =
      store-Keeps IsValid _ 128 uint64_max _ (λ x. parse_scalar_bounds c arg 128 uint64_max _ x)
        (λ x lo hi. ground arith)

  option_t-IsValid : (arg : Text) (s : Parsing) → IsValid s → Keeps IsValid (option_t c arg s)
  unfolding option_t
  option_t-IsValid arg s v =
      store-Keeps IsValid _ 1 255 _ (λ x. parse_uint64_bounds c arg 1 255 x)
        (λ x lo hi. ground arith)

  each_option-IsValid : EachKeeps IsValid (opts c)
  unfolding opts option_6 option_e option_g option_h option_m option_n option_q
  each_option-IsValid = (
    λ arg s v. ground arith,
    (
      option_a-IsValid,
      (
        option_c-IsValid,
        (
          λ arg s v. ground arith,
          (
            λ arg s v. ground arith,
            (
              λ arg s v. tt,
              (
                option_i-IsValid,
                (
                  option_j-IsValid,
                  (
                    option_k-IsValid,
                    (
                      option_l-IsValid,
                      (
                        λ arg s v. ground arith,
                        (
                          λ arg s v. ground arith,
                          (
                            option_p-IsValid,
                            (
                              λ arg s v. ground arith,
                              (
                                option_r-IsValid,
                                (
                                  option_s-IsValid,
                                  (
                                    option_t-IsValid,
                                    (option_u-IsValid, (option_v-IsValid, (option_w-IsValid, tt))),
                                  ),
                                ),
                              ),
                            ),
                          ),
                        ),
                      ),
                    ),
                  ),
                ),
              ),
            ),
          ),
        ),
      ),
    ),
  )

  -- Whatever getopt(3) returns, a configuration that `parse_config` accepts has at least one target
  -- and at most `cf_ntg`, in order with NULL behind them; 32 plugin slots with at most 32 attached;
  -- a time-to-live in 1..255, a port in 1..65535 and a length in 128..64436; positive durations in 64
  -- bits; buffers of at least 128 bytes; and a log level of at most 4.
  pub requester_config-IsValid :
      (gs : List Getopt) (args : List Text) (allocated : Bool) (s : Parsing)
      → parse_config c gs args allocated ≡ next s
      → IsValid s
        × (1 ≤ length args)
        × (length args ≤ s.cf.cf_ntg)
        × (s.cf.cf_tg ≡ map some args ++ replicate (s.cf.cf_ntg - length args) none)
  unfolding parse_config
  requester_config-IsValid gs args allocated s h =
      go (run_options (opts c) gs start)
        (run_options-Keeps IsValid (opts c) gs start each_option-IsValid defaults-IsValid) h
    where
      start : Parsing
      start = record { cf = set_defaults; attached = 0 }

      go :
          (a : Action Parsing)
          → Keeps IsValid a
          → (elim a [
            | next s ↦
                if length args == 0
                then refused
                else if ltb s.cf.cf_ntg (length args)
                then refused
                else if allocated
                then next (with_targets c s args)
                else refused
            | refused ↦ refused
            | exits ↦ exits
          ])
            ≡ next s
          → IsValid s
            × (1 ≤ length args)
            × (length args ≤ s.cf.cf_ntg)
            × (s.cf.cf_tg ≡ map some args ++ replicate (s.cf.cf_ntg - length args) none)
      go (next t) k e =
          let same : with_targets c t args ≡ s = ground arith in
          subst
            (λ u.
              IsValid u
              × (1 ≤ length args)
              × (length args ≤ u.cf.cf_ntg)
              × (u.cf.cf_tg ≡ map some args ++ replicate (u.cf.cf_ntg - length args) none))
            same (ground arith, ground arith, ground arith, refl)
      go refused k e = cc
      go exits k e = cc
