-- ===== src/Ureq/Config/Shown.antt =====
-- src/ureq/config.c, log_config: the entries that the log is given for a configuration.
use nemo_core.Prelude.{
  ℕ, ◌≡◌, ◌↔◌, Bool, Option, none, some, List, [], ◌∷◌, ◌==◌, if◌then◌else◌, arith,
}
use nemo_core.Ureq.Config.{Config}

-- One line each; `none` is "any", "infinite" or "only at start".
pub data Entry : Type 0 where
  responder_port number_of_rounds time_to_live receive_buffer_size send_buffer_size : ℕ → Entry
  unique_key final_wait resolution_window payload_length : Option ℕ → Entry
  grouped_pattern protocol_version_4 exit_on_error monologue_mode : Bool → Entry

abbrev pub shown : ℕ → Option ℕ
shown x = if x == 0 then none else some x

unfoldable pub log_config : Config → List Entry
log_config cf =
    responder_port cf.cf_port
    ∷ unique_key (shown cf.cf_key)
    ∷ number_of_rounds cf.cf_cnt
    ∷ grouped_pattern cf.cf_grp
    ∷ time_to_live cf.cf_ttl
    ∷ final_wait (shown cf.cf_wait)
    ∷ resolution_window (shown cf.cf_rld)
    ∷ payload_length (shown cf.cf_len)
    ∷ receive_buffer_size cf.cf_rbuf
    ∷ send_buffer_size cf.cf_sbuf
    ∷ protocol_version_4 cf.cf_ipv4
    ∷ exit_on_error cf.cf_err
    ∷ monologue_mode cf.cf_mono
    ∷ []

-- The settings that the entries tell: the interval of the rounds is not one of them.
pub record IsAlike (a b : Config) : Type 0 where
  pub port : a.cf_port ≡ b.cf_port
  pub key : a.cf_key ≡ b.cf_key
  pub cnt : a.cf_cnt ≡ b.cf_cnt
  pub grp : a.cf_grp ≡ b.cf_grp
  pub ttl : a.cf_ttl ≡ b.cf_ttl
  pub wait : a.cf_wait ≡ b.cf_wait
  pub rld : a.cf_rld ≡ b.cf_rld
  pub len : a.cf_len ≡ b.cf_len
  pub rbuf : a.cf_rbuf ≡ b.cf_rbuf
  pub sbuf : a.cf_sbuf ≡ b.cf_sbuf
  pub ipv4 : a.cf_ipv4 ≡ b.cf_ipv4
  pub err : a.cf_err ≡ b.cf_err
  pub mono : a.cf_mono ≡ b.cf_mono

-- Two configurations give the same entries exactly when they agree in these settings.
pub log_config_iff : (a b : Config) → (log_config a ≡ log_config b) ↔ IsAlike a b
unfolding log_config
log_config_iff a b = (λ h. ground arith, λ h. ground arith)
