-- ===== src/Ures/Config/Shown.antt =====
-- src/ures/config.c, log_config: the entries that the log is given for a configuration.
use nemo_core.Prelude.{
  ℕ, ◌≡◌, ◌↔◌, Bool, Option, none, some, List, [], ◌∷◌, ◌==◌, if◌then◌else◌, arith,
}
use nemo_core.Ures.Config.{Config}

-- One line each; `none` is "any" or "infinity".
pub data Entry : Type 0 where
  udp_port time_to_live send_buffer_size receive_buffer_size : ℕ → Entry
  unique_key inactivity_timeout payload_length : Option ℕ → Entry
  protocol_version_4 exit_on_error monologue_mode : Bool → Entry

abbrev pub shown : ℕ → Option ℕ
shown x = if x == 0 then none else some x

-- The line of the receive buffer is given the size of the send buffer.
unfoldable pub log_config : Config → List Entry
log_config cf =
    udp_port cf.cf_port
    ∷ unique_key (shown cf.cf_key)
    ∷ time_to_live cf.cf_ttl
    ∷ inactivity_timeout (shown cf.cf_ito)
    ∷ payload_length (shown cf.cf_len)
    ∷ send_buffer_size cf.cf_sbuf
    ∷ receive_buffer_size cf.cf_sbuf
    ∷ protocol_version_4 cf.cf_ipv4
    ∷ exit_on_error cf.cf_err
    ∷ monologue_mode cf.cf_mono
    ∷ []

-- The settings that the entries tell: the size of the receive buffer is not one of them.
pub record IsAlike (a b : Config) : Type 0 where
  pub port : a.cf_port ≡ b.cf_port
  pub key : a.cf_key ≡ b.cf_key
  pub ttl : a.cf_ttl ≡ b.cf_ttl
  pub ito : a.cf_ito ≡ b.cf_ito
  pub len : a.cf_len ≡ b.cf_len
  pub sbuf : a.cf_sbuf ≡ b.cf_sbuf
  pub ipv4 : a.cf_ipv4 ≡ b.cf_ipv4
  pub err : a.cf_err ≡ b.cf_err
  pub mono : a.cf_mono ≡ b.cf_mono

-- Two configurations give the same entries exactly when they agree in these settings.
pub log_config_iff : (a b : Config) → (log_config a ≡ log_config b) ↔ IsAlike a b
unfolding log_config
log_config_iff a b = (λ h. ground arith, λ h. ground arith)
