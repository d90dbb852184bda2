-- ===== src/Channel/Shown.antt =====
-- src/common/channel.c, log_channel: the entries that the log is given for a channel.
use nemo_core.Prelude.{ℕ, ◌≡◌, ◌↔◌, List, [], ◌∷◌, arith}
use nemo_core.Channel.{Channel}

-- One line each.
pub data Entry : Type 0 where
  local_port overall_received receive_network_errors receive_size_mismatches : ℕ → Entry
  receive_magic_mismatches receive_version_mismatches receive_type_mismatches : ℕ → Entry
  overall_sent send_network_errors : ℕ → Entry

unfoldable pub log_channel : Channel → List Entry
log_channel ch =
    local_port ch.ch_port
    ∷ overall_received ch.ch_rall
    ∷ receive_network_errors ch.ch_reni
    ∷ receive_size_mismatches ch.ch_resz
    ∷ receive_magic_mismatches ch.ch_remg
    ∷ receive_version_mismatches ch.ch_repv
    ∷ receive_type_mismatches ch.ch_rety
    ∷ overall_sent ch.ch_sall
    ∷ send_network_errors ch.ch_seni
    ∷ []

-- The entries tell the whole channel, but for its name and its socket: two channels with the same of
-- both give the same entries exactly when they are the same.
pub log_channel_iff :
    (a b : Channel)
    → a.ch_name ≡ b.ch_name
    → a.ch_sock ≡ b.ch_sock
    → (log_channel a ≡ log_channel b) ↔ (a ≡ b)
unfolding log_channel
log_channel_iff a b name sock = (λ h. ground arith, λ h. ground arith)
