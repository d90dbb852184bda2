-- ===== src/Payload.antt =====
-- src/common/payload.h, and the socket addresses of the system's headers.
use nemo_core.Prelude.{ℕ, ◌^◌, ◌<◌, List}

abbrev pub type_request : ℕ
type_request = 0

abbrev pub type_response : ℕ
type_response = 1

abbrev pub payload_magic : ℕ
payload_magic = 0x444c

abbrev pub payload_version : ℕ
payload_version = 9

abbrev pub payload_size : ℕ
payload_size = 128

abbrev pub host_name_size : ℕ
host_name_size = 48

pub record Payload : Type 0 where
  pub pl_mgic : ℕ
  pub pl_len : ℕ
  pub pl_fver : ℕ
  pub pl_type : ℕ
  pub pl_pad : ℕ
  pub pl_pad2 : ℕ
  pub pl_ttl1 : ℕ
  pub pl_ttl2 : ℕ
  pub pl_snum : ℕ
  pub pl_slen : ℕ
  pub pl_key : ℕ
  pub pl_mtm1 : ℕ
  pub pl_rtm1 : ℕ
  pub pl_mtm2 : ℕ
  pub pl_rtm2 : ℕ
  pub pl_host : List ℕ
  pub pl_pad3 : List ℕ

-- The multi-byte fields hold values of their types.
pub record IsPayload (p : Payload) : Type 0 where
  pub mgic_lt : p.pl_mgic < 65536
  pub len_lt : p.pl_len < 65536
  pub snum_lt : p.pl_snum < 2 ^ 64
  pub slen_lt : p.pl_slen < 2 ^ 64
  pub key_lt : p.pl_key < 2 ^ 64
  pub mtm1_lt : p.pl_mtm1 < 2 ^ 64
  pub rtm1_lt : p.pl_rtm1 < 2 ^ 64
  pub mtm2_lt : p.pl_mtm2 < 2 ^ 64
  pub rtm2_lt : p.pl_rtm2 < 2 ^ 64

-- `struct sockaddr_storage` read as `sockaddr_in` (port and address) or `sockaddr_in6` (port and
-- the 16 address bytes), all in network byte order.
pub data SockAddr : Type 0 where
  inet : ℕ → ℕ → SockAddr
  inet6 : ℕ → List ℕ → SockAddr
