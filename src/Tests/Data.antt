-- ===== src/Tests/Data.antt =====
-- Hosts of both byte orders, and a channel, a payload and datagrams for the tests.
use nemo_core.Prelude.{
  ℕ, ◌+◌, ◌*◌, ◌/◌, ◌%◌, ◌<◌, ◌≡◌, refl, false, some, List, [], ◌∷◌, replicate, arith,
}
use nemo_core.Convert.{ByteOrder, IsByteOrder}
use nemo_core.Payload.{Payload, SockAddr, inet}
use nemo_core.Channel.{Channel, ipv4_name}
use nemo_core.Packet.{Labels, Received, Wrapper}

-- A big-endian host.
abbrev pub big_host : ByteOrder
big_host = record { htons = λ x. x; ntohs = λ x. x; htonl = λ x. x; ntohl = λ x. x }

pub big_host-IsByteOrder : IsByteOrder big_host
big_host-IsByteOrder = record {
  htons-lt = λ x h. h;
  ntohs-lt = λ x h. h;
  ntohs-htons = λ x h. refl;
  htonl-lt = λ x h. h;
  ntohl-lt = λ x h. h;
  ntohl-htonl = λ x h. refl;
}

abbrev pub swap16 : ℕ → ℕ
swap16 x = x % 256 * 256 + x / 256 % 256

abbrev pub swap32 : ℕ → ℕ
swap32 x = x % 256 * 16777216 + x / 256 % 256 * 65536 + x / 65536 % 256 * 256 + x / 16777216 % 256

-- A little-endian host.
abbrev pub little_host : ByteOrder
little_host = record { htons = swap16; ntohs = swap16; htonl = swap32; ntohl = swap32 }

swap32-lt : (x : ℕ) → x < 4294967296 → swap32 x < 4294967296
swap32-lt x h = omega arith

swap32-swap32 : (x : ℕ) → x < 4294967296 → swap32 (swap32 x) ≡ x
swap32-swap32 x h = omega arith

pub little_host-IsByteOrder : IsByteOrder little_host
little_host-IsByteOrder = record {
  htons-lt = λ x h. omega arith;
  ntohs-lt = λ x h. omega arith;
  ntohs-htons = λ x h. omega arith;
  htonl-lt = swap32-lt;
  ntohl-lt = swap32-lt;
  ntohl-htonl = swap32-swap32;
}

-- The numbers on Linux.
abbrev pub linux : Labels
linux = record { ipproto_ip = 0; type4 = 2; ipproto_ipv6 = 41; type6 = 52 }

abbrev pub host_name : List ℕ
host_name = replicate 48 b'h'

abbrev pub channel : Channel
channel = record {
  ch_rall = 5;
  ch_reni = 0;
  ch_resz = 1;
  ch_remg = 0;
  ch_repv = 0;
  ch_rety = 0;
  ch_sall = 4;
  ch_seni = 0;
  ch_name = ipv4_name;
  ch_sock = some 3;
  ch_port = 23000;
}

abbrev pub request : Payload
request = record {
  pl_mgic = 0x444c;
  pl_len = 128;
  pl_fver = 9;
  pl_type = 0;
  pl_pad = 0;
  pl_pad2 = 0;
  pl_ttl1 = 64;
  pl_ttl2 = 0;
  pl_snum = 3;
  pl_slen = 10;
  pl_key = 77;
  pl_mtm1 = 1000;
  pl_rtm1 = 2000;
  pl_mtm2 = 0;
  pl_rtm2 = 0;
  pl_host = replicate 48 b'q';
  pl_pad3 = replicate 12 0;
}

abbrev pub peer : SockAddr
peer = inet 40000 16777343

abbrev pub buffer_of : Payload → Wrapper
buffer_of p = record { base = p; rest = [] }

-- The datagram that carries `request` to a big-endian host, with a time-to-live of 61.
abbrev pub datagram : Received
datagram = record {
  len = some 128;
  trunc = false;
  ctrunc = false;
  from = peer;
  buffer = buffer_of request;
  control = record { level = 0; type = 2; val = 61 } ∷ [];
}
