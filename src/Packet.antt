-- ===== src/Packet.antt =====
-- src/common/packet.c: payloads on the wire. `sendmsg` and `recvmsg` are the environment: the model
-- takes what they return and what `recvmsg` writes.
pub mod Receive
pub mod RoundTrip
use nemo_core.Prelude.{
  ℕ, Bool, true, false, ◌&&◌, ◌||◌, Option, none, some, List, [], ◌∷◌, ltb, ◌==◌, ◌!=◌,
  if◌then◌else◌,
}
use nemo_core.Word.{u8}
use nemo_core.Convert.{ByteOrder, htonll, ntohll}
use nemo_core.Payload.{Payload, SockAddr, payload_magic, payload_version, payload_size}
use nemo_core.Channel.{Channel, bump}

-- The static buffer of 65536 bytes: the first 128 read as a payload, and the bytes after them.
pub record Wrapper : Type 0 where
  pub base : Payload
  pub rest : List ℕ

-- What `sendmsg` is given: the socket, the destination, and the first `iov_len` bytes of a buffer.
pub record Message : Type 0 where
  pub sock : Option ℕ
  pub msg_name : SockAddr
  pub buffer : Wrapper
  pub iov_len : ℕ

-- A control message, with the first `int` of its data as a bit pattern.
pub record Cmsg : Type 0 where
  pub level : ℕ
  pub type : ℕ
  pub val : ℕ

-- The level and type numbers of the platform's headers.
pub record Labels : Type 0 where
  pub ipproto_ip : ℕ
  pub type4 : ℕ
  pub ipproto_ipv6 : ℕ
  pub type6 : ℕ

-- What `recvmsg` returns (`none` is a negative length), the flags it sets, and what it writes.
pub record Received : Type 0 where
  pub len : Option ℕ
  pub trunc : Bool
  pub ctrunc : Bool
  pub from : SockAddr
  pub buffer : Wrapper
  pub control : List Cmsg

-- What `receive_packet` hands to its caller when it returns true.
pub record Incoming : Type 0 where
  pub pl : Payload
  pub ttl : ℕ
  pub addr : SockAddr

module _ (bo : ByteOrder) where
  unfoldable pub encode_payload : Payload → Payload
  encode_payload src = record src {
    pl_mgic = bo.htons src.pl_mgic;
    pl_len = bo.htons src.pl_len;
    pl_snum = htonll bo src.pl_snum;
    pl_slen = htonll bo src.pl_slen;
    pl_key = htonll bo src.pl_key;
    pl_mtm1 = htonll bo src.pl_mtm1;
    pl_rtm1 = htonll bo src.pl_rtm1;
    pl_mtm2 = htonll bo src.pl_mtm2;
    pl_rtm2 = htonll bo src.pl_rtm2;
  }

  unfoldable pub decode_payload : Payload → Payload
  decode_payload src = record src {
    pl_mgic = bo.ntohs src.pl_mgic;
    pl_len = bo.ntohs src.pl_len;
    pl_snum = ntohll bo src.pl_snum;
    pl_slen = ntohll bo src.pl_slen;
    pl_key = ntohll bo src.pl_key;
    pl_mtm1 = ntohll bo src.pl_mtm1;
    pl_rtm1 = ntohll bo src.pl_rtm1;
    pl_mtm2 = ntohll bo src.pl_mtm2;
    pl_rtm2 = ntohll bo src.pl_rtm2;
  }

unfoldable pub verify_payload : Channel → Payload → Channel × Bool
verify_payload ch pl =
    if pl.pl_mgic != payload_magic
    then (record ch { ch_remg = bump ch.ch_remg }, false)
    else if pl.pl_fver != payload_version
    then (record ch { ch_repv = bump ch.ch_repv }, false)
    else (ch, true)

-- The first control message with either label; 0 if there is none.
unfoldable pub retrieve_ttl : Labels → List Cmsg → ℕ
retrieve_ttl k [] = 0
retrieve_ttl k (m ∷ ms) =
    let rest = retrieve_ttl k ms in
    if m.level == k.ipproto_ip && m.type == k.type4
    then u8 m.val
    else if m.level == k.ipproto_ipv6 && m.type == k.type6
    then u8 m.val
    else rest

-- A call of `send_packet`: the channel and the buffer after it, the message it gave to `sendmsg`,
-- and its result.
pub record Sent : Type 0 where
  pub ch : Channel
  pub wrapper : Wrapper
  pub message : Message
  pub ok : Bool

abbrev pub is_length : Option ℕ → ℕ → Bool
is_length none n = false
is_length (some k) n = k == n

-- `result` is what `sendmsg` returns.
unfoldable pub send_packet : ByteOrder → Channel → Wrapper → Payload → SockAddr → Option ℕ → Sent
send_packet bo ch wrapper pl ad result =
    let filled = record wrapper { base = encode_payload bo pl } in
    let counted = record ch { ch_sall = bump ch.ch_sall } in
    let sent = is_length result pl.pl_len in
    record {
      ch = if sent then counted else record counted { ch_seni = bump counted.ch_seni };
      wrapper = filled;
      message = record { sock = ch.ch_sock; msg_name = ad; buffer = filled; iov_len = pl.pl_len };
      ok = sent;
    }

-- The checks after a datagram of at least `payload_size` bytes has arrived whole.
unfoldable pub accept_datagram :
    ByteOrder → Labels → Channel → Received → ℕ → Channel × Option Incoming
unfolding verify_payload
accept_datagram bo k ch got len =
    let pl = decode_payload bo got.buffer.base in
    let ttl = if got.ctrunc then 0 else retrieve_ttl k got.control in
    let (ch', valid) = verify_payload ch pl in
    if len != pl.pl_len
    then (ch, none)
    else (ch', if valid then some (record { pl = pl; ttl = ttl; addr = got.from }) else none)

-- `none` where the code returns false.
unfoldable pub receive_packet : ByteOrder → Labels → Channel → Received → Channel × Option Incoming
unfolding accept_datagram
receive_packet bo k ch got =
    let counted = record ch { ch_rall = bump ch.ch_rall } in
    elim got.len [
      | none ↦ (record counted { ch_reni = bump counted.ch_reni }, none)
      | some len ↦
          if ltb len payload_size || got.trunc
          then (record counted { ch_resz = bump counted.ch_resz }, none)
          else accept_datagram bo k counted got len
    ]
