-- ===== src/Packet/RoundTrip.antt =====
-- A payload survives the wire format, and a packet that is sent is received as it was.
use nemo_core.Prelude.{ℕ, ◌≤◌, ◌≡◌, false, Option, some, if◌then◌else◌, sym}
use nemo_core.Convert.{ByteOrder, IsByteOrder}
use nemo_core.Convert.Integers.{ntohll-htonll, ntohll-lt}
use nemo_core.Payload.{Payload, IsPayload, SockAddr, payload_magic, payload_version, payload_size}
use nemo_core.Channel.{Channel}
use nemo_core.Packet.{
  Labels, Received, Wrapper, Message, encode_payload, decode_payload, retrieve_ttl, send_packet,
  receive_packet,
}
use nemo_core.Packet.Receive.{IsGood, receive_packet_iff}

-- Decoding undoes encoding, on a host of either byte order.
pub decode-encode :
    (bo : ByteOrder)
    → IsByteOrder bo
    → (p : Payload) → IsPayload p
    → decode_payload bo (encode_payload bo p) ≡ p
unfolding encode_payload decode_payload
decode-encode bo law p h = λ i. record {
  pl_mgic = law.ntohs-htons p.pl_mgic h.mgic_lt i;
  pl_len = law.ntohs-htons p.pl_len h.len_lt i;
  pl_fver = p.pl_fver;
  pl_type = p.pl_type;
  pl_pad = p.pl_pad;
  pl_pad2 = p.pl_pad2;
  pl_ttl1 = p.pl_ttl1;
  pl_ttl2 = p.pl_ttl2;
  pl_snum = ntohll-htonll bo law p.pl_snum h.snum_lt i;
  pl_slen = ntohll-htonll bo law p.pl_slen h.slen_lt i;
  pl_key = ntohll-htonll bo law p.pl_key h.key_lt i;
  pl_mtm1 = ntohll-htonll bo law p.pl_mtm1 h.mtm1_lt i;
  pl_rtm1 = ntohll-htonll bo law p.pl_rtm1 h.rtm1_lt i;
  pl_mtm2 = ntohll-htonll bo law p.pl_mtm2 h.mtm2_lt i;
  pl_rtm2 = ntohll-htonll bo law p.pl_rtm2 h.rtm2_lt i;
  pl_host = p.pl_host;
  pl_pad3 = p.pl_pad3;
}

-- Decoding leaves every field within its type.
pub decode_payload-IsPayload :
    (bo : ByteOrder)
    → IsByteOrder bo
    → (p : Payload) → IsPayload p
    → IsPayload (decode_payload bo p)
unfolding decode_payload
decode_payload-IsPayload bo law p h = record {
  mgic_lt = law.ntohs-lt p.pl_mgic h.mgic_lt;
  len_lt = law.ntohs-lt p.pl_len h.len_lt;
  snum_lt = ntohll-lt bo law p.pl_snum h.snum_lt;
  slen_lt = ntohll-lt bo law p.pl_slen h.slen_lt;
  key_lt = ntohll-lt bo law p.pl_key h.key_lt;
  mtm1_lt = ntohll-lt bo law p.pl_mtm1 h.mtm1_lt;
  rtm1_lt = ntohll-lt bo law p.pl_rtm1 h.rtm1_lt;
  mtm2_lt = ntohll-lt bo law p.pl_mtm2 h.mtm2_lt;
  rtm2_lt = ntohll-lt bo law p.pl_rtm2 h.rtm2_lt;
}

-- The datagram `got` carries the message: all of its bytes arrived.
pub record Carries (m : Message) (got : Received) : Type 0 where
  pub base : got.buffer.base ≡ m.buffer.base
  pub all : got.len ≡ some m.iov_len
  pub whole : got.trunc ≡ false

-- A payload of this version, whose fields fit their types and whose length is at least 128, sent by
-- `send_packet`, whatever the buffer held before, is accepted by `receive_packet` when the datagram
-- arrives whole, and the receiver gets the same payload; the byte order functions must be as POSIX
-- says.
pub receive-send :
    (bo : ByteOrder)
    → IsByteOrder bo
    → (k : Labels) (ch ch' : Channel) (wrapper : Wrapper) (p : Payload) (ad : SockAddr)
      (sent : Option ℕ) (got : Received)
    → IsPayload p
    → p.pl_mgic ≡ payload_magic
    → p.pl_fver ≡ payload_version
    → payload_size ≤ p.pl_len
    → Carries (send_packet bo ch wrapper p ad sent).message got
    → (receive_packet bo k ch' got).1
      ≡ some (record {
        pl = p;
        ttl = if got.ctrunc then 0 else retrieve_ttl k got.control;
        addr = got.from;
      })
unfolding send_packet
receive-send bo law k ch ch' wrapper p ad sent got ok magic version enough c =
    (receive_packet_iff bo k ch' got _).1 (
      good,
      λ i. record {
        pl = sym decoded i;
        ttl = if got.ctrunc then 0 else retrieve_ttl k got.control;
        addr = got.from;
      },
    )
  where
    decoded : decode_payload bo got.buffer.base ≡ p
    decoded = rw c.base (decode-encode bo law p ok)

    good : IsGood bo got
    good = record {
      length = rw decoded c.all;
      enough = rw decoded enough;
      whole = c.whole;
      magic = rw decoded magic;
      version = rw decoded version;
    }
