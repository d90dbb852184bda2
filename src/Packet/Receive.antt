-- ===== src/Packet/Receive.antt =====
-- What `receive_packet` accepts, and how it counts.
use nemo_core.Prelude.{
  ℕ, ◌+◌, ◌^◌, ◌≤◌, ◌<◌, ◌≡◌, ◌≢◌, ◌↔◌, ◌⊎◌, inl, inr, false, Option, none, some, if◌then◌else◌,
  arith, Option-cases, Bool-cases, ◌==◌, ltb, ◌||◌,
}
use nemo_core.Convert.{ByteOrder}
use nemo_core.Payload.{payload_magic, payload_version, payload_size}
use nemo_core.Channel.{Channel, bump}
use nemo_core.Packet.{Labels, Received, Incoming, decode_payload, retrieve_ttl, receive_packet}

-- A datagram that the receiver takes: long enough and whole, of the length that its payload says,
-- with the magic identifier and the version.
pub record IsGood (bo : ByteOrder) (got : Received) : Type 0 where
  pub length : got.len ≡ some (decode_payload bo got.buffer.base).pl_len
  pub enough : payload_size ≤ (decode_payload bo got.buffer.base).pl_len
  pub whole : got.trunc ≡ false
  pub magic : (decode_payload bo got.buffer.base).pl_mgic ≡ payload_magic
  pub version : (decode_payload bo got.buffer.base).pl_fver ≡ payload_version

module _ (bo : ByteOrder) (k : Labels) (ch : Channel) (got : Received) where
  -- The packet is accepted exactly when it is good, and then the caller gets the decoded payload,
  -- the sender's address, and the time-to-live of the control data, or 0 if that was cut.
  pub receive_packet_iff :
      (p : Incoming)
      → ((receive_packet bo k ch got).1 ≡ some p) ↔ (
          IsGood bo got
          × (p ≡ record {
            pl = decode_payload bo got.buffer.base;
            ttl = if got.ctrunc then 0 else retrieve_ttl k got.control;
            addr = got.from;
          }))
  unfolding receive_packet
  receive_packet_iff p = (λ h. ground arith, λ h. ground arith)

-- All errors of reception that a channel has counted.
abbrev pub errors : Channel → ℕ
errors ch = ch.ch_reni + ch.ch_resz + ch.ch_remg + ch.ch_repv

-- The error counters have room for one more.
pub record HasRoom (ch : Channel) : Type 0 where
  pub reni_lt : ch.ch_reni + 1 < 2 ^ 64
  pub resz_lt : ch.ch_resz + 1 < 2 ^ 64
  pub remg_lt : ch.ch_remg + 1 < 2 ^ 64
  pub repv_lt : ch.ch_repv + 1 < 2 ^ 64

module _ (bo : ByteOrder) (k : Labels) (ch : Channel) (got : Received) where
  abbrev after : Channel
  after = (receive_packet bo k ch got).0

  abbrev result : Option Incoming
  result = (receive_packet bo k ch got).1

  -- The datagram is whole and long enough, and differs in length from what its payload says.
  abbrev pub WrongLength : Type 0
  WrongLength =
      (len : ℕ) × (got.len ≡ some len)
      × (payload_size ≤ len)
      × (got.trunc ≡ false)
      × (len ≢ (decode_payload bo got.buffer.base).pl_len)

  -- Accepted with no error counted, refused with one counted, or refused with none counted, which
  -- only the wrong length is.
  abbrev pub Outcome : Type 0
  Outcome =
      ((result ≢ none) × (errors after ≡ errors ch))
      ⊎ (((result ≡ none) × (errors after ≡ errors ch + 1))
          ⊎ ((result ≡ none) × (errors after ≡ errors ch) × WrongLength))

  received-Outcome : HasRoom ch → (len : ℕ) → got.len ≡ some len → Outcome
  unfolding receive_packet
  received-Outcome room len e = elim (Bool-cases (ltb len payload_size || got.trunc)) [
    | inl short ↦ inr (inl (ground arith, ground arith))
    | inr full ↦ elim (Bool-cases (len == (decode_payload bo got.buffer.base).pl_len)) [
      | inl same ↦ ground arith
      | inr differs ↦
          inr (inr (ground arith, ground arith, (len, e, ground arith, ground arith, ground arith)))
    ]
  ]

  failed-Outcome : HasRoom ch → got.len ≡ none → Outcome
  unfolding receive_packet
  failed-Outcome room e = inr (inl (ground arith, ground arith))

  -- Each call counts one datagram. An accepted one counts no error. A refused one counts exactly
  -- one error, unless it arrived whole and long enough with a length other than its payload's,
  -- which is counted nowhere. The counters of the type and of sending, the socket and the port
  -- stay. The error counters must have room for one more.
  pub receive_packet_counts :
      HasRoom ch
      → Outcome
        × (after.ch_rall ≡ bump ch.ch_rall)
        × (after.ch_rety ≡ ch.ch_rety)
        × (after.ch_sall ≡ ch.ch_sall)
        × (after.ch_seni ≡ ch.ch_seni)
        × (after.ch_sock ≡ ch.ch_sock)
        × (after.ch_port ≡ ch.ch_port)
  unfolding receive_packet
  receive_packet_counts room = (
    elim (Option-cases got.len) [
      | inl e ↦ failed-Outcome room e
      | inr (len, e) ↦ received-Outcome room len e
    ],
    ground arith,
    ground arith,
    ground arith,
    ground arith,
    ground arith,
    ground arith,
  )
