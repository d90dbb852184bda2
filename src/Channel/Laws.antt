-- ===== src/Channel/Laws.antt =====
-- What `open_channel` leaves behind.
use nemo_core.Prelude.{
  ℕ, ◌≡◌, Bool, true, false, none, some, ◌≢◌, ◌↔◌, [], ◌∷◌, ◌++◌, if◌then◌else◌, arith,
}
use nemo_core.Convert.{ByteOrder}
use nemo_core.Word.{u32}
use nemo_core.Payload.{inet, inet6}
use nemo_core.Channel.{
  Channel, Answers, null, open_channel, call_socket, set_v6only, call_bind, call_getsockname,
  set_rcvbuf, set_sndbuf, set_hops, set_recv_hops,
}

-- Every system call that the protocol needs succeeds.
pub record Succeeds (a : Answers) (ipv4 : Bool) : Type 0 where
  pub socket : a.socket ≢ none
  pub only : ipv4 ≡ false → a.v6only ≡ true
  pub bind : a.bind ≡ true
  pub rcvbuf : a.rcvbuf ≡ true
  pub sndbuf : a.sndbuf ≡ true
  pub hops : a.hops ≡ true
  pub recv_hops : a.recv_hops ≡ true

-- `open_channel` succeeds exactly when every system call that the protocol needs does.
pub open_channel-ok_iff :
    (bo : ByteOrder) (a : Answers) (ch : Channel) (ipv4 : Bool) (port rbuf sbuf ttl : ℕ)
    → ((open_channel bo a ch ipv4 port rbuf sbuf ttl).ok ≡ true) ↔ Succeeds a ipv4
unfolding open_channel
open_channel-ok_iff bo a ch ipv4 port rbuf sbuf ttl = (λ h. ground arith, λ h. ground arith)

-- A channel that was opened has its counters at 0, the socket of socket(2), the port that the
-- system assigned, or 0 where getsockname(2) fails, and no name (whatever protocol was asked for).
-- The system calls were made in this order with these arguments: bind(2) with the port asked for, in
-- network byte order, and any address, the sizes cut to 32 bits and the time-to-live as given.
pub open_channel_lem :
    (bo : ByteOrder) (a : Answers) (ch : Channel) (ipv4 : Bool) (port rbuf sbuf ttl : ℕ)
    → Succeeds a ipv4
    → ((open_channel bo a ch ipv4 port rbuf sbuf ttl).ch ≡ record {
      ch_sock = a.socket;
      ch_port = elim a.getsockname [
        | none ↦ 0
        | some ss ↦ elim ss [ inet p s ↦ p | inet6 p bs ↦ p ]
      ];
      ch_name = null;
      ch_rall = 0;
      ch_reni = 0;
      ch_resz = 0;
      ch_remg = 0;
      ch_repv = 0;
      ch_rety = 0;
      ch_sall = 0;
      ch_seni = 0;
    })
      × ((open_channel bo a ch ipv4 port rbuf sbuf ttl).calls
          ≡ call_socket ipv4 ∷ (if ipv4 then [] else set_v6only 1 ∷ [])
            ++ (call_bind (
                  if ipv4
                  then inet (bo.htons port) 0
                  else inet6
                      (bo.htons port)
                      (0 ∷ 0 ∷ 0 ∷ 0 ∷ 0 ∷ 0 ∷ 0 ∷ 0 ∷ 0 ∷ 0 ∷ 0 ∷ 0 ∷ 0 ∷ 0 ∷ 0 ∷ 0 ∷ []))
                ∷ call_getsockname
                ∷ set_rcvbuf (u32 rbuf)
                ∷ set_sndbuf (u32 sbuf)
                ∷ set_hops ipv4 ttl
                ∷ set_recv_hops ipv4 1
                ∷ []))
unfolding open_channel
open_channel_lem bo a ch ipv4 port rbuf sbuf ttl h = (ground arith, ground arith)

-- Whether or not it succeeds, it leaves the channel without a name.
pub open_channel_name :
    (bo : ByteOrder) (a : Answers) (ch : Channel) (ipv4 : Bool) (port rbuf sbuf ttl : ℕ)
    → (open_channel bo a ch ipv4 port rbuf sbuf ttl).ch.ch_name ≡ null
unfolding open_channel
open_channel_name bo a ch ipv4 port rbuf sbuf ttl = ground arith
