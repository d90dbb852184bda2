-- ===== src/Channel.antt =====
-- src/common/channel.h and src/common/channel.c: the socket with its counters. Each system call
-- takes its outcome from `Answers`; the sockets API is not modelled further.
pub mod Laws
pub mod Shown
use nemo_core.Prelude.{
  ℕ, ◌+◌, Bool, true, false, Option, none, some, List, [], ◌∷◌, ◌++◌, if◌then◌else◌,
}
use nemo_core.Word.{u32, u64}
use nemo_core.Convert.{ByteOrder}
use nemo_core.Payload.{SockAddr, inet, inet6}

pub data Name : Type 0 where
  null ipv4_name ipv6_name : Name

pub record Channel : Type 0 where
  pub ch_rall : ℕ
  pub ch_reni : ℕ
  pub ch_resz : ℕ
  pub ch_remg : ℕ
  pub ch_repv : ℕ
  pub ch_rety : ℕ
  pub ch_sall : ℕ
  pub ch_seni : ℕ
  pub ch_name : Name
  -- `none` is -1.
  pub ch_sock : Option ℕ
  pub ch_port : ℕ

-- `x++` on a 64-bit counter.
abbrev pub bump : ℕ → ℕ
bump x = u64 (x + 1)

-- The calls of `open_channel`, with the arguments that the code computes.
pub data Call : Type 0 where
  call_socket : Bool → Call
  set_v6only : ℕ → Call
  call_bind : SockAddr → Call
  call_getsockname : Call
  set_rcvbuf : ℕ → Call
  set_sndbuf : ℕ → Call
  set_hops : Bool → ℕ → Call
  set_recv_hops : Bool → ℕ → Call

-- What the calls return: the descriptor, the bound address, and whether the others succeed.
pub record Answers : Type 0 where
  pub socket : Option ℕ
  pub v6only : Bool
  pub bind : Bool
  pub getsockname : Option SockAddr
  pub rcvbuf : Bool
  pub sndbuf : Bool
  pub hops : Bool
  pub recv_hops : Bool

-- A channel, whether the steps so far succeeded, and the calls made.
pub record Opened : Type 0 where
  pub ch : Channel
  pub ok : Bool
  pub calls : List Call

unfoldable pub reset_stats : Channel → Channel
reset_stats ch = record ch {
  ch_rall = 0;
  ch_reni = 0;
  ch_resz = 0;
  ch_remg = 0;
  ch_repv = 0;
  ch_rety = 0;
  ch_sall = 0;
  ch_seni = 0;
}

-- A failed getsockname(2) returns `false`, which is port 0.
unfoldable pub get_assigned_port : Answers → ℕ
get_assigned_port a = elim a.getsockname [
  | none ↦ 0
  | some ss ↦ elim ss [ inet p s ↦ p | inet6 p bs ↦ p ]
]

abbrev pub in6addr_any : List ℕ
in6addr_any = 0 ∷ 0 ∷ 0 ∷ 0 ∷ 0 ∷ 0 ∷ 0 ∷ 0 ∷ 0 ∷ 0 ∷ 0 ∷ 0 ∷ 0 ∷ 0 ∷ 0 ∷ 0 ∷ []

unfoldable pub init_address : ByteOrder → ℕ → Bool → SockAddr
init_address bo port ipv4 =
    if ipv4 then inet (bo.htons port) 0 else inet6 (bo.htons port) in6addr_any

unfoldable pub create_socket : Answers → Channel → Bool → Opened
create_socket a ch ipv4 = record {
  ch = record ch { ch_sock = a.socket };
  ok = elim a.socket [ none ↦ false | some fd ↦ true ];
  calls = call_socket ipv4 ∷ [];
}

-- The option is only set for IPv6.
unfoldable pub assign_name : ByteOrder → Answers → Channel → ℕ → Bool → Opened
unfolding get_assigned_port init_address
assign_name bo a ch port ipv4 =
    let only = if ipv4 then [] else set_v6only 1 ∷ [] in
    let bound = only ++ (call_bind (init_address bo port ipv4) ∷ []) in
    if (if ipv4 then true else a.v6only)
    then if a.bind
      then record {
        ch = record ch { ch_port = get_assigned_port a };
        ok = true;
        calls = bound ++ (call_getsockname ∷ []);
      }
      else record { ch = ch; ok = false; calls = bound }
    else record { ch = ch; ok = false; calls = only }

-- The sizes are cast to `int`; here as the 32-bit pattern.
unfoldable pub set_buffer_sizes : Answers → Channel → ℕ → ℕ → Opened
set_buffer_sizes a ch rbuf sbuf =
    let first = set_rcvbuf (u32 rbuf) ∷ [] in
    if a.rcvbuf
    then record { ch = ch; ok = a.sndbuf; calls = first ++ (set_sndbuf (u32 sbuf) ∷ []) }
    else record { ch = ch; ok = false; calls = first }

unfoldable pub apply_ttl_prefs : Answers → Channel → ℕ → Bool → Opened
apply_ttl_prefs a ch ttl ipv4 =
    let first = set_hops ipv4 ttl ∷ [] in
    if a.hops
    then record { ch = ch; ok = a.recv_hops; calls = first ++ (set_recv_hops ipv4 1 ∷ []) }
    else record { ch = ch; ok = false; calls = first }

-- The next step, if the steps so far succeeded.
abbrev pub and_then : Opened → (Channel → Opened) → Opened
and_then o f =
    let r = f o.ch in
    if o.ok then record { ch = r.ch; ok = r.ok; calls = o.calls ++ r.calls } else o

abbrev pub zeroed : Channel
zeroed = record {
  ch_rall = 0;
  ch_reni = 0;
  ch_resz = 0;
  ch_remg = 0;
  ch_repv = 0;
  ch_rety = 0;
  ch_sall = 0;
  ch_seni = 0;
  ch_name = null;
  ch_sock = some 0;
  ch_port = 0;
}

-- `memset(ch, 0, sizeof(*ch))`.
abbrev memset_zero : Channel → Channel
memset_zero ch = zeroed

-- The name is assigned first, and the memset that follows clears it with the rest.
unfoldable pub open_channel : ByteOrder → Answers → Channel → Bool → ℕ → ℕ → ℕ → ℕ → Opened
unfolding reset_stats create_socket assign_name set_buffer_sizes apply_ttl_prefs
open_channel bo a ch ipv4 port rbuf sbuf ttl =
    let named = record ch { ch_name = if ipv4 then ipv4_name else ipv6_name } in
    let cleared = reset_stats (memset_zero named) in
    and_then
      (and_then (and_then (create_socket a cleared ipv4) λ c. assign_name bo a c port ipv4)
        λ c. set_buffer_sizes a c rbuf sbuf)
      λ c. apply_ttl_prefs a c ttl ipv4

-- Whether close(2) succeeds only decides a log message.
unfoldable pub close_channel : Channel → Option ℕ
close_channel ch = ch.ch_sock
