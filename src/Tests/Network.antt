-- ===== src/Tests/Network.antt =====
-- src/common/channel.c, packet.c and signal.c at concrete inputs.
use nemo_core.Prelude.{◌≡◌, ◌↔◌, refl, true, false, some, [], ◌∷◌, ◌++◌, if◌then◌else◌, arith}
use nemo_core.Word.{u32}
use nemo_core.Payload.{IsPayload, inet}
use nemo_core.Channel.{
  Answers, Opened, bump, open_channel, call_socket, set_v6only, call_bind, call_getsockname,
  set_rcvbuf, set_sndbuf, set_hops, set_recv_hops, null,
}
use nemo_core.Payload.{inet6}
use nemo_core.Channel.Laws.{Succeeds, open_channel_lem}
use nemo_core.Packet.{
  Incoming, Received, Message, decode_payload, retrieve_ttl, send_packet, receive_packet,
}
use nemo_core.Packet.Receive.{IsGood, HasRoom, Outcome, receive_packet_iff, receive_packet_counts}
use nemo_core.Packet.RoundTrip.{Carries, receive-send}
use nemo_core.Tests.Data.{
  big_host, little_host, little_host-IsByteOrder, linux, channel, request, peer, buffer_of,
  datagram,
}

-- Everything succeeds, and the system picks port 40001.
abbrev pub answers : Answers
answers = record {
  socket = some 3;
  v6only = true;
  bind = true;
  getsockname = some (inet 40001 0);
  rcvbuf = true;
  sndbuf = true;
  hops = true;
  recv_hops = true;
}

answers-Succeeds : Succeeds answers false
answers-Succeeds = ground arith

abbrev opened : Opened
opened = open_channel little_host answers channel false 0 2000000 2000000 64

open_channel_lem_example :
    (opened.ch ≡ record {
      ch_sock = some 3;
      ch_port = 40001;
      ch_name = null;
      ch_rall = 0;
      ch_reni = 0;
      ch_resz = 0;
      ch_remg = 0;
      ch_repv = 0;
      ch_rety = 0;
      ch_sall = 0;
      ch_seni = 0;
    })
    × (opened.calls
        ≡ call_socket false ∷ (if false then [] else set_v6only 1 ∷ [])
          ++ (call_bind (
                inet6
                  (little_host.htons 0)
                  (0 ∷ 0 ∷ 0 ∷ 0 ∷ 0 ∷ 0 ∷ 0 ∷ 0 ∷ 0 ∷ 0 ∷ 0 ∷ 0 ∷ 0 ∷ 0 ∷ 0 ∷ 0 ∷ []))
              ∷ call_getsockname
              ∷ set_rcvbuf (u32 2000000)
              ∷ set_sndbuf (u32 2000000)
              ∷ set_hops false 64
              ∷ set_recv_hops false 1
              ∷ []))
open_channel_lem_example =
    open_channel_lem little_host answers channel false 0 2000000 2000000 64 answers-Succeeds

abbrev accepted : Incoming
accepted = record { pl = request; ttl = 61; addr = peer }

receive_packet_iff_example :
    ((receive_packet big_host linux channel datagram).1 ≡ some accepted) ↔ (
      IsGood big_host datagram
      × (accepted ≡ record {
        pl = decode_payload big_host datagram.buffer.base;
        ttl = if datagram.ctrunc then 0 else retrieve_ttl linux datagram.control;
        addr = datagram.from;
      }))
receive_packet_iff_example = receive_packet_iff big_host linux channel datagram accepted

-- A datagram of 200 bytes whose payload says 128.
abbrev too_long : Received
too_long = record datagram { len = some 200 }

channel-HasRoom : HasRoom channel
channel-HasRoom = ground arith

receive_packet_counts_example :
    Outcome big_host linux channel too_long
    × ((receive_packet big_host linux channel too_long).0.ch_rall ≡ bump channel.ch_rall)
    × ((receive_packet big_host linux channel too_long).0.ch_rety ≡ channel.ch_rety)
    × ((receive_packet big_host linux channel too_long).0.ch_sall ≡ channel.ch_sall)
    × ((receive_packet big_host linux channel too_long).0.ch_seni ≡ channel.ch_seni)
    × ((receive_packet big_host linux channel too_long).0.ch_sock ≡ channel.ch_sock)
    × ((receive_packet big_host linux channel too_long).0.ch_port ≡ channel.ch_port)
receive_packet_counts_example =
    receive_packet_counts big_host linux channel too_long channel-HasRoom

request-IsPayload : IsPayload request
request-IsPayload = ground arith

abbrev sent : Message
sent = (send_packet little_host channel (buffer_of request) request peer (some 128)).message

-- The message as it arrives, with its control data cut.
abbrev arrived : Received
arrived = record {
  len = some 128;
  trunc = false;
  ctrunc = true;
  from = inet 23000 16777343;
  buffer = sent.buffer;
  control = [];
}

arrived-Carries : Carries sent arrived
unfolding send_packet
arrived-Carries = record { base = refl; all = refl; whole = refl }

receive-send_example :
    (receive_packet little_host linux channel arrived).1
    ≡ some (record {
      pl = request;
      ttl = if arrived.ctrunc then 0 else retrieve_ttl linux arrived.control;
      addr = arrived.from;
    })
receive-send_example =
    receive-send little_host little_host-IsByteOrder linux channel channel (buffer_of request)
      request peer (some 128) arrived request-IsPayload refl refl (omega arith) arrived-Carries
