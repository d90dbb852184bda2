-- ===== src/Ures/Loop/Watched.antt =====
-- The descriptors that the responder's loop has pselect(2) look at.
use nemo_core.Prelude.{ℕ, ◌<◌, ◌≡◌, true, false, some, List}
use nemo_core.Convert.{ByteOrder}
use nemo_core.Packet.{Labels}
use nemo_core.Channel.{Channel}
use nemo_core.Ures.Config.{Config}
use nemo_core.Ures.Loop.{
  Select, interrupted, failed, timeout, ready, nfds, State, Ended, again, returned,
}

-- pselect(2) leaves the socket in the set only where its descriptor is among the first `nfds`.
abbrev pub IsWatched : Channel → Select → Type 0
IsWatched ch (ready true w) = (fd : ℕ) × (ch.ch_sock ≡ some fd) × (fd < nfds)
IsWatched ch (ready false w) = Unit
IsWatched ch (interrupted ss waitpid) = Unit
IsWatched ch failed = Unit
IsWatched ch timeout = Unit

module _ (bo : ByteOrder) (k : Labels) (hn : List ℕ) (cf : Config) where
  abbrev end_of : Ended → State
  end_of (again s) = s
  end_of (returned b s) = s
