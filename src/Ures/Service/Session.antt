-- ===== src/Ures/Service/Session.antt =====
-- What the responder's loop promises with an inactivity timeout: how long it serves, and that it
-- ends when it is left alone (src/ures/loop.c).
pub mod Laws
use nemo_core.Prelude.{
  ℕ, ◌+◌, ◌^◌, ◌<◌, ◌≡◌, ◌⊎◌, Bool, true, false, ◌&&◌, none, some, List, [], ◌∷◌, leb, ◌!=◌,
  if◌then◌else◌,
}
use nemo_core.Convert.{ByteOrder}
use nemo_core.Packet.{Labels}
use nemo_core.Plugin.{Plugin, Status}
use nemo_core.Signal.{sigusr1, Flags}
use nemo_core.Ures.Config.{Config}
use nemo_core.Ures.Loop.{interrupted, timeout, ready, Round, Trace}
use nemo_core.Ures.Service.{Reply, policy_of, serve, replies}
use nemo_core.Ures.Service.Laws.{IsCall}

-- The rounds of a session that wait to their end, and whether the session is over.
pub record Session : Type 0 where
  pub heard : List Round
  pub over : Bool

-- The time of the last datagram, behind a round.
abbrev pub last_after : ℕ → Round → ℕ
last_after last r = elim r.select [ ready isset w ↦ if isset then r.done else last | _ ↦ last ]

-- With a timeout, it has passed since the last datagram.
abbrev pub is_quiet : ℕ → ℕ → Round → Bool
is_quiet ito last r = ito != 0 && leb (last + ito) r.cur

-- A session ends when the timeout has passed since the last datagram, be it that the clock says so
-- or that pselect(2) does.
unfoldable pub session : ℕ → ℕ → List Round → Session
session ito last [] = record { heard = []; over = false }
session ito last (r ∷ rs) =
    let rest = session ito (last_after last r) rs in
    if is_quiet ito last r then record { heard = []; over = true } else elim r.select [
      | timeout ↦ record { heard = []; over = true }
      | _ ↦ record { heard = r ∷ rest.heard; over = rest.over }
    ]

-- The next limit stays below 2^64.
abbrev pub IsSteady : ℕ → Round → Type 0
IsSteady ito r = r.done + ito < 2 ^ 64

-- Neither SIGINT nor SIGTERM has been received.
abbrev pub IsCalm : Flags → Type 0
IsCalm f = (f.sint ≡ false) × (f.sterm ≡ false)

-- Someone asks for the state of the responder by SIGUSR1.
abbrev pub IsPeek : Round → Type 0
IsPeek r = (waitpid : Plugin → Status) × (r.select ≡ interrupted (sigusr1 ∷ []) waitpid)

module _ (bo : ByteOrder) (k : Labels) (hn : List ℕ) (cf : Config) where
  -- A round in which a datagram arrives or nothing is ready, someone asks for the state by SIGUSR1,
  -- or pselect(2) times out.
  abbrev pub IsVisit : Round → Type 0
  IsVisit r = IsCall bo k hn cf r ⊎ (IsPeek r ⊎ (r.select ≡ timeout))

  abbrev pub served : List Round → List Reply
  served rs = serve bo k hn cf (policy_of cf) rs

  -- What a run of the loop has sent, and whether it has returned, agree with a session.
  abbrev pub Serves : Session → Trace → Type 0
  Serves x tr =
      (replies bo k hn cf tr.events ≡ served x.heard)
      × (tr.result ≡ (if x.over then some true else none))
