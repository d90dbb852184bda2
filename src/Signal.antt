-- ===== src/Signal.antt =====
-- src/common/signal.c: the flags that the handler sets, and the signals that stay blocked.
pub mod Laws
use nemo_core.Prelude.{ℕ, Bool, true, false, List, [], ◌∷◌, if◌then◌else◌}

pub data Signal : Type 0 where
  sigint sigterm sigusr1 sighup sigchld sigstop sigkill : Signal
  -- Any other signal, by its number.
  other : ℕ → Signal

pub record Flags : Type 0 where
  pub sint : Bool
  pub sterm : Bool
  pub susr1 : Bool
  pub shup : Bool
  pub schld : Bool

unfoldable pub signal_handler : Signal → Flags → Flags
signal_handler sigint f = record f { sint = true }
signal_handler sigterm f = record f { sterm = true }
signal_handler sigusr1 f = record f { susr1 = true }
signal_handler sighup f = record f { shup = true }
signal_handler sigchld f = record f { schld = true }
signal_handler sigstop f = f
signal_handler sigkill f = f
signal_handler (other n) f = f

-- The signals that are delivered while pselect(2) waits, in their order.
unfoldable pub deliver : List Signal → Flags → Flags
unfolding signal_handler
deliver [] f = f
deliver (s ∷ ss) f = deliver ss (signal_handler s f)

-- A signal set, as the membership test.
abbrev pub SignalSet : Type 0
SignalSet = Signal → Bool

-- The mask of the process outside pselect(2).
unfoldable pub block_all_signals : SignalSet
block_all_signals sigstop = false
block_all_signals sigkill = false
block_all_signals s = true

-- The mask that pselect(2) applies while it waits.
unfoldable pub create_signal_mask : SignalSet
create_signal_mask (other n) = true
create_signal_mask s = false

-- The flags, the process mask, the signals whose handler was installed, and the result.
pub record Installed : Type 0 where
  pub flags : Flags
  pub mask : SignalSet
  pub handled : List Signal
  pub ok : Bool

abbrev pub sigs : List Signal
sigs = sigint ∷ sigterm ∷ sigusr1 ∷ sighup ∷ sigchld ∷ []

-- The loop over `sigs`: `sigaction` tells for which signals the call succeeds.
install_each : (Signal → Bool) → List Signal → record { handled : List Signal; ok : Bool }
install_each sigaction [] = record { handled = []; ok = true }
install_each sigaction (s ∷ ss) =
    let rest = install_each sigaction ss in
    if sigaction s
    then record { handled = s ∷ rest.handled; ok = rest.ok }
    else record { handled = []; ok = false }

abbrev pub no_flags : Flags
no_flags = record { sint = false; sterm = false; susr1 = false; shup = false; schld = false }

unfoldable pub install_signal_handlers : (Signal → Bool) → Installed
unfolding install_each block_all_signals
install_signal_handlers sigaction =
    let r = install_each sigaction sigs in
    record { flags = no_flags; mask = block_all_signals; handled = r.handled; ok = r.ok }
