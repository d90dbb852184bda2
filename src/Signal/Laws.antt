-- ===== src/Signal/Laws.antt =====
-- The handlers, the flags and the mask of the wait fit together.
use nemo_core.Prelude.{◌≡◌, Bool, true, false, ◌||◌, List, [], ◌∷◌, arith}
use nemo_core.Signal.{
  Signal, sigint, sigterm, sigusr1, sighup, sigchld, Flags, signal_handler, deliver,
}

-- Whether a signal occurs among those delivered.
abbrev pub same : Signal → Signal → Bool
same sigint sigint = true
same sigterm sigterm = true
same sigusr1 sigusr1 = true
same sighup sighup = true
same sigchld sigchld = true
same _ _ = false

abbrev pub occurs : Signal → List Signal → Bool
occurs s [] = false
occurs s (t ∷ ts) = same s t || occurs s ts

-- After any signals, each flag is set exactly if it was or its signal was among them.
pub deliver_lem :
    (ss : List Signal) (f : Flags)
    → deliver ss f ≡ record {
      sint = f.sint || occurs sigint ss;
      sterm = f.sterm || occurs sigterm ss;
      susr1 = f.susr1 || occurs sigusr1 ss;
      shup = f.shup || occurs sighup ss;
      schld = f.schld || occurs sigchld ss;
    }
unfolding deliver
deliver_lem [] f = ground arith
deliver_lem (sigint ∷ ss) f = ground (arith, deliver_lem ss (signal_handler sigint f))
deliver_lem (t ∷ ss) f = ground (arith, deliver_lem ss (signal_handler t f))
