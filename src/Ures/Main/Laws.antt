-- ===== src/Ures/Main/Laws.antt =====
-- What a run of the responder does, from its options to its exit status.
use nemo_core.Prelude.{ℕ, ◌≡◌, refl, inl, inr, Option, some, List, ◌∷◌, ◌!=◌, Bool-cases}
use nemo_core.Parse.{Libc, Text}
use nemo_core.Options.{next}
use nemo_core.Convert.{ByteOrder}
use nemo_core.Payload.{payload_size}
use nemo_core.Packet.{Labels}
use nemo_core.Signal.{Flags, install_signal_handlers}
use nemo_core.Plugin.Laws.{start_plugins_fails}
use nemo_core.Ures.Config.{Config, Parsing, parse_config}
use nemo_core.Ures.Main.{Machine, early, exit_failure, with_plugins, main}
use nemo_core.Ures.Main.Start.{load_plugins_first}

module _ (c : Libc) (bo : ByteOrder) (k : Labels) (hn : List ℕ) (m : Machine) where
  with_plugins_fails :
      (cf : Config) (flags : Flags) (path : Text) (so : List (Option Text))
      → cf.cf_plgs ≡ some path ∷ so
      → with_plugins c bo k hn m cf flags ≡ early exit_failure
  unfolding with_plugins
  with_plugins_fails cf flags path so e = elim (load_plugins_first m.loader m.pi path so) [
    | inl q ↦ rw (e, with_plugins, q) refl
    | inr (pi, rest, q) ↦ rw (e, with_plugins, q, start_plugins_fails m.starts pi rest) refl
  ]

  module _ (p : Parsing) (accepted : parse_config c m.options m.positional ≡ next p) where
    -- A responder whose options name a plugin always ends with the status of failure, before it opens
    -- a channel, whatever the system answers.
    pub main-plugin_fails :
        (path : Text) (so : List (Option Text))
        → p.cf.cf_plgs ≡ some path ∷ so
        → main c bo k hn m ≡ early exit_failure
    unfolding main
    main-plugin_fails path so e =
        let fails = with_plugins_fails p.cf (install_signal_handlers m.sigaction).flags path so e in
        elim (Bool-cases (m.payload_bytes != payload_size)) [
          | inl q ↦ rw (main, accepted, q) refl
          | inr q ↦ elim (Bool-cases (install_signal_handlers m.sigaction).ok) [
            | inl w ↦ rw (main, accepted, q, w) fails
            | inr w ↦ rw (main, accepted, q, w) refl
          ]
        ]
