-- ===== src/Ures/Main/Served.antt =====
-- src/ures/main.c: what a responder that starts well does.
use nemo_core.Prelude.{
  ℕ, ◌+◌, ◌^◌, ◌<◌, ◌≡◌, refl, ap, ◌∙◌, Bool, true, false, ◌||◌, Option, none, some, List, [], ◌∷◌,
  All, All_mono, ◌!=◌, if◌then◌else◌, arith,
}
use nemo_core.Word.{u8, u16, u64}
use nemo_core.Parse.{Libc, Text}
use nemo_core.Options.{next}
use nemo_core.Convert.{ByteOrder, IsByteOrder}
use nemo_core.Payload.{payload_size}
use nemo_core.Packet.{Labels}
use nemo_core.Channel.{open_channel}
use nemo_core.Channel.Laws.{Succeeds, open_channel-ok_iff}
use nemo_core.Signal.{Signal, Flags, install_signal_handlers}
use nemo_core.Plugin.{load_plugins}
use nemo_core.Ures.Config.{Config, Parsing, parse_config}
use nemo_core.Ures.Config.Laws.{responder_config-IsValid}
use nemo_core.Ures.Report.{flush_report_stream}
use nemo_core.Ures.Loop.{Trace, loop, respond_loop, State}
use nemo_core.Ures.Loop.Laws.{loop-goes_on}
use nemo_core.Ures.Service.{serve, replies, policy_of}
use nemo_core.Ures.Service.Laws.{IsCall, loop-serve}
use nemo_core.Ures.Main.{
  Machine, Run, exit_success, exit_failure, shut_down, respond, with_plugins, main,
}
use nemo_core.Ures.Main.Start.{load_plugins-none, start_plugins-none, install_lem}
use nemo_core.Signal.{no_flags}
use nemo_core.Ures.Service.Session.{session, IsSteady, IsCalm, IsVisit}
use nemo_core.Ures.Service.Session.Laws.{loop-Serves}

module _ (c : Libc) (bo : ByteOrder) (k : Labels) (hn : List ℕ) (m : Machine) where
  with_plugins-none :
      (cf : Config) (flags : Flags) (so : List (Option Text))
      → cf.cf_plgs ≡ none ∷ so
      → with_plugins c bo k hn m cf flags ≡ respond c bo k hn m cf flags []
  unfolding with_plugins
  with_plugins-none cf flags so e =
      let loaded : load_plugins m.loader m.pi cf.cf_plgs ≡ some [] =
        rw e (load_plugins-none m.loader m.pi so) in
      rw (with_plugins, loaded, start_plugins-none m.starts) refl

  -- The loop that an opened channel leads to.
  respond-loop :
      (cf : Config) (flags : Flags)
      → Succeeds m.sockets cf.cf_ipv4
      → m.named ≡ true
      → (s : State) × (respond c bo k hn m cf flags []
          ≡ shut_down c bo k hn m cf (loop bo k hn cf m.rounds s))
        × (s.lim ≡ u64 (m.start + cf.cf_ito))
        × (s.flags ≡ flags)
  unfolding respond respond_loop
  respond-loop cf flags good named =
      let o =
        open_channel bo m.sockets m.ch cf.cf_ipv4 (u16 cf.cf_port) cf.cf_rbuf cf.cf_sbuf
          (u8 cf.cf_ttl) in
      let opened : o.ok ≡ true =
        (open_channel-ok_iff bo m.sockets m.ch cf.cf_ipv4 (u16 cf.cf_port) cf.cf_rbuf cf.cf_sbuf
            (u8 cf.cf_ttl)).1
          good in
      let s : State = record {
        ch = o.ch;
        pis = [];
        flags = flags;
        lim = u64 (m.start + cf.cf_ito);
      } in
      let looped : respond_loop bo k hn cf m.named m.start m.rounds o.ch [] flags
          ≡ loop bo k hn cf m.rounds s =
        rw (respond_loop, named) refl in
      (s, rw (respond, opened) (ap (shut_down c bo k hn m cf) looped), refl, refl)

  shut_down_running :
      (cf : Config) (tr : Trace)
      → tr.result ≡ none
      → ((shut_down c bo k hn m cf tr).trace ≡ some tr)
        × ((shut_down c bo k hn m cf tr).status ≡ none)
  unfolding shut_down
  shut_down_running cf tr e = ground arith

  shut_down_status :
      (cf : Config) (tr : Trace) (over : Bool)
      → tr.result ≡ (if over then some true else none)
      → ((shut_down c bo k hn m cf tr).trace ≡ some tr)
        × ((shut_down c bo k hn m cf tr).status ≡ (
            if over
            then some (if cf.cf_sil || m.fflush then exit_success else exit_failure)
            else none))
  unfolding shut_down flush_report_stream
  shut_down_status cf tr over e = ground arith

  module _ (p : Parsing) (accepted : parse_config c m.options m.positional ≡ next p) where
    -- A start that succeeds comes to the loop.
    main-loop :
        (so : List (Option Text))
        → m.payload_bytes ≡ payload_size
        → ((s : Signal) → m.sigaction s ≡ true)
        → p.cf.cf_plgs ≡ none ∷ so
        → Succeeds m.sockets p.cf.cf_ipv4
        → m.named ≡ true
        → (s : State) × (main c bo k hn m
            ≡ shut_down c bo k hn m p.cf (loop bo k hn p.cf m.rounds s))
          × (s.lim ≡ u64 (m.start + p.cf.cf_ito))
          × (s.flags ≡ no_flags)
    unfolding main
    main-loop so size sigs none_given good named =
        let (ok, flags) = install_lem m.sigaction sigs in
        let exact : (m.payload_bytes != payload_size) ≡ false = rw size refl in
        let signals = (install_signal_handlers m.sigaction).flags in
        let (s, run, lim, same) = respond-loop p.cf signals good named in
        (
          s,
          rw (main, accepted, exact, ok) (with_plugins-none p.cf signals so none_given ∙ run),
          lim,
          same ∙ flags,
        )

    key_fits : p.cf.cf_key < 2 ^ 64
    key_fits =
        let valid = responder_config-IsValid c m.options m.positional p accepted in
        omega (arith, valid.0.key_le)

    -- From the command line to the network: a responder without plugins, with no inactivity timeout
    -- and without exit on error, whose start succeeds, runs on while datagrams arrive or nothing is
    -- ready, and answers with exactly the replies of the service for its configuration, in order.
    -- Its start succeeds where a payload takes 128 bytes, signals can be handled, the socket calls
    -- succeed and the host has a name. The clocks must fit 64 bits, the fields in the datagrams be
    -- of their types, and the byte order functions be as POSIX says.
    pub main-serve :
        (so : List (Option Text))
        → IsByteOrder bo
        → m.payload_bytes ≡ payload_size
        → ((s : Signal) → m.sigaction s ≡ true)
        → p.cf.cf_plgs ≡ none ∷ so
        → Succeeds m.sockets p.cf.cf_ipv4
        → m.named ≡ true
        → p.cf.cf_ito ≡ 0
        → p.cf.cf_err ≡ false
        → All (IsCall bo k hn p.cf) m.rounds
        → (tr : Trace) × ((main c bo k hn m).trace ≡ some tr)
          × ((main c bo k hn m).status ≡ none)
          × (replies bo k hn p.cf tr.events ≡ serve bo k hn p.cf (policy_of p.cf) m.rounds)
    main-serve so law size sigs none_given good named ito err calls =
        let (s, whole, lim, flags) = main-loop so size sigs none_given good named in
        let ready_rounds = All_mono (λ r (isset, w, e, t). (isset, w, e)) m.rounds calls in
        let endless = loop-goes_on bo k hn p.cf m.rounds s ito err ready_rounds in
        let (shown, runs) = shut_down_running p.cf (loop bo k hn p.cf m.rounds s) endless in
        (
          loop bo k hn p.cf m.rounds s,
          ap (λ (r : Run). r.trace) whole ∙ shown,
          ap (λ (r : Run). r.status) whole ∙ runs,
          loop-serve bo k hn p.cf law key_fits m.rounds s ito err calls,
        )

    -- From the command line to the end: a responder without plugins and without exit on error, whose
    -- start succeeds, answers with exactly the replies of the service for its configuration, in order,
    -- to what arrives before the inactivity timeout has passed since the last datagram, or the start.
    -- Then it ends, with a status that says whether its report is silent or flushed; until then it
    -- runs on. In the rounds datagrams of any content arrive, nothing is ready, someone sends SIGUSR1,
    -- or pselect(2) times out. Its start succeeds where a payload takes 128 bytes, signals can be
    -- handled, the socket calls succeed and the host has a name. The clocks must fit 64 bits, also with
    -- the timeout added, the fields in the datagrams be of their types, and the byte order functions be
    -- as POSIX says.
    pub main-Serves :
        (so : List (Option Text))
        → IsByteOrder bo
        → m.payload_bytes ≡ payload_size
        → ((s : Signal) → m.sigaction s ≡ true)
        → p.cf.cf_plgs ≡ none ∷ so
        → Succeeds m.sockets p.cf.cf_ipv4
        → m.named ≡ true
        → p.cf.cf_err ≡ false
        → m.start + p.cf.cf_ito < 2 ^ 64
        → All (IsSteady p.cf.cf_ito) m.rounds
        → All (IsVisit bo k hn p.cf) m.rounds
        → (tr : Trace) × ((main c bo k hn m).trace ≡ some tr)
          × (replies bo k hn p.cf tr.events
              ≡ serve bo k hn p.cf (policy_of p.cf) (session p.cf.cf_ito m.start m.rounds).heard)
          × ((main c bo k hn m).status ≡ (
              if (session p.cf.cf_ito m.start m.rounds).over
              then some (if p.cf.cf_sil || m.fflush then exit_success else exit_failure)
              else none))
    main-Serves so law size sigs none_given good named err start steady visits =
        let (s, whole, lim, flags) = main-loop so size sigs none_given good named in
        let tr = loop bo k hn p.cf m.rounds s in
        let calm : IsCalm s.flags = rw flags (refl, refl) in
        let (sent, end) =
          loop-Serves bo k hn p.cf law key_fits m.rounds s m.start err (lim ∙ omega arith) calm
            steady visits in
        let (shown, status) = shut_down_status p.cf tr _ end in
        (
          tr,
          ap (λ (r : Run). r.trace) whole ∙ shown,
          sent,
          ap (λ (r : Run). r.status) whole ∙ status,
        )
