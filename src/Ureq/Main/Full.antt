-- ===== src/Ureq/Main/Full.antt =====
-- src/ureq/main.c: a requester with as many targets as its limit.
use nemo_core.Prelude.{
  ℕ, ◌-◌, ◌^◌, ◌<◌, ◌≡◌, refl, sym, ap, ◌∙◌, ◌++◌, map, true, false, none, some, List, [], All,
  replicate, length, length-replicate, ◌!=◌, arith,
}
use mathlib.Core.Path.{subst}
use mathlib.Core.List.{append-nil}
use nemo_core.Word.{u8}
use nemo_core.Parse.{Libc, Text}
use nemo_core.Options.{next}
use nemo_core.Convert.{ByteOrder}
use nemo_core.Payload.{payload_size}
use nemo_core.Packet.{Labels}
use nemo_core.Channel.{open_channel}
use nemo_core.Channel.Laws.{Succeeds, open_channel-ok_iff}
use nemo_core.Signal.{Signal, Flags, install_signal_handlers}
use nemo_core.Ureq.Config.{Config, Parsing, parse_config}
use nemo_core.Ureq.Config.Laws.{requester_config-IsValid}
use nemo_core.Ureq.Target.{Sorting, zero_target, fault, load_targets}
use nemo_core.Ureq.Target.Numeric.{IsNumeric}
use nemo_core.Ureq.Target.Limit.{load_targets_full}
use nemo_core.Ureq.Event.{State}
use nemo_core.Ureq.Loop.{Looped, overrun, ended, request_loop}
use nemo_core.Ureq.Main.{Machine, Run, shut_down, request, main}
use nemo_core.Ures.Main.Start.{install_lem}

module _ (c : Libc) (bo : ByteOrder) (k : Labels) (sorting : Sorting) (hn : List ℕ)
    (m : Machine) where
  -- A run that has left an array before its first round.
  abbrev pub Overruns : Run → Type 0
  Overruns r =
      (l : Looped) × (r.looped ≡ some l)
      × (l.outcome ≡ overrun)
      × (l.rounds ≡ [])
      × (r.status ≡ none)

  shut_down-Overruns :
      (cf : Config) (s : State)
      → Overruns (shut_down c bo k sorting hn m cf (ended bo k sorting hn cf overrun s))
  unfolding shut_down
  shut_down-Overruns cf s = (ended bo k sorting hn cf overrun s, refl, refl, refl, refl)

  full :
      (ts : List Text) (n : ℕ)
      → length ts ≡ n
      → map some ts ++ replicate (n - length ts) none ≡ map some ts
  full ts n e =
      let no_room : n - length ts ≡ 0 = omega arith in rw no_room (append-nil (map some ts))

  request-Overruns :
      (cf : Config) (flags : Flags)
      → Succeeds m.sockets cf.cf_ipv4
      → m.calloc ≡ true
      → m.named ≡ true
      → cf.cf_ipv4 ≡ true
      → All (IsNumeric m.reload.resolver) m.arguments
      → cf.cf_tg ≡ map some m.arguments
      → length m.arguments ≡ cf.cf_ntg
      → cf.cf_ntg < 2 ^ 63
      → Overruns (request c bo k sorting hn m cf flags)
  unfolding request request_loop
  request-Overruns cf flags good array named v4 num tgs many small =
      let o = open_channel bo m.sockets m.ch cf.cf_ipv4 0 cf.cf_rbuf cf.cf_sbuf (u8 cf.cf_ttl) in
      let opened : o.ok ≡ true =
        (open_channel-ok_iff bo m.sockets m.ch cf.cf_ipv4 0 cf.cf_rbuf cf.cf_sbuf (u8 cf.cf_ttl)).1
          good in
      let tg = replicate cf.cf_ntg zero_target in
      let s : State = record { ch = o.ch; wrapper = m.wrapper; flags = flags } in
      let out : load_targets m.reload.resolver sorting cf m.reload.garbage1 m.reload.garbage2 tg
          ≡ fault =
        load_targets_full m.reload.resolver sorting cf m.arguments m.reload.garbage1
          m.reload.garbage2 tg v4 num tgs many
          (omega (arith, length-replicate cf.cf_ntg zero_target)) small in
      let looped : request_loop bo k sorting hn cf m.named m.reload m.start m.turns m.last tg s
          ≡ ended bo k sorting hn cf overrun s =
        rw (request_loop, named, out) refl in
      let whole : request c bo k sorting hn m cf flags
          ≡ shut_down c bo k sorting hn m cf (ended bo k sorting hn cf overrun s) =
        rw (request, opened, array) (ap (shut_down c bo k sorting hn m cf) looped) in
      subst Overruns (sym whole) (shut_down-Overruns cf s)

  -- A requester that is given as many numeric IPv4 addresses as its limit of targets, which its options
  -- allow, and whose start succeeds, reads the array of target strings beyond its end before it sends
  -- anything. Its start succeeds where a payload takes 128 bytes, signals can be handled, the socket
  -- calls succeed, the array of targets can be allocated and the host has a name.
  pub main-Overruns :
      (p : Parsing)
      → parse_config c m.options m.arguments m.allocated ≡ next p
      → m.payload_bytes ≡ payload_size
      → ((s : Signal) → m.sigaction s ≡ true)
      → Succeeds m.sockets p.cf.cf_ipv4
      → m.calloc ≡ true
      → m.named ≡ true
      → p.cf.cf_ipv4 ≡ true
      → All (IsNumeric m.reload.resolver) m.arguments
      → length m.arguments ≡ p.cf.cf_ntg
      → Overruns (main c bo k sorting hn m)
  unfolding main
  main-Overruns p accepted size sigs good array named v4 num many =
      let (valid, one, within, tgs) =
        requester_config-IsValid c m.options m.arguments m.allocated p accepted in
      let (ok, flags) = install_lem m.sigaction sigs in
      let exact : (m.payload_bytes != payload_size) ≡ false = rw size refl in
      let signals = install_signal_handlers m.sigaction in
      let whole : main c bo k sorting hn m ≡ request c bo k sorting hn m p.cf signals.flags =
        rw (main, accepted, exact, ok) refl in
      subst Overruns (sym whole) (
        request-Overruns p.cf signals.flags good array named v4 num
          (tgs ∙ full m.arguments p.cf.cf_ntg many) many (omega (arith, valid.ntg_le)))
