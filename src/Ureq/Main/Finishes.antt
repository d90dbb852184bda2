-- ===== src/Ureq/Main/Finishes.antt =====
-- src/ureq/main.c: the requester comes to its end.
use nemo_core.Prelude.{
  ℕ, ◌*◌, ◌-◌, ◌≤◌, ◌<◌, ◌≡◌, refl, sym, inl, inr, Bool, true, false, some, List, All, replicate,
  length, length-replicate, ◌!=◌, Bool-cases, if◌then◌else◌, arith,
}
use mathlib.Core.Path.{subst}
use nemo_core.Word.{u8}
use nemo_core.Parse.{Libc}
use nemo_core.Options.{next}
use nemo_core.Convert.{ByteOrder}
use nemo_core.Payload.{payload_size}
use nemo_core.Packet.{Labels}
use nemo_core.Channel.{open_channel}
use nemo_core.Signal.{Flags, install_signal_handlers}
use nemo_core.Ureq.Config.{Config, Parsing, parse_config}
use nemo_core.Ureq.Config.Laws.{requester_config-IsValid}
use nemo_core.Ureq.Target.{Target, Sorting, zero_target, load_targets}
use nemo_core.Ureq.Target.Cases.{Settles}
use nemo_core.Ureq.Target.Within.{KeepsLength}
use nemo_core.Ureq.Target.Safe.{HasNull}
use nemo_core.Ureq.Target.Modest.{IsModest, in_all, in_all-map, HasNull-map, load_targets_modest}
use nemo_core.Ureq.Report.{flush_report_stream}
use nemo_core.Ureq.Event.{State}
use nemo_core.Ureq.Round.{Pause}
use nemo_core.Ureq.Round.Ends.{IsLong}
use nemo_core.Ureq.Loop.{Reload, Turn, Looped, finished, request_loop}
use nemo_core.Ureq.Loop.Ends.{IsAmple, request_loop-Ends}
use nemo_core.Ureq.Loop.Finishes.{safe-Settles, Ends-finished}
use nemo_core.Ureq.Main.{Machine, Run, exit_success, exit_failure, shut_down, request, main}

-- A load of the targets: at most `most` addresses for a name, and locals that hold no more than the
-- arrays do.
abbrev pub IsFair : ℕ → ℕ → Reload → Type 0
IsFair most size r =
    IsModest most r.resolver × (r.garbage1 ≤ 32) × (r.garbage1 ≤ most) × (r.garbage2 ≤ size)

-- The first load, the turns and the last wait of a run: enough of them, each with a fair load and
-- waits in which the clock comes to the end.
abbrev pub IsTimely : ℕ → Config → Machine → Type 0
IsTimely most cf m =
    IsFair most cf.cf_ntg m.reload
    × (cf.cf_cnt ≤ length m.turns)
    × All (λ (t : Turn). IsFair most cf.cf_ntg t.reload × IsAmple cf cf.cf_ntg t) m.turns
    × IsLong cf.cf_wait m.last

-- It has an exit status.
abbrev pub Exits : Run → Type 0
Exits r = (status : ℕ) × (r.status ≡ some status)

module _ (bo : ByteOrder) (k : Labels) (sorting : Sorting) (hn : List ℕ) (cf : Config)
    (keeps : KeepsLength sorting) (most : ℕ) (some_one : 1 ≤ most) (null : HasNull cf.cf_tg) where
  request_loop_fair :
      (named : Bool) (r : Reload) (start : ℕ) (ts : List Turn) (last : Pause) (tg : List Target)
      (s : State)
      → in_all most cf.cf_tg ≤ length tg
      → IsFair most (length tg) r
      → cf.cf_cnt ≤ length ts
      → All (λ (t : Turn). IsFair most (length tg) t.reload × IsAmple cf (length tg) t) ts
      → IsLong cf.cf_wait last
      → (b : Bool) × ((request_loop bo k sorting hn cf named r start ts last tg s).outcome
          ≡ finished b)
  request_loop_fair named r start ts last tg s room fair le ample long = Ends-finished _ (
      request_loop-Ends bo k sorting hn cf ⊥ (IsFair most (length tg)) (length tg)
        (λ r' tg' (modest, h1, low, h2) same.
          subst (λ n. Settles ⊥ n (load_targets r'.resolver sorting cf r'.garbage1 r'.garbage2 tg'))
            same
            (safe-Settles (length tg') _ (
              load_targets_modest r'.resolver sorting cf keeps most modest some_one r'.garbage1
                r'.garbage2 tg' null h1 low (subst (λ n. r'.garbage2 ≤ n) (sym same) h2)
                (subst (λ n. in_all most cf.cf_tg ≤ n) (sym same) room))))
        named r start ts last tg s refl le fair ample long)

module _ (c : Libc) (bo : ByteOrder) (k : Labels) (sorting : Sorting) (hn : List ℕ) (m : Machine)
    (keeps : KeepsLength sorting) (most : ℕ) (some_one : 1 ≤ most) where
  shut_down-Exits :
      (cf : Config) (l : Looped) (b : Bool)
      → l.outcome ≡ finished b
      → Exits (shut_down c bo k sorting hn m cf l)
  unfolding shut_down
  shut_down-Exits cf l true e = (
    if flush_report_stream m.fflush cf then exit_success else exit_failure,
    rw (e, shut_down) refl,
  )
  shut_down-Exits cf l false e = (exit_failure, rw (e, shut_down) refl)

  request-Exits :
      (cf : Config) (flags : Flags)
      → HasNull cf.cf_tg
      → in_all most cf.cf_tg ≤ cf.cf_ntg
      → IsTimely most cf m
      → Exits (request c bo k sorting hn m cf flags)
  unfolding request
  request-Exits cf flags null room (fair, le, ample, long) =
      let o = open_channel bo m.sockets m.ch cf.cf_ipv4 0 cf.cf_rbuf cf.cf_sbuf (u8 cf.cf_ttl) in
      elim (Bool-cases o.ok) [
        | inr e ↦ (exit_failure, rw (request, e) refl)
        | inl e ↦ elim (Bool-cases m.calloc) [
          | inr q ↦ (0, rw (request, e, q) refl)
          | inl q ↦
              let tg = replicate cf.cf_ntg zero_target in
              let s : State = record { ch = o.ch; wrapper = m.wrapper; flags = flags } in
              let l =
                request_loop bo k sorting hn cf m.named m.reload m.start m.turns m.last tg s in
              let size : length tg ≡ cf.cf_ntg = length-replicate cf.cf_ntg zero_target in
              let (b, ends) =
                request_loop_fair bo k sorting hn cf keeps most some_one null m.named m.reload
                  m.start m.turns m.last tg s (rw size room) (rw size fair) le (rw size ample)
                  long in
              let whole : request c bo k sorting hn m cf flags
                  ≡ shut_down c bo k sorting hn m cf l =
                rw (request, e, q) refl in
              subst Exits (sym whole) (shut_down-Exits cf l b ends)
        ]
      ]

  -- The requester comes to its end. With fewer targets on its command line than the limit, room in
  -- the array of that limit for `most` targets of each, a resolver that gives at most that many
  -- addresses for a name, and waits in each of which the clock comes to the end of the wait (in a
  -- dispersed round, to a nanosecond behind the interval), it leaves none of the arrays that
  -- `load_targets` fills and has an exit status, whatever else the network, the resolver and the
  -- signals do. There is a turn for each round with what sendmsg(2) returns for as many requests as
  -- the limit, the locals of `load_targets` hold no more than its arrays do, and at most `most`, and
  -- qsort(3) keeps the length of what it sorts.
  pub main-Exits :
      (p : Parsing)
      → parse_config c m.options m.arguments m.allocated ≡ next p
      → length m.arguments < p.cf.cf_ntg
      → most * length m.arguments ≤ p.cf.cf_ntg
      → IsTimely most p.cf m
      → Exits (main c bo k sorting hn m)
  unfolding main
  main-Exits p accepted few room timely =
      let (valid, one, within, tgs) =
        requester_config-IsValid c m.options m.arguments m.allocated p accepted in
      let null : HasNull p.cf.cf_tg = rw tgs (HasNull-map m.arguments _ (omega arith)) in
      let all' : in_all most p.cf.cf_tg ≤ p.cf.cf_ntg =
        rw tgs (rw (in_all-map most m.arguments (p.cf.cf_ntg - length m.arguments)) room) in
      let signals = install_signal_handlers m.sigaction in
      elim (Bool-cases (m.payload_bytes != payload_size)) [
        | inl q ↦ (exit_failure, rw (main, accepted, q) refl)
        | inr q ↦ elim (Bool-cases signals.ok) [
          | inr w ↦ (exit_failure, rw (main, accepted, q, w) refl)
          | inl w ↦
              let whole : main c bo k sorting hn m
                  ≡ request c bo k sorting hn m p.cf signals.flags =
                rw (main, accepted, q, w) refl in
              subst Exits (sym whole) (request-Exits p.cf signals.flags null all' timely)
        ]
      ]
