-- ===== src/Ureq/Main/Laws.antt =====
-- What the exit status of the requester says of its run.
use nemo_core.Prelude.{
  ℕ, ◌+◌, ◌≡◌, refl, sym, replicate, ◌⊎◌, inl, inr, true, false, ◌||◌, none, some, List, length,
  ◌!=◌, arith, Bool-cases,
}
use nemo_core.Word.{u8}
use nemo_core.Parse.{Libc}
use nemo_core.Options.{next}
use nemo_core.Convert.{ByteOrder}
use nemo_core.Payload.{payload_size}
use nemo_core.Packet.{Labels}
use nemo_core.Channel.{open_channel}
use nemo_core.Signal.{Flags, install_signal_handlers}
use nemo_core.Ureq.Config.{Config, Parsing, parse_config}
use nemo_core.Ureq.Report.{flush_report_stream}
use nemo_core.Ureq.Target.{Sorting, zero_target}
use nemo_core.Ureq.Event.{State}
use mathlib.Core.Path.{subst}
use nemo_core.Ureq.Loop.{Looped, finished, request_loop}
use nemo_core.Ureq.Loop.Numbers.{AreNumbered, request_loop-AreNumbered}
use nemo_core.Ureq.Loop.Laws.{request_loop-rounds}
use nemo_core.Ureq.Main.{Machine, Run, early, exit_success, exit_failure, shut_down, request, main}

module _ (c : Libc) (bo : ByteOrder) (k : Labels) (sorting : Sorting) (hn : List ℕ)
    (m : Machine) where
  -- What a status of success means: the array could not be allocated and nothing was done, or all
  -- rounds and the wait behind them were gone through, with the requests numbered by their rounds,
  -- and the report is out.
  abbrev pub IsDone : Config → Run → Type 0
  IsDone cf r =
      ((m.calloc ≡ false) × (r.looped ≡ none))
      ⊎ ((l : Looped) × (r.looped ≡ some l)
          × (l.outcome ≡ finished true)
          × (length l.rounds ≡ cf.cf_cnt + 1)
          × AreNumbered bo k sorting hn cf 0 l.rounds
          × ((cf.cf_sil || m.fflush) ≡ true))

  abbrev IsHonest : Config → Run → Type 0
  IsHonest cf r = r.status ≡ some exit_success → IsDone cf r

  early-IsHonest : (cf : Config) → IsHonest cf (early exit_failure)
  early-IsHonest cf h = ground arith

  shut_down-IsHonest :
      (cf : Config) (l : Looped)
      → (l.outcome ≡ finished true → length l.rounds ≡ cf.cf_cnt + 1)
      → AreNumbered bo k sorting hn cf 0 l.rounds
      → IsHonest cf (shut_down c bo k sorting hn m cf l)
  unfolding shut_down flush_report_stream
  shut_down-IsHonest cf l rounds numbers h = ground arith

  request-IsHonest :
      (cf : Config) (flags : Flags) → IsHonest cf (request c bo k sorting hn m cf flags)
  unfolding request
  request-IsHonest cf flags =
      let o = open_channel bo m.sockets m.ch cf.cf_ipv4 0 cf.cf_rbuf cf.cf_sbuf (u8 cf.cf_ttl) in
      elim (Bool-cases o.ok) [
        | inr e ↦ rw (request, e) (early-IsHonest cf)
        | inl e ↦ elim (Bool-cases m.calloc) [
          | inr q ↦ rw (request, e, q) (λ h. inl (refl, refl))
          | inl q ↦
              let tg = replicate cf.cf_ntg zero_target in
              let s : State = record { ch = o.ch; wrapper = m.wrapper; flags = flags } in
              let l =
                request_loop bo k sorting hn cf m.named m.reload m.start m.turns m.last tg s in
              let whole : request c bo k sorting hn m cf flags
                  ≡ shut_down c bo k sorting hn m cf l =
                rw (request, e, q) refl in
              subst (IsHonest cf) (sym whole) (
                shut_down-IsHonest cf l
                  (request_loop-rounds bo k sorting hn cf m.named m.reload m.start m.turns m.last tg
                    s)
                  (request_loop-AreNumbered bo k sorting hn cf m.named m.reload m.start m.turns
                    m.last tg s))
        ]
      ]

  -- When the requester ends with the status of success, either the array of targets could not be
  -- allocated and it has sent nothing, or it has gone through as many rounds as were asked for and
  -- the wait behind them, every message of a round a request with the number of that round, counted
  -- from 0, and its report is silent or flushed.
  pub main-IsDone :
      (p : Parsing)
      → parse_config c m.options m.arguments m.allocated ≡ next p
      → (main c bo k sorting hn m).status ≡ some exit_success
      → IsDone p.cf (main c bo k sorting hn m)
  unfolding main
  main-IsDone p accepted = elim (Bool-cases (m.payload_bytes != payload_size)) [
    | inl q ↦ rw (main, accepted, q) (early-IsHonest p.cf)
    | inr q ↦ elim (Bool-cases (install_signal_handlers m.sigaction).ok) [
      | inl w ↦
          rw (main, accepted, q, w)
            (request-IsHonest p.cf (install_signal_handlers m.sigaction).flags)
      | inr w ↦ rw (main, accepted, q, w) (early-IsHonest p.cf)
    ]
  ]
