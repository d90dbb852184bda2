-- ===== src/Ureq/Main.antt =====
-- src/ureq/main.c: the requester as a whole. `Machine` is what the system answers in a run.
pub mod Laws
pub mod Finishes
pub mod Full
use nemo_core.Prelude.{ℕ, Bool, not, Option, none, some, List, replicate, ◌!=◌, if◌then◌else◌}
use nemo_core.Word.{u8}
use nemo_core.Parse.{Libc, Text}
use nemo_core.Options.{Getopt, next, refused, exits}
use nemo_core.Convert.{ByteOrder}
use nemo_core.Payload.{payload_size}
use nemo_core.Packet.{Labels, Wrapper}
use nemo_core.Channel.{Channel, Answers, open_channel, close_channel}
use nemo_core.Signal.{Signal, Flags, install_signal_handlers}
use nemo_core.Ureq.Config.{Config, parse_config}
use nemo_core.Ureq.Report.{Column, report_header, flush_report_stream}
use nemo_core.Ureq.Target.{Sorting, zero_target}
use nemo_core.Ureq.Event.{State}
use nemo_core.Ureq.Round.{Pause}
use nemo_core.Ureq.Loop.{Reload, Turn, Looped, finished, running, overrun, request_loop}

abbrev pub exit_success : ℕ
exit_success = 0

abbrev pub exit_failure : ℕ
exit_failure = 1

pub record Machine : Type 0 where
  -- What getopt(3) returns, the other arguments, and whether the array for them can be allocated.
  pub options : List Getopt
  pub arguments : List Text
  pub allocated : Bool
  -- `sizeof(struct payload)`.
  pub payload_bytes : ℕ
  pub sigaction : Signal → Bool
  pub sockets : Answers
  -- Whether calloc(3) gives the array of targets.
  pub calloc : Bool
  -- The stack of `main` and the static buffer before they are written to.
  pub ch : Channel
  pub wrapper : Wrapper
  -- Whether gethostname(2) succeeds, the first load, the clock before the loop, its rounds and the
  -- wait behind them.
  pub named : Bool
  pub reload : Reload
  pub start : ℕ
  pub turns : List Turn
  pub last : Pause
  pub fflush : Bool

-- A run: its exit status (`none` where the loop still runs or has left its array), the header line
-- and the loop, where `main` comes to them, and the socket closed behind the loop.
pub record Run : Type 0 where
  pub status : Option ℕ
  pub header : Option (List Column)
  pub looped : Option Looped
  pub closed_socket : Option ℕ

-- An end before the loop.
abbrev pub early : ℕ → Run
early status = record { status = some status; header = none; looped = none; closed_socket = none }

module _ (c : Libc) (bo : ByteOrder) (k : Labels) (sorting : Sorting) (hn : List ℕ) where
  -- Behind the loop: where it failed `main` returns at once.
  unfoldable pub shut_down : Machine → Config → Looped → Run
  unfolding close_channel flush_report_stream report_header
  shut_down m cf l =
      let header = if m.named then report_header cf else none in
      elim l.outcome [
        | running ↦ record { status = none; header = header; looped = some l; closed_socket = none }
        | overrun ↦ record { status = none; header = header; looped = some l; closed_socket = none }
        | finished retb ↦
            if retb
            then record {
              status =
                  some (if flush_report_stream m.fflush cf then exit_success else exit_failure);
              header = header;
              looped = some l;
              closed_socket = close_channel l.final.ch;
            }
            else record {
              status = some exit_failure;
              header = header;
              looped = some l;
              closed_socket = none;
            }
      ]

  -- From the channel on. Without the array `main` returns `false`, which is 0.
  unfoldable pub request : Machine → Config → Flags → Run
  unfolding shut_down open_channel
  request m cf flags =
      let o = open_channel bo m.sockets m.ch cf.cf_ipv4 0 cf.cf_rbuf cf.cf_sbuf (u8 cf.cf_ttl) in
      let s : State = record { ch = o.ch; wrapper = m.wrapper; flags = flags } in
      let tg = replicate cf.cf_ntg zero_target in
      if not o.ok
      then early exit_failure
      else if not m.calloc
      then early 0
      else shut_down m cf
          (request_loop bo k sorting hn cf m.named m.reload m.start m.turns m.last tg s)

  -- The help option leaves by exit(3) with the status of failure.
  unfoldable pub main : Machine → Run
  unfolding request parse_config install_signal_handlers
  main m =
      let signals = install_signal_handlers m.sigaction in
      elim (parse_config c m.options m.arguments m.allocated) [
        | refused ↦ early exit_failure
        | exits ↦ early exit_failure
        | next p ↦
            if m.payload_bytes != payload_size
            then early exit_failure
            else if not signals.ok
            then early exit_failure
            else request m p.cf signals.flags
      ]
