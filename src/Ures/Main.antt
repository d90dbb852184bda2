-- ===== src/Ures/Main.antt =====
-- src/ures/main.c: the responder as a whole. `Machine` is what the system answers in a run.
pub mod Start
pub mod Laws
pub mod Served
use nemo_core.Prelude.{ℕ, [], Bool, not, Option, none, some, List, ◌!=◌, if◌then◌else◌}
use nemo_core.Word.{u8, u16}
use nemo_core.Parse.{Libc}
use nemo_core.Options.{Getopt, next, refused, exits}
use nemo_core.Convert.{ByteOrder}
use nemo_core.Payload.{payload_size}
use nemo_core.Packet.{Labels}
use nemo_core.Channel.{Channel, Answers, open_channel, close_channel}
use nemo_core.Signal.{Signal, Flags, install_signal_handlers}
use nemo_core.Plugin.{
  Plugin, Loader, StartAnswers, failed, exited, started, Status, load_plugins, start_plugins,
  terminate_plugins,
}
use nemo_core.Ures.Config.{Config, parse_config}
use nemo_core.Ures.Report.{Column, report_header, flush_report_stream}
use nemo_core.Ures.Loop.{Round, Trace, respond_loop}

abbrev pub exit_success : ℕ
exit_success = 0

abbrev pub exit_failure : ℕ
exit_failure = 1

pub record Machine : Type 0 where
  -- What getopt(3) returns, and the number of the other arguments.
  pub options : List Getopt
  pub positional : ℕ
  -- `sizeof(struct payload)`.
  pub payload_bytes : ℕ
  pub sigaction : Signal → Bool
  pub loader : Loader
  pub starts : List StartAnswers
  pub sockets : Answers
  -- The stack of `main` before it is written to.
  pub pi : List Plugin
  pub ch : Channel
  -- Whether gethostname(2) succeeds, the clock before the loop, and its rounds.
  pub named : Bool
  pub start : ℕ
  pub rounds : List Round
  pub waitpid : Plugin → Status
  pub fflush : Bool

-- A run: its exit status (`none` where the loop still runs), the header line and the loop, where
-- `main` comes to them, and the descriptors closed behind the loop.
pub record Run : Type 0 where
  pub status : Option ℕ
  pub header : Option (List Column)
  pub trace : Option Trace
  pub closed_socket : Option ℕ
  pub closed_pipes : List ℕ

-- An end before the loop.
abbrev pub early : ℕ → Run
early status = record {
  status = some status;
  header = none;
  trace = none;
  closed_socket = none;
  closed_pipes = [];
}

module _ (c : Libc) (bo : ByteOrder) (k : Labels) (hn : List ℕ) where
  -- Behind the loop: its result decides only about a log message.
  unfoldable pub shut_down : Machine → Config → Trace → Run
  unfolding close_channel terminate_plugins flush_report_stream report_header
  shut_down m cf tr =
      let header = if m.named then report_header cf else none in
      elim tr.result [
        | none ↦ record {
          status = none;
          header = header;
          trace = some tr;
          closed_socket = none;
          closed_pipes = [];
        }
        | some retb ↦ record {
          status = some (if flush_report_stream m.fflush cf then exit_success else exit_failure);
          header = header;
          trace = some tr;
          closed_socket = close_channel tr.final.ch;
          closed_pipes = (terminate_plugins m.waitpid tr.final.pis).closed;
        }
      ]

  -- From the channel on.
  unfoldable pub respond : Machine → Config → Flags → List Plugin → Run
  unfolding shut_down open_channel
  respond m cf flags pis =
      let o =
        open_channel bo m.sockets m.ch cf.cf_ipv4 (u16 cf.cf_port) cf.cf_rbuf cf.cf_sbuf
          (u8 cf.cf_ttl) in
      if o.ok
      then shut_down m cf (respond_loop bo k hn cf m.named m.start m.rounds o.ch pis flags)
      else early exit_failure

  -- The plugins: a child process leaves by exit(3) within `start_plugins`.
  unfoldable pub with_plugins : Machine → Config → Flags → Run
  unfolding respond
  with_plugins m cf flags = elim (load_plugins m.loader m.pi cf.cf_plgs) [
    | none ↦ early exit_failure
    | some pis ↦ elim (start_plugins m.starts pis) [
      | failed ↦ early exit_failure
      | exited ↦ early exit_success
      | started pis' ↦ respond m cf flags pis'
    ]
  ]

  -- The help option leaves by exit(3) with the status of failure.
  unfoldable pub main : Machine → Run
  unfolding with_plugins parse_config install_signal_handlers
  main m =
      let signals = install_signal_handlers m.sigaction in
      elim (parse_config c m.options m.positional) [
        | refused ↦ early exit_failure
        | exits ↦ early exit_failure
        | next p ↦
            if m.payload_bytes != payload_size
            then early exit_failure
            else if not signals.ok
            then early exit_failure
            else with_plugins m p.cf signals.flags
      ]
