-- ===== src/Tests/Journey.antt =====
-- One request, its answer and its line, as steps of the network.
use nemo_core.Prelude.{◌≡◌, refl, inl, true, some, [], ◌∷◌, All, arith}
use nemo_core.Ureq.Event.{handle_event}
use nemo_core.Ureq.Report.{Row}
use nemo_core.Exchange.{report-exchange}
use nemo_core.Network.{
  Net, silence, issue as issues, answer as answers, report as reports, Reach, here, next, IsGenuine,
  Reach-IsGenuine,
}
use nemo_core.Tests.Data.{little_host, little_host-IsByteOrder, linux, host_name, channel}
use nemo_core.Tests.Target.{target}
use nemo_core.Tests.Ureq.{parsed, parsed-IsValid, state, issue, sent, arrived-Carries}
use nemo_core.Tests.Ures.{config}
use nemo_core.Tests.Exchange.{
  responder_name, world, answer, answered, arrival, arrival-Carries, not_mono, not_silent,
}

abbrev IsPrinted : Row → Type 0
IsPrinted row =
    (handle_event little_host linux host_name parsed.cf true arrival state).row ≡ some row

printed : (row : Row) × IsPrinted row
printed =
    let (row, e, line) =
      report-exchange little_host linux host_name responder_name parsed config
        little_host-IsByteOrder parsed-IsValid not_mono not_silent 4 (target 16777343) issue state
        state [] world channel answer arrival (omega arith) (omega arith, omega arith)
        (omega arith, omega arith) (omega arith) arrived-Carries answered arrival-Carries in
    (row, e)

abbrev asked : Net
asked = record {
  requests = sent ∷ [];
  responses = [];
  rows = [];
  issued = record { snum = 4; now = issue.now } ∷ [];
  answered = [];
}

abbrev journey : Net
journey = record {
  requests = sent ∷ [];
  responses = answer ∷ [];
  rows = printed.0 ∷ [];
  issued = record { snum = 4; now = issue.now } ∷ [];
  answered = world.now ∷ [];
}

journey-Reach : Reach little_host linux host_name responder_name parsed config journey
journey-Reach =
    next
      (next
        (next here
          (issues silence 4 (target 16777343) issue state (omega arith) (omega arith, omega arith)))
        (answers asked sent answer [] world channel (inl refl) arrived-Carries
          (omega arith, omega arith) answered))
      (reports (record asked { responses = answer ∷ []; answered = world.now ∷ [] }) answer arrival
        state printed.0 (inl refl) arrival-Carries printed.1)

Reach-IsGenuine_example :
    All
      (IsGenuine little_host linux host_name responder_name parsed config journey.issued
        journey.answered)
      journey.rows
Reach-IsGenuine_example =
    Reach-IsGenuine little_host linux host_name responder_name parsed config little_host-IsByteOrder
      parsed-IsValid (omega arith) journey-Reach
