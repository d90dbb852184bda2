-- ===== src/Exchange/Complete.antt =====
-- Every answer that comes in time is reported.
use nemo_core.Prelude.{
  ℕ, ◌+◌, ◌^◌, ◌≤◌, ◌<◌, ◌≡◌, inl, inr, refl, sym, ap, ◌∙◌, true, false, Option, none, some, List,
  [], ◌∷◌, map, ltb, if◌then◌else◌, arith, Bool-cases, Option-cases,
}
use mathlib.Core.Path.{subst}
use nemo_core.Word.{u64}
use nemo_core.Convert.{ByteOrder, IsByteOrder}
use nemo_core.Channel.{Channel}
use nemo_core.Packet.{Labels, Message, receive_packet}
use nemo_core.Packet.RoundTrip.{Carries}
use nemo_core.Plugin.{Plugin}
use nemo_core.Ures.Config.{Config as Responder}
use nemo_core.Ures.Event.{World, handle_event as respond_event}
use nemo_core.Ureq.Config.{Parsing}
use nemo_core.Ureq.Config.Laws.{IsValid}
use nemo_core.Ureq.Target.{Target}
use nemo_core.Ureq.Report.{Row}
use nemo_core.Ureq.Event.{
  State, Arrival, timeout, ready, Wait, Waited, handle_event, after_select, again, wait_loop,
  wait_for_events,
}
use nemo_core.Ureq.Event.Laws.{run, step_done, step_again}
use nemo_core.Ureq.Event.Listen.{
  clock_after, in_time, line_of, printed, handle_event-IsGood, wait_for_events-in_time,
}
use nemo_core.Ureq.Event.Reached.{IsReached}
use nemo_core.Ureq.Round.{Issue, issue_request}
use nemo_core.Ureq.Round.Laws.{IsReading}
use nemo_core.Exchange.{IsReported, report-exchange}

module _ (bo : ByteOrder) (k : Labels) (hn_req hn_res : List ℕ) (p : Parsing) (cf : Responder) where
  -- A request, its answer by the responder, and the answer's arrival at the requester.
  pub record Answered : Type 0 where
    pub snum : ℕ
    pub tg : Target
    pub i : Issue
    pub s : State
    pub pis : List Plugin
    pub w : World
    pub ch : Channel
    pub m : Message
    pub a : Arrival
    pub snum_lt : snum < 2 ^ 64
    pub issued_at : IsReading i.now
    pub answered_at : IsReading w.now
    pub there : Carries (issue_request bo k hn_req p.cf snum tg i s).message w.got
    pub sent : (respond_event bo k hn_res pis cf w ch).sent ≡ some m
    pub back : Carries m a.got

  -- A call of pselect(2) that announces an answer or times out, and the clock behind it.
  pub record Call : Type 0 where
    pub answer : Option Answered
    pub cur : ℕ

  abbrev pub wait_of : Call → Wait
  wait_of c = record {
    select = elim c.answer [ none ↦ timeout | some x ↦ ready true x.a ];
    cur = c.cur;
  }

  -- The answers that are announced while the clock is before the goal.
  abbrev pub answers_in_time : ℕ → ℕ → List Call → List Answered
  answers_in_time cur goal [] = []
  answers_in_time cur goal (c ∷ cs) =
      let later = answers_in_time c.cur goal cs in
      if ltb cur goal then elim c.answer [ none ↦ later | some x ↦ x ∷ later ] else []

  -- One line for each answer, in order.
  abbrev pub AreReported : List Answered → List Row → Type 0
  AreReported [] [] = Unit
  AreReported (x ∷ xs) (row ∷ rows) =
      IsReported p cf k hn_req hn_res x.snum x.i x.w x.a row × AreReported xs rows
  AreReported xs rows = ⊥

  module _ (law : IsByteOrder bo) (v : IsValid p) (loud : p.cf.cf_mono ≡ false)
      (spoken : p.cf.cf_sil ≡ false) (key : cf.cf_key < 2 ^ 64) where
    printed_ok :
        (a : Arrival) (s : State) (row : Row)
        → (handle_event bo k hn_req p.cf true a s).row ≡ some row
        → (handle_event bo k hn_req p.cf true a s).ok ≡ true
    unfolding handle_event
    printed_ok a s row h = elim (Option-cases (receive_packet bo k s.ch a.got).1) [
      | inl e ↦ ground arith
      | inr (inc, e) ↦ ground arith
    ]

    answered_line :
        (x : Answered) (s : State)
        → ((handle_event bo k hn_req p.cf true x.a s).ok ≡ true)
          × ((row : Row) × (line_of bo k hn_req p.cf x.a ≡ some row)
              × IsReported p cf k hn_req hn_res x.snum x.i x.w x.a row)
    answered_line x s =
        let (row, line, columns) =
          report-exchange bo k hn_req hn_res p cf law v loud spoken x.snum x.tg x.i x.s s x.pis x.w
            x.ch x.m x.a x.snum_lt x.issued_at x.answered_at key x.there x.sent x.back in
        let fine : (handle_event bo k hn_req p.cf true x.a s).ok ≡ true =
          printed_ok x.a s row line in
        let (good, same) = handle_event-IsGood bo k hn_req p.cf x.a s loud fine in
        (fine, (row, sym same ∙ line, columns))

    in_time-map :
        (cur goal : ℕ) (cs : List Call)
        → in_time cur goal (map wait_of cs)
          ≡ map (λ (x : Answered). x.a) (answers_in_time cur goal cs)
    in_time-map cur goal [] = refl
    in_time-map cur goal (c ∷ cs) = elim (Bool-cases (ltb cur goal)) [
      | inr e ↦ rw e refl
      | inl e ↦ elim (Option-cases c.answer) [
        | inl q ↦ rw (e, q) (in_time-map c.cur goal cs)
        | inr (x, q) ↦ rw (e, q) (ap (◌∷◌ x.a) (in_time-map c.cur goal cs))
      ]
    ]

    lines-AreReported :
        (xs : List Answered)
        → AreReported xs (printed (map (line_of bo k hn_req p.cf) (map (λ (x : Answered). x.a) xs)))
    lines-AreReported [] = tt
    lines-AreReported (x ∷ xs) =
        let rest = map (line_of bo k hn_req p.cf) (map (λ (y : Answered). y.a) xs) in
        let (fine, (row, line, columns)) = answered_line x x.s in
        subst (λ (o : Option Row). AreReported (x ∷ xs) (printed (o ∷ rest))) (sym line)
          (columns, lines-AreReported xs)

    clock_lem : (cur : ℕ) (c : Call) → clock_after cur (wait_of c).select c.cur ≡ c.cur
    clock_lem cur c = elim (Option-cases c.answer) [ inl q ↦ rw q refl | inr (x, q) ↦ rw q refl ]

    -- A call goes on, from its clock.
    calls_again :
        (cur : ℕ) (c : Call) (s : State)
        → (s' : State) × ((after_select bo k hn_req p.cf cur (wait_of c) s).1 ≡ again c.cur s')
    unfolding after_select
    calls_again cur c s = elim (Option-cases c.answer) [
      | inl q ↦ (s, rw (q, after_select) refl)
      | inr (x, q) ↦
          let (fine, line) = answered_line x s in
          ((handle_event bo k hn_req p.cf true x.a s).state, rw (q, after_select, fine) refl)
    ]

    calls_succeed :
        (far cur goal : ℕ) (cs : List Call) (s : State)
        → goal ≤ far
        → IsReached far cur (map wait_of cs)
        → (run bo k hn_req p.cf cur goal (map wait_of cs) s).result ≡ some true
    unfolding wait_loop
    calls_succeed far cur goal [] s le reached = ground arith
    calls_succeed far cur goal (c ∷ cs) s le reached = elim (Bool-cases (ltb cur goal)) [
      | inr e ↦
          let step = step_done bo k hn_req p.cf cur goal (wait_of c) (map wait_of cs) s e in
          ap (λ (x : Waited). x.result) step
      | inl e ↦
          let (s', q) = calls_again cur c s in
          let step =
            step_again bo k hn_req p.cf cur goal c.cur (wait_of c) (map wait_of cs) s s' e q in
          elim reached [
            | inl over ↦ absurd (ground arith)
            | inr later ↦
                ap (λ (x : Waited). x.result) step
                ∙ calls_succeed far c.cur goal cs s' le
                    (subst (λ (t : ℕ). IsReached far t (map wait_of cs)) (clock_lem cur c) later)
          ]
    ]

    -- No answer that comes in time is lost. In a wait whose calls of pselect(2) announce answers of the
    -- responder to requests of the requester, from this round or another, or time out, until the
    -- clock that is read comes to the end of the wait, which fits 64 bits, the wait returns true, and
    -- it has printed one line for each answer that was announced before the end, in order, with what
    -- that request and that answer say. The requester is neither silent nor in the monologue mode,
    -- and has a configuration that its options can produce; the responder's key, the clocks and the
    -- sequence numbers fit 64 bits; the byte order functions, the same on both hosts, are as POSIX says.
    pub wait_for_events-AreReported :
        (start dur : ℕ) (cs : List Call) (s : State)
        → start + dur < 2 ^ 64
        → IsReached (start + dur) start (map wait_of cs)
        → (let waited = wait_for_events bo k hn_req p.cf start dur (map wait_of cs) s in
            (waited.result ≡ some true)
            × AreReported (answers_in_time start (start + dur) cs) (printed waited.rows))
    unfolding wait_for_events
    wait_for_events-AreReported start dur cs s fits reached =
        let exact : u64 (start + dur) ≡ start + dur = omega arith in
        let done =
          calls_succeed (start + dur) start (u64 (start + dur)) cs s (omega arith) reached in
        let (good, rows) =
          wait_for_events-in_time bo k hn_req p.cf start dur (map wait_of cs) s loud done in
        let heard =
          ap (λ (g : ℕ). in_time start g (map wait_of cs)) exact
          ∙ in_time-map start (start + dur) cs in
        let lines = ap (λ (l : List Arrival). printed (map (line_of bo k hn_req p.cf) l)) heard in
        (
          done,
          subst (AreReported (answers_in_time start (start + dur) cs)) (sym (rows ∙ lines))
              (lines-AreReported (answers_in_time start (start + dur) cs)),
        )
