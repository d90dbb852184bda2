-- ===== src/Ureq/Event/Listen.antt =====
-- What a wait of the requester hears: the lines that it prints, against the datagrams that arrive in
-- time.
use nemo_core.Prelude.{
  ℕ, ◌+◌, ◌≡◌, refl, sym, ap, ap₂, ◌∙◌, true, false, Option, none, some, List, [], ◌∷◌, ◌++◌, map,
  All, ltb, if◌then◌else◌, arith, Bool-cases, Option-cases, inl, inr,
}
use nemo_core.Word.{u64}
use nemo_core.Convert.{ByteOrder}
use nemo_core.Packet.{Labels, decode_payload, retrieve_ttl, receive_packet}
use nemo_core.Packet.Receive.{IsGood, receive_packet_iff}
use nemo_core.Signal.{deliver}
use nemo_core.Ureq.Config.{Config}
use nemo_core.Ureq.Report.{Row, report_event}
use nemo_core.Ureq.Event.{
  retrieve_address, State, Arrival, Select, interrupted, failed, timeout, ready, Wait, Waited,
  again, handle_event, handle_interrupt, after_select, wait_loop, wait_for_events,
}
use nemo_core.Ureq.Event.Laws.{run, Next-cases, step_done, step_stop, step_again}

-- The lines that are there.
abbrev pub printed : List (Option Row) → List Row
printed [] = []
printed (none ∷ rows) = printed rows
printed (some row ∷ rows) = row ∷ printed rows

printed-append : (xs ys : List (Option Row)) → printed (xs ++ ys) ≡ printed xs ++ printed ys
printed-append [] ys = refl
printed-append (none ∷ xs) ys = printed-append xs ys
printed-append (some row ∷ xs) ys = ap (◌∷◌ row) (printed-append xs ys)

-- The datagram that a call of pselect(2) announces.
abbrev pub arrival_of : Select → List Arrival
arrival_of (interrupted ss) = []
arrival_of failed = []
arrival_of timeout = []
arrival_of (ready true a) = a ∷ []
arrival_of (ready false a) = []

-- The clock that the loop's next test reads: an interrupt leaves it.
abbrev pub clock_after : ℕ → Select → ℕ → ℕ
clock_after cur (interrupted ss) read = cur
clock_after cur failed read = read
clock_after cur timeout read = read
clock_after cur (ready isset a) read = read

-- The datagrams announced while the clock is before the goal.
abbrev pub in_time : ℕ → ℕ → List Wait → List Arrival
in_time cur goal [] = []
in_time cur goal (w ∷ ws) =
    let later = in_time (clock_after cur w.select w.cur) goal ws in
    if ltb cur goal then arrival_of w.select ++ later else []

module _ (bo : ByteOrder) (k : Labels) (hn : List ℕ) (cf : Config) where
  -- The line for a datagram: its payload, the clocks behind its arrival, the time-to-live of its
  -- control data, and where it came from.
  abbrev pub line_of : Arrival → Option Row
  line_of a =
      report_event (decode_payload bo a.got.buffer.base) hn a.now.real a.now.mono
        (if a.got.ctrunc then 0 else retrieve_ttl k a.got.control) (retrieve_address a.got.from).la
        (retrieve_address a.got.from).ha cf

  abbrev pub AreGood : List Arrival → Type 0
  AreGood = All (λ (a : Arrival). IsGood bo a.got)

  -- A round that goes on.
  abbrev Hears : ℕ → Wait → State → ℕ → Type 0
  Hears cur w s cur' =
      AreGood (arrival_of w.select)
      × (printed (after_select bo k hn cf cur w s).0 ≡ printed (map line_of (arrival_of w.select)))
      × (cur' ≡ clock_after cur w.select w.cur)

  pub handle_event-IsGood :
      (a : Arrival) (s : State)
      → cf.cf_mono ≡ false
      → (handle_event bo k hn cf true a s).ok ≡ true
      → IsGood bo a.got × ((handle_event bo k hn cf true a s).row ≡ line_of a)
  unfolding handle_event
  handle_event-IsGood a s mono fine = elim (Option-cases (receive_packet bo k s.ch a.got).1) [
    | inl e ↦ absurd (ground arith)
    | inr (inc, e) ↦
        let (good, same) = (receive_packet_iff bo k s.ch a.got inc).0 e in (good, ground arith)
  ]

  round-Hears :
      (cur cur' : ℕ) (w : Wait) (s s' : State)
      → cf.cf_mono ≡ false
      → (after_select bo k hn cf cur w s).1 ≡ again cur' s'
      → Hears cur w s cur'
  unfolding after_select
  round-Hears cur cur' w s s' mono h = go w.select refl
    where
      go : (x : Select) → w.select ≡ x → Hears cur w s cur'
      go (interrupted ss) e = elim (Bool-cases (handle_interrupt (deliver ss s.flags)).1) [
        | inl q ↦ let same : cur' ≡ cur = ground arith in rw (e, after_select, q) (tt, refl, same)
        | inr q ↦ absurd (ground arith)
      ]
      go failed e = absurd (ground arith)
      go timeout e =
          let moved : cur' ≡ w.cur = ground arith in rw (e, after_select) (tt, refl, moved)
      go (ready true a) e = elim (Bool-cases (handle_event bo k hn cf true a s).ok) [
        | inl q ↦
            let moved : cur' ≡ w.cur = ground arith in
            let (good, same) = handle_event-IsGood a s mono q in
            rw (e, after_select, q)
              ((good, tt), ap (λ (x : Option Row). printed (x ∷ [])) same, moved)
        | inr q ↦ absurd (ground arith)
      ]
      go (ready false a) e =
          let quiet : handle_event bo k hn cf false a s
              ≡ record { state = s; row = none; ok = true } =
            (unfold handle_event in rw mono refl) in
          let moved : cur' ≡ w.cur = ground arith in rw (e, after_select, quiet) (tt, refl, moved)

  All-append : (xs ys : List Arrival) → AreGood xs → AreGood ys → AreGood (xs ++ ys)
  All-append [] ys p q = q
  All-append (x ∷ xs) ys (a, p) q = (a, All-append xs ys p q)

  lines_append :
      (xs ys : List Arrival)
      → printed (map line_of (xs ++ ys)) ≡ printed (map line_of xs) ++ printed (map line_of ys)
  lines_append [] ys = refl
  lines_append (x ∷ xs) ys = ground (arith, lines_append xs ys)

  wait_loop-in_time :
      (cur goal : ℕ) (ws : List Wait) (s : State)
      → cf.cf_mono ≡ false
      → (run bo k hn cf cur goal ws s).result ≡ some true
      → AreGood (in_time cur goal ws)
        × (printed (run bo k hn cf cur goal ws s).rows
            ≡ printed (map line_of (in_time cur goal ws)))
  wait_loop-in_time cur goal [] s mono h = unfold wait_loop in (tt, refl)
  wait_loop-in_time cur goal (w ∷ ws) s mono h = elim (Bool-cases (ltb cur goal)) [
    | inr e ↦ rw (step_done bo k hn cf cur goal w ws s e, e) (tt, refl)
    | inl e ↦ elim (Next-cases bo k hn cf cur w s) [
      | inr (s', q) ↦
          let step = step_stop bo k hn cf cur goal w ws s s' e q in absurd (ground arith)
      | inl (cur', s', q) ↦
          let (good, same, moved) = round-Hears cur cur' w s s' mono q in
          let step = step_again bo k hn cf cur goal cur' w ws s s' e q in
          let (later_good, later_same) =
            wait_loop-in_time cur' goal ws s' mono (sym (ap (λ (x : Waited). x.result) step) ∙ h) in
          rw (e, step, ← moved)
            (
              All-append (arrival_of w.select) (in_time cur' goal ws) good later_good,
              printed-append (after_select bo k hn cf cur w s).0
                    (run bo k hn cf cur' goal ws s').rows
                  ∙ ap₂ ◌++◌ same later_same
                  ∙ sym (lines_append (arrival_of w.select) (in_time cur' goal ws)),
            )
    ]
  ]

  -- A wait of the requester hears what arrives in time. When a wait outside the monologue mode
  -- returns true, every datagram announced by pselect(2) before its end is one that the receiver
  -- takes, and the lines printed are exactly the lines for these datagrams, in order.
  pub wait_for_events-in_time :
      (start dur : ℕ) (ws : List Wait) (s : State)
      → cf.cf_mono ≡ false
      → (wait_for_events bo k hn cf start dur ws s).result ≡ some true
      → AreGood (in_time start (u64 (start + dur)) ws)
        × (printed (wait_for_events bo k hn cf start dur ws s).rows
            ≡ printed (map line_of (in_time start (u64 (start + dur)) ws)))
  unfolding wait_for_events
  wait_for_events-in_time start dur ws s mono h =
      wait_loop-in_time start (u64 (start + dur)) ws s mono h
