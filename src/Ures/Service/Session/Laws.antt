-- ===== src/Ures/Service/Session/Laws.antt =====
-- The responder's loop serves a session.
use nemo_core.Prelude.{
  ℕ, ◌+◌, ◌^◌, ◌<◌, ◌≡◌, refl, sym, ap, ◌∙◌, ◌≢◌, ◌⊎◌, inl, inr, Bool, true, false, List, [], ◌∷◌,
  ◌++◌, All, arith, Bool-cases,
}
use nemo_core.Word.{u64}
use nemo_core.Convert.{ByteOrder, IsByteOrder}
use nemo_core.Packet.{Labels}
use nemo_core.Signal.{sigusr1, deliver}
use nemo_core.Ures.Config.{Config}
use nemo_core.Ures.Event.{World, handle_event}
use nemo_core.Ures.Event.Laws.{handle_event-fails_iff}
use nemo_core.Ures.Loop.{
  handle_interrupt, timeout, ready, Round, State, again, returned, expired, after_select, loop,
}
use nemo_core.Ures.Loop.Laws.{step_again, step_expired, step_returned}
use nemo_core.Ures.Service.{serve, replies}
use nemo_core.Ures.Service.Laws.{replies-append, round_replies, serve_step}
use nemo_core.Ures.Service.Session.{
  Session, session, last_after, is_quiet, IsSteady, IsCalm, IsPeek, IsVisit, served, Serves,
}

module _ (bo : ByteOrder) (k : Labels) (hn : List ℕ) (cf : Config) where
  -- How a round goes on from a state whose limit is one timeout behind `last`.
  abbrev GoesOn : ℕ → Round → State → Type 0
  GoesOn last r s =
      (s' : State) × ((after_select bo k hn cf r s).1 ≡ again s')
      × (s'.lim ≡ last_after last r + cf.cf_ito)
      × IsCalm s'.flags

  call-GoesOn :
      (last : ℕ) (r : Round) (s : State) (isset : Bool) (w : World)
      → cf.cf_err ≡ false
      → s.lim ≡ last + cf.cf_ito
      → IsSteady cf.cf_ito r
      → IsCalm s.flags
      → r.select ≡ ready isset w
      → GoesOn last r s
  unfolding after_select
  call-GoesOn last r s true w err lim steady calm e =
      let fine : (handle_event bo k hn s.pis cf w s.ch).ok ≡ true =
        ground (arith, (handle_event-fails_iff bo k hn s.pis cf w s.ch).0) in
      let ch' = (handle_event bo k hn s.pis cf w s.ch).ch in
      (
        record s { ch = ch'; lim = u64 (r.done + cf.cf_ito) },
        rw (e, after_select, fine) refl,
        rw e (omega arith),
        calm,
      )
  call-GoesOn last r s false w err lim steady calm e =
      (s, rw (e, after_select) refl, rw e lim, calm)

  peek-GoesOn :
      (last : ℕ) (r : Round) (s : State)
      → s.lim ≡ last + cf.cf_ito
      → IsCalm s.flags
      → IsPeek r
      → GoesOn last r s × ((after_select bo k hn cf r s).0 ≡ [])
  unfolding after_select handle_interrupt deliver
  peek-GoesOn last r s lim calm (waitpid, e) =
      let i = handle_interrupt waitpid (deliver (sigusr1 ∷ []) s.flags) s.pis in
      let on : i.go_on ≡ true = ground arith in
      let still : IsCalm i.flags = ground arith in
      (
        (record s { flags = i.flags; pis = i.pis }, rw (e, after_select, on) refl, rw e lim, still),
        rw (e, after_select, on) refl,
      )

  session_quiet :
      (ito last : ℕ) (r : Round) (rs : List Round)
      → is_quiet ito last r ≡ true
      → session ito last (r ∷ rs) ≡ record { heard = []; over = true }
  unfolding session
  session_quiet ito last r rs q = rw q refl

  abbrev one_more : Round → Session → Session
  one_more r x = record { heard = r ∷ x.heard; over = x.over }

  session_visit :
      (ito last : ℕ) (r : Round) (rs : List Round)
      → is_quiet ito last r ≡ false
      → IsVisit bo k hn cf r
      → ((session ito last (r ∷ rs) ≡ one_more r (session ito (last_after last r) rs))
          × (r.select ≢ timeout))
        ⊎ ((session ito last (r ∷ rs) ≡ record { heard = []; over = true }) × (r.select ≡ timeout))
  unfolding session
  session_visit ito last r rs q (inl (isset, w, e, t)) = inl (ground arith, λ h. ground arith)
  session_visit ito last r rs q (inr (inl (waitpid, e))) = inl (ground arith, λ h. ground arith)
  session_visit ito last r rs q (inr (inr e)) = inr (rw (q, e, session) refl, e)

  module _ (law : IsByteOrder bo) (key : cf.cf_key < 2 ^ 64) where
    visit_replies :
        (last : ℕ) (r : Round) (s : State) (rs : List Round)
        → cf.cf_err ≡ false
        → s.lim ≡ last + cf.cf_ito
        → IsSteady cf.cf_ito r
        → IsCalm s.flags
        → IsVisit bo k hn cf r
        → r.select ≢ timeout
        → GoesOn last r s
          × (replies bo k hn cf (after_select bo k hn cf r s).0 ++ served bo k hn cf rs
              ≡ served bo k hn cf (r ∷ rs))
    unfolding serve
    visit_replies last r s rs err lim steady calm (inl (isset, w, e, t)) h = (
      call-GoesOn last r s isset w err lim steady calm e,
      ap (λ x. x ++ served bo k hn cf rs) (round_replies bo k hn cf law key r s isset w e t)
          ∙ sym (serve_step bo k hn cf law key r rs isset w e),
    )
    visit_replies last r s rs err lim steady calm (inr (inl (waitpid, e))) h =
        let (on, quiet) = peek-GoesOn last r s lim calm (waitpid, e) in
        (on, rw quiet (rw (e, serve) refl))
    visit_replies last r s rs err lim steady calm (inr (inr e)) h = absurd (h e)

    timed_out :
        (last : ℕ) (r : Round) (rs : List Round) (s : State)
        → expired bo k hn cf r.cur s ≡ false
        → r.select ≡ timeout
        → Serves bo k hn cf (record { heard = []; over = true }) (loop bo k hn cf (r ∷ rs) s)
    unfolding after_select serve
    timed_out last r rs s fresh e =
        let (hs, stop) : ((after_select bo k hn cf r s).0 ≡ [])
            × ((after_select bo k hn cf r s).1 ≡ returned true s) =
          (rw (e, after_select) refl, rw (e, after_select) refl) in
        rw (step_returned bo k hn cf r rs s true s fresh stop) (rw hs refl, refl)

    -- The responder's loop serves a session. Without exit on error, over rounds in which datagrams of
    -- any content arrive, nothing is ready, someone sends SIGUSR1 or pselect(2) times out, with a limit
    -- one timeout behind the last datagram (or the start) and neither SIGINT nor SIGTERM received, the
    -- messages that it gives to sendmsg(2) stand for exactly the replies of the service to what arrives
    -- before the timeout has passed since the last datagram, in order; it returns true then, and runs
    -- on until then. The key and the clocks must fit 64 bits, also with the timeout added to the clock
    -- behind an event, the fields in the buffers be of their types, and the byte order functions be as
    -- POSIX says.
    pub loop-Serves :
        (rs : List Round) (s : State) (last : ℕ)
        → cf.cf_err ≡ false
        → s.lim ≡ last + cf.cf_ito
        → IsCalm s.flags
        → All (IsSteady cf.cf_ito) rs
        → All (IsVisit bo k hn cf) rs
        → Serves bo k hn cf (session cf.cf_ito last rs) (loop bo k hn cf rs s)
    loop-Serves [] s last err lim calm steady visits = unfold loop session serve in (refl, refl)
    loop-Serves (r ∷ rs) s last err lim calm (st, steady) (v, visits) =
        let same : expired bo k hn cf r.cur s ≡ is_quiet cf.cf_ito last r = rw lim refl in
        elim (Bool-cases (is_quiet cf.cf_ito last r)) [
          | inl old ↦
              rw
                (session_quiet cf.cf_ito last r rs old, step_expired bo k hn cf r rs s (same ∙ old))
                (unfold serve in (refl, refl))
          | inr fresh ↦ elim (session_visit cf.cf_ito last r rs fresh v) [
            | inr (x, e) ↦ rw x (timed_out last r rs s (same ∙ fresh) e)
            | inl (x, live) ↦
                let rest = session cf.cf_ito (last_after last r) rs in
                let ((s', q, lim', calm'), same') =
                  visit_replies last r s rest.heard err lim st calm v live in
                let (sent, end) =
                  loop-Serves rs s' (last_after last r) err lim' calm' steady visits in
                rw (x, step_again bo k hn cf r rs s s' (same ∙ fresh) q)
                  (
                    replies-append bo k hn cf law key (after_select bo k hn cf r s).0
                          (loop bo k hn cf rs s').events
                        ∙ ap (λ y. replies bo k hn cf (after_select bo k hn cf r s).0 ++ y) sent
                        ∙ same',
                    end,
                  )
          ]
        ]
