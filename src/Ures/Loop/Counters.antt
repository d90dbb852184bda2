-- ===== src/Ures/Loop/Counters.antt =====
-- What the counters of the channel say of a run of the responder's loop.
use nemo_core.Prelude.{
  ℕ, suc, ◌+◌, ◌^◌, ◌≤◌, ◌<◌, ◌≡◌, refl, Bool, Option, true, false, none, some, List, [], ◌∷◌, ◌++◌,
  length, length-append, ◌∙◌, arith, Bool-cases, inl, inr,
}
use mathlib.Core.Path.{subst}
use nemo_core.Ures.Loop.Laws.{step_again, step_expired, step_returned, Ended-cases}
use nemo_core.Convert.{ByteOrder}
use nemo_core.Channel.{Channel}
use nemo_core.Packet.{Labels, Message, receive_packet, send_packet}
use nemo_core.Packet.Receive.{errors}
use nemo_core.Plugin.{Plugin}
use nemo_core.Signal.{deliver}
use nemo_core.Ures.Config.{Config}
use nemo_core.Ures.Event.{Handled, World, handle_event}
use nemo_core.Ures.Loop.{
  Select, interrupted, failed, timeout, ready, Round, State, Ended, again, returned, expired,
  after_select, loop, handle_interrupt,
}

-- Every counter that the responder uses has room for `n` more.
pub record HasRoomFor (n : ℕ) (ch : Channel) : Type 0 where
  pub rall_lt : ch.ch_rall + n < 2 ^ 64
  pub reni_lt : ch.ch_reni + n < 2 ^ 64
  pub resz_lt : ch.ch_resz + n < 2 ^ 64
  pub remg_lt : ch.ch_remg + n < 2 ^ 64
  pub repv_lt : ch.ch_repv + n < 2 ^ 64
  pub sall_lt : ch.ch_sall + n < 2 ^ 64
  pub seni_lt : ch.ch_seni + n < 2 ^ 64

abbrev pub count_sent : Option Message → ℕ
count_sent none = 0
count_sent (some m) = 1

-- The messages among the events.
abbrev pub messages : List Handled → ℕ
messages [] = 0
messages (h ∷ hs) = count_sent h.sent + messages hs

-- What a channel that was `ch` has counted over `n` arrivals with `m` messages: each arrival, each
-- message given to sendmsg(2), at most one error of reception or one message for each arrival, and
-- no type.
pub record IsCounted (n m : ℕ) (ch ch' : Channel) : Type 0 where
  pub arrivals : ch'.ch_rall ≡ ch.ch_rall + n
  pub answers : ch'.ch_sall ≡ ch.ch_sall + m
  pub refused : errors ch' + m ≤ errors ch + n
  pub unsent : ch'.ch_seni ≤ ch.ch_seni + m
  pub types : ch'.ch_rety ≡ ch.ch_rety
  pub socket : ch'.ch_sock ≡ ch.ch_sock

HasRoomFor-mono : (n m : ℕ) (ch : Channel) → m ≤ n → HasRoomFor n ch → HasRoomFor m ch
HasRoomFor-mono n m ch le room = record {
  rall_lt = omega (arith, room.rall_lt);
  reni_lt = omega (arith, room.reni_lt);
  resz_lt = omega (arith, room.resz_lt);
  remg_lt = omega (arith, room.remg_lt);
  repv_lt = omega (arith, room.repv_lt);
  sall_lt = omega (arith, room.sall_lt);
  seni_lt = omega (arith, room.seni_lt);
}

messages-append : (hs gs : List Handled) → messages (hs ++ gs) ≡ messages hs + messages gs
messages-append [] gs = omega arith
messages-append (h ∷ hs) gs = omega (arith, messages-append hs gs)

nothing-IsCounted : (ch : Channel) → IsCounted 0 0 ch ch
nothing-IsCounted ch = record {
  arrivals = omega arith;
  answers = omega arith;
  refused = omega arith;
  unsent = omega arith;
  types = refl;
  socket = refl;
}

add-IsCounted :
    (n m n' m' : ℕ) (a b c : Channel)
    → IsCounted n m a b
    → IsCounted n' m' b c
    → IsCounted (n + n') (m + m') a c
add-IsCounted n m n' m' a b c p q = record {
  arrivals = omega (arith, p.arrivals, q.arrivals);
  answers = omega (arith, p.answers, q.answers);
  refused = omega (arith, p.refused, q.refused);
  unsent = omega (arith, p.unsent, q.unsent);
  types = q.types ∙ p.types;
  socket = q.socket ∙ p.socket;
}

module _ (bo : ByteOrder) (k : Labels) (hn : List ℕ) (cf : Config) where
  handle_event-IsCounted :
      (pis : List Plugin) (w : World) (ch : Channel)
      → HasRoomFor 1 ch
      → (let h = handle_event bo k hn pis cf w ch in IsCounted 1 (count_sent h.sent + 0) ch h.ch)
  unfolding handle_event receive_packet send_packet
  handle_event-IsCounted pis w ch room = record {
    arrivals = ground arith;
    answers = ground arith;
    refused = ground arith;
    unsent = ground arith;
    types = ground arith;
    socket = ground arith;
  }

  handle_event_room :
      (n : ℕ) (pis : List Plugin) (w : World) (ch : Channel)
      → HasRoomFor (suc n) ch
      → HasRoomFor n (handle_event bo k hn pis cf w ch).ch
  unfolding handle_event receive_packet send_packet
  handle_event_room n pis w ch room = record {
    rall_lt = ground arith;
    reni_lt = ground arith;
    resz_lt = ground arith;
    remg_lt = ground arith;
    repv_lt = ground arith;
    sall_lt = ground arith;
    seni_lt = ground arith;
  }

  abbrev state_of : Ended → State
  state_of (again s) = s
  state_of (returned b s) = s

  abbrev Counts : ℕ → List Handled × Ended → Channel → Type 0
  Counts n x ch =
      IsCounted (length x.0) (messages x.0) ch (state_of x.1).ch × HasRoomFor n (state_of x.1).ch

  -- One round, and the room it leaves.
  round-Counts :
      (n : ℕ) (r : Round) (s : State)
      → HasRoomFor (suc n) s.ch
      → Counts n (after_select bo k hn cf r s) s.ch
  unfolding after_select
  round-Counts n r s room = go r.select refl
    where
      still : Counts n ([], again s) s.ch
      still = (nothing-IsCounted s.ch, HasRoomFor-mono (suc n) n s.ch (omega arith) room)

      one :
          (w : World)
          → (let h = handle_event bo k hn s.pis cf w s.ch in
              IsCounted 1 (count_sent h.sent + 0) s.ch h.ch × HasRoomFor n h.ch)
      one w = (
        handle_event-IsCounted s.pis w s.ch (HasRoomFor-mono (suc n) 1 s.ch (omega arith) room),
        handle_event_room n s.pis w s.ch room,
      )

      handled :
          (w : World) (ok : Bool)
          → (handle_event bo k hn s.pis cf w s.ch).ok ≡ ok
          → r.select ≡ ready true w
          → Counts n (after_select bo k hn cf r s) s.ch
      handled w true q e = rw (e, after_select, q) (one w)
      handled w false q e = rw (e, after_select, q) (one w)

      go : (x : Select) → r.select ≡ x → Counts n (after_select bo k hn cf r s) s.ch
      go (interrupted ss waitpid) e =
          elim (Bool-cases (handle_interrupt waitpid (deliver ss s.flags) s.pis).go_on) [
            | inl q ↦ rw (e, after_select, q) still
            | inr q ↦ rw (e, after_select, q) still
          ]
      go failed e = rw (e, after_select) still
      go timeout e = rw (e, after_select) still
      go (ready true w) e = handled w (handle_event bo k hn s.pis cf w s.ch).ok refl e
      go (ready false w) e = rw (e, after_select) still

  -- However a run of the responder's loop goes, it counts on the channel each datagram that it has
  -- read, each message that it has given to sendmsg(2), and at most one error of reception or one
  -- message for each datagram; the counter of types is never touched. The counters must have room
  -- for one more in each round.
  pub loop-IsCounted :
      (rs : List Round) (s : State)
      → HasRoomFor (length rs) s.ch
      → (let t = loop bo k hn cf rs s in
          IsCounted (length t.events) (messages t.events) s.ch t.final.ch)
  loop-IsCounted [] s room = unfold loop in nothing-IsCounted s.ch
  loop-IsCounted (r ∷ rs) s room = elim (Bool-cases (expired bo k hn cf r.cur s)) [
    | inl e ↦ rw (step_expired bo k hn cf r rs s e) (nothing-IsCounted s.ch)
    | inr e ↦
        let first = after_select bo k hn cf r s in
        let (a, b) = round-Counts (length rs) r s room in
        let counted =
          λ (x : Ended). IsCounted (length first.0) (messages first.0) s.ch (state_of x).ch in
        elim (Ended-cases bo k hn cf r s) [
          | inr (v, s', q) ↦ rw (step_returned bo k hn cf r rs s v s' e q) (subst counted q a)
          | inl (s', q) ↦
              let later = loop bo k hn cf rs s' in
              let rest =
                loop-IsCounted rs s' (subst (λ x. HasRoomFor (length rs) (state_of x).ch) q b) in
              rw
                (
                  step_again bo k hn cf r rs s s' e q,
                  length-append first.0 later.events,
                  messages-append first.0 later.events,
                )
                (add-IsCounted _ _ _ _ _ _ _ (subst counted q a) rest)
        ]
  ]
