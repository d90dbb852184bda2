-- ===== src/Network.antt =====
-- A requester and a responder on a network that may lose, repeat, delay and reorder datagrams, as a
-- step relation. What arrives at the responder is a request that the requester has sent at some
-- time, and what arrives at the requester is a response that the responder has sent.
use nemo_core.Prelude.{
  ℕ, ◌^◌, ◌<◌, ◌≡◌, refl, inl, inr, true, false, some, List, [], ◌∷◌, All, All_mono, Option-cases,
  arith, In, All-In,
}
use mathlib.Core.Path.{subst}
use nemo_core.Convert.{ByteOrder, IsByteOrder}
use nemo_core.Now.{Clocks}
use nemo_core.Channel.{Channel}
use nemo_core.Packet.{Labels, Message, receive_packet}
use nemo_core.Packet.RoundTrip.{Carries}
use nemo_core.Plugin.{Plugin}
use nemo_core.Ures.Config.{Config as Responder}
use nemo_core.Ures.Event.{World, handle_event as respond_event}
use nemo_core.Ureq.Config.{Parsing}
use nemo_core.Ureq.Config.Laws.{IsValid}
use nemo_core.Ureq.Target.{Target}
use nemo_core.Ureq.Report.{Row, report_event}
use nemo_core.Ureq.Event.{State, Arrival, handle_event}
use nemo_core.Ureq.Round.{Issue, issue_request}
use nemo_core.Ureq.Round.Laws.{IsReading}
use nemo_core.Exchange.{report-exchange}

-- A request as the requester means it: its sequence number, and the clocks when it was made.
pub record Request : Type 0 where
  pub snum : ℕ
  pub now : Clocks

-- The messages given to sendmsg(2) so far by each side, the lines printed, and what stands behind
-- them: the requests, and the clocks of the responder at its answers.
pub record Net : Type 0 where
  pub requests : List Message
  pub responses : List Message
  pub rows : List Row
  pub issued : List Request
  pub answered : List Clocks

abbrev pub silence : Net
silence = record { requests = []; responses = []; rows = []; issued = []; answered = [] }

module _ (bo : ByteOrder) (k : Labels) (hn_req hn_res : List ℕ) (p : Parsing) (cf : Responder) where
  -- A request is sent; a request arrives and is answered; a response arrives and is reported.
  pub data Step : Net → Net → Type 0 where
    issue :
        (n : Net) (snum : ℕ) (tg : Target) (i : Issue) (s : State)
        → snum < 2 ^ 64
        → IsReading i.now
        → Step n (record n {
          requests = (issue_request bo k hn_req p.cf snum tg i s).message ∷ n.requests;
          issued = record { snum = snum; now = i.now } ∷ n.issued;
        })
    answer :
        (n : Net) (m m' : Message) (pis : List Plugin) (w : World) (ch : Channel)
        → In m n.requests
        → Carries m w.got
        → IsReading w.now
        → (respond_event bo k hn_res pis cf w ch).sent ≡ some m'
        → Step n (record n { responses = m' ∷ n.responses; answered = w.now ∷ n.answered })
    report :
        (n : Net) (m : Message) (a : Arrival) (s : State) (row : Row)
        → In m n.responses
        → Carries m a.got
        → (handle_event bo k hn_req p.cf true a s).row ≡ some row
        → Step n (record n { rows = row ∷ n.rows })

  pub data Reach : Net → Type 0 where
    here : Reach silence
    next : {n n' : Net} → Reach n → Step n n' → Reach n'

  -- Message `m` is the one that the request `r` of the list was sent with.
  abbrev IsIssued : List Request → Message → Type 0
  IsIssued issued m =
      (snum : ℕ) × (tg : Target) × (i : Issue) × (s : State) × (m
        ≡ (issue_request bo k hn_req p.cf snum tg i s).message)
      × (snum < 2 ^ 64)
      × IsReading i.now
      × In (record { snum = snum; now = i.now }) issued

  -- Message `m'` is the answer to such a message, at one of the clocks of the list.
  abbrev IsAnswer : List Request → List Clocks → Message → Type 0
  IsAnswer issued answered m' =
      (m : Message) × (pis : List Plugin) × (w : World) × (ch : Channel) × IsIssued issued m
      × Carries m w.got
      × IsReading w.now
      × ((respond_event bo k hn_res pis cf w ch).sent ≡ some m')
      × In w.now answered

  -- The line is about one of the requests, and one of the answers.
  pub record IsGenuine (issued : List Request) (answered : List Clocks) (row : Row) : Type 0 where
    pub request : Request
    pub clocks : Clocks
    pub was_issued : In request issued
    pub was_answered : In clocks answered
    pub seq_num : row.seq_num ≡ request.snum
    pub mono_dep_req : row.mono_dep_req ≡ request.now.mono
    pub real_dep_req : row.real_dep_req ≡ request.now.real
    pub mono_arr_res : row.mono_arr_res ≡ clocks.mono
    pub real_arr_res : row.real_arr_res ≡ clocks.real
    pub host_req : row.host_req ≡ hn_req
    pub host_res : row.host_res ≡ hn_res
    pub key : row.key ≡ cf.cf_key

  record Inv (n : Net) : Type 0 where
    known : All (IsIssued n.issued) n.requests
    answers : All (IsAnswer n.issued n.answered) n.responses
    lines : All (IsGenuine n.issued n.answered) n.rows

  IsIssued_more :
      (r : Request) (issued : List Request) (m : Message)
      → IsIssued issued m
      → IsIssued (r ∷ issued) m
  IsIssued_more r issued m (snum, tg, i, s, e, small, now, at) =
      (snum, tg, i, s, e, small, now, inr at)

  IsAnswer_issued :
      (r : Request) (issued : List Request) (answered : List Clocks) (m : Message)
      → IsAnswer issued answered m
      → IsAnswer (r ∷ issued) answered m
  IsAnswer_issued r issued answered m (q, pis, w, ch, known, c, now, e, at) =
      (q, pis, w, ch, IsIssued_more r issued q known, c, now, e, at)

  IsAnswer_answered :
      (t : Clocks) (issued : List Request) (answered : List Clocks) (m : Message)
      → IsAnswer issued answered m
      → IsAnswer issued (t ∷ answered) m
  IsAnswer_answered t issued answered m (q, pis, w, ch, known, c, now, e, at) =
      (q, pis, w, ch, known, c, now, e, inr at)

  printed_loud :
      (a : Arrival) (s : State) (row : Row)
      → (handle_event bo k hn_req p.cf true a s).row ≡ some row
      → (p.cf.cf_mono ≡ false) × (p.cf.cf_sil ≡ false)
  unfolding handle_event report_event
  printed_loud a s row h = elim (Option-cases (receive_packet bo k s.ch a.got).1) [
    | inl e ↦ ground arith
    | inr (inc, e) ↦ ground arith
  ]

  -- The premises that all steps share.
  module _ (law : IsByteOrder bo) (v : IsValid p) (key : cf.cf_key < 2 ^ 64) where
    reported-IsGenuine :
        (issued : List Request) (answered : List Clocks) (m : Message) (a : Arrival) (s : State)
        (row : Row)
        → IsAnswer issued answered m
        → Carries m a.got
        → (handle_event bo k hn_req p.cf true a s).row ≡ some row
        → IsGenuine issued answered row
    reported-IsGenuine issued answered m a s row
          (q, pis, w, ch, (snum, tg, i, s0, e, small, now1, was), there, now2, sent, at) back
          printed =
        let (loud, spoken) = printed_loud a s row printed in
        let (row', printed', line) =
          report-exchange bo k hn_req hn_res p cf law v loud spoken snum tg i s0 s pis w ch m a
            small now1 now2 key (subst (λ x. Carries x w.got) e there) sent back in
        let same : row ≡ row' = ground arith in
        record {
          request = record { snum = snum; now = i.now };
          clocks = w.now;
          was_issued = was;
          was_answered = at;
          seq_num = rw same line.seq_num;
          mono_dep_req = rw same line.mono_dep_req;
          real_dep_req = rw same line.real_dep_req;
          mono_arr_res = rw same line.mono_arr_res;
          real_arr_res = rw same line.real_arr_res;
          host_req = rw same line.host_req;
          host_res = rw same line.host_res;
          key = rw same line.key;
        }

    IsGenuine-more :
        (issued issued' : List Request) (answered answered' : List Clocks) (row : Row)
        → ((r : Request) → In r issued → In r issued')
        → ((t : Clocks) → In t answered → In t answered')
        → IsGenuine issued answered row
        → IsGenuine issued' answered' row
    IsGenuine-more issued issued' answered answered' row f g h = record {
      request = h.request;
      clocks = h.clocks;
      was_issued = f h.request h.was_issued;
      was_answered = g h.clocks h.was_answered;
      seq_num = h.seq_num;
      mono_dep_req = h.mono_dep_req;
      real_dep_req = h.real_dep_req;
      mono_arr_res = h.mono_arr_res;
      real_arr_res = h.real_arr_res;
      host_req = h.host_req;
      host_res = h.host_res;
      key = h.key;
    }

    Step-Inv : {n n' : Net} → Step n n' → Inv n → Inv n'
    Step-Inv (issue n snum tg i s small now) inv =
        let r : Request = record { snum = snum; now = i.now } in
        record {
          known = (
            (snum, tg, i, s, refl, small, now, inl refl),
            All_mono (IsIssued_more r n.issued) n.requests inv.known,
          );
          answers = All_mono (IsAnswer_issued r n.issued n.answered) n.responses inv.answers;
          lines =
              All_mono
                (λ row.
                  IsGenuine-more n.issued (r ∷ n.issued) n.answered n.answered row (λ x h. inr h)
                    (λ t h. h))
                n.rows inv.lines;
        }
    Step-Inv (answer n m m' pis w ch at c now e) inv = record {
      known = inv.known;
      answers = (
        (m, pis, w, ch, All-In (IsIssued n.issued) m n.requests inv.known at, c, now, e, inl refl),
        All_mono (IsAnswer_answered w.now n.issued n.answered) n.responses inv.answers,
      );
      lines =
          All_mono
            (λ row.
              IsGenuine-more n.issued n.issued n.answered (w.now ∷ n.answered) row (λ x h. h)
                (λ t h. inr h))
            n.rows inv.lines;
    }
    Step-Inv (report n m a s row at c e) inv = record {
      known = inv.known;
      answers = inv.answers;
      lines = (
        reported-IsGenuine n.issued n.answered m a s row
            (All-In (IsAnswer n.issued n.answered) m n.responses inv.answers at) c e,
        inv.lines,
      );
    }

    Reach-Inv : {n : Net} → Reach n → Inv n
    Reach-Inv here = record { known = tt; answers = tt; lines = tt }
    Reach-Inv (next r st) = Step-Inv st (Reach-Inv r)

    -- Whatever the network loses, repeats, delays or reorders, each line that the requester has
    -- printed is about a request that it issued and an answer that the responder gave: it has the
    -- request's sequence number and two clock readings, the responder's clock readings at that
    -- answer, both hosts' names and the responder's key. The requester's configuration must be one
    -- that its options can produce, the responder's key fit 64 bits, and the byte order functions,
    -- the same on both hosts, be as POSIX says.
    pub Reach-IsGenuine : {n : Net} → Reach n → All (IsGenuine n.issued n.answered) n.rows
    Reach-IsGenuine r = (Reach-Inv r).lines
