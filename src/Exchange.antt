-- ===== src/Exchange.antt =====
-- A whole exchange: src/ureq issues a request, src/ures answers it, and src/ureq reports the answer.
pub mod Complete
use nemo_core.Prelude.{ℕ, ◌^◌, ◌<◌, ◌≡◌, refl, ◌∙◌, true, false, some, List, if◌then◌else◌, arith}
use nemo_core.Word.{u8, u16, u32}
use nemo_core.Convert.{ByteOrder, IsByteOrder, tipv6}
use nemo_core.Payload.{IsPayload}
use nemo_core.Channel.{Channel}
use nemo_core.Packet.{Labels, Received, Incoming, Message, receive_packet, retrieve_ttl}
use nemo_core.Packet.RoundTrip.{Carries}
use nemo_core.Plugin.{Plugin}
use nemo_core.Ures.Config.{Config as Responder}
use nemo_core.Ures.Event.{World, handle_event as respond_event}
use nemo_core.Ures.Event.Laws.{answer_to}
use nemo_core.Ures.Event.Echo.{receive-handle_event}
use nemo_core.Ures.Report.{v4, v6, ttl_column}
use nemo_core.Ureq.Config.{Parsing}
use nemo_core.Ureq.Config.Laws.{IsValid}
use nemo_core.Ureq.Target.{Target}
use nemo_core.Ureq.Report.{Row, report_event}
use nemo_core.Ureq.Event.{State, Arrival, handle_event, retrieve_address}
use nemo_core.Ureq.Round.{Issue, fill_payload, issue_request}
use nemo_core.Ureq.Round.Laws.{IsReading, fill_payload-IsPayload, receive-issue_request}

-- The time-to-live that a receiver takes from a datagram.
abbrev pub arrival_ttl : Labels → Received → ℕ
arrival_ttl k got = if got.ctrunc then 0 else retrieve_ttl k got.control

-- What the requester's line says of an exchange.
pub record IsReported (p : Parsing) (cf : Responder) (k : Labels) (hn_req hn_res : List ℕ)
    (snum : ℕ) (i : Issue) (w : World) (a : Arrival) (row : Row) : Type 0 where
  pub key : row.key ≡ cf.cf_key
  pub len : row.len ≡ u16 p.cf.cf_len
  pub seq_num : row.seq_num ≡ snum
  pub seq_len : row.seq_len ≡ p.cf.cf_cnt
  pub host_req : row.host_req ≡ hn_req
  pub host_res : row.host_res ≡ hn_res
  pub ttl_dep_req : row.ttl_dep_req ≡ p.cf.cf_ttl
  pub ttl_arr_res : row.ttl_arr_res ≡ ttl_column (arrival_ttl k w.got)
  pub ttl_dep_res : row.ttl_dep_res ≡ u8 cf.cf_ttl
  pub ttl_arr_req : row.ttl_arr_req ≡ ttl_column (arrival_ttl k a.got)
  pub real_dep_req : row.real_dep_req ≡ i.now.real
  pub real_arr_res : row.real_arr_res ≡ w.now.real
  pub real_arr_req : row.real_arr_req ≡ a.now.real
  pub mono_dep_req : row.mono_dep_req ≡ i.now.mono
  pub mono_arr_res : row.mono_arr_res ≡ w.now.mono
  pub mono_arr_req : row.mono_arr_req ≡ a.now.mono

module _ (bo : ByteOrder) (k : Labels) (hn_req hn_res : List ℕ) (p : Parsing) (cf : Responder) where
  -- The requester reports what it accepts, unless it is silent or in the monologue mode.
  accepted_row :
      (a : Arrival) (s : State) (inc : Incoming)
      → p.cf.cf_mono ≡ false
      → p.cf.cf_sil ≡ false
      → (receive_packet bo k s.ch a.got).1 ≡ some inc
      → (handle_event bo k hn_req p.cf true a s).row
        ≡ report_event inc.pl hn_req a.now.real a.now.mono inc.ttl
            (retrieve_address inc.addr).la
            (retrieve_address inc.addr).ha
            p.cf
  unfolding handle_event
  accepted_row a s inc loud spoken e = ground arith

  reported :
      (snum : ℕ) (i : Issue) (w : World) (a : Arrival) (la ha : ℕ)
      → p.cf.cf_sil ≡ false
      → (row : Row) × (report_event
            (answer_to w.now hn_res cf (record {
              pl = fill_payload i.now snum hn_req p.cf;
              ttl = arrival_ttl k w.got;
              addr = w.got.from;
            }))
            hn_req
            a.now.real
            a.now.mono
            (arrival_ttl k a.got)
            la
            ha
            p.cf
          ≡ some row)
        × IsReported p cf k hn_req hn_res snum i w a row
  unfolding fill_payload report_event
  reported snum i w a la ha spoken = (
    record {
      key = cf.cf_key;
      len = u16 p.cf.cf_len;
      seq_num = snum;
      seq_len = p.cf.cf_cnt;
      host_req = hn_req;
      host_res = hn_res;
      addr_res = if p.cf.cf_ipv4 then v4 (u32 la) else v6 (tipv6 la ha);
      port_res = p.cf.cf_port;
      ttl_dep_req = p.cf.cf_ttl;
      ttl_arr_res = ttl_column (arrival_ttl k w.got);
      ttl_dep_res = u8 cf.cf_ttl;
      ttl_arr_req = ttl_column (arrival_ttl k a.got);
      real_dep_req = i.now.real;
      real_arr_res = w.now.real;
      real_arr_req = a.now.real;
      mono_dep_req = i.now.mono;
      mono_arr_res = w.now.mono;
      mono_arr_req = a.now.mono;
    },
    rw spoken refl,
    record {
      key = refl;
      len = refl;
      seq_num = refl;
      seq_len = refl;
      host_req = refl;
      host_res = refl;
      ttl_dep_req = refl;
      ttl_arr_res = refl;
      ttl_dep_res = refl;
      ttl_arr_req = refl;
      real_dep_req = refl;
      real_arr_res = refl;
      real_arr_req = refl;
      mono_dep_req = refl;
      mono_arr_res = refl;
      mono_arr_req = refl;
    },
  )

  -- A request is issued under a configuration that the options can produce and reaches the responder
  -- whole; the responder's answer, if it sends one, reaches the requester whole. Then the requester
  -- prints a line with the request's sequence number, both hosts' names, the responder's key, and
  -- the six clock readings and the time-to-lives where they were taken, if it is neither silent nor
  -- in the monologue mode. Both hosts have the same byte order, with functions as POSIX says; the
  -- clocks, the sequence number and the responder's key fit 64 bits.
  pub report-exchange :
      IsByteOrder bo
      → IsValid p
      → p.cf.cf_mono ≡ false
      → p.cf.cf_sil ≡ false
      → (snum : ℕ) (tg : Target) (i : Issue) (s s' : State) (pis : List Plugin) (w : World)
        (ch : Channel) (m : Message) (a : Arrival)
      → snum < 2 ^ 64
      → IsReading i.now
      → IsReading w.now
      → cf.cf_key < 2 ^ 64
      → Carries (issue_request bo k hn_req p.cf snum tg i s).message w.got
      → (respond_event bo k hn_res pis cf w ch).sent ≡ some m
      → Carries m a.got
      → (row : Row) × ((handle_event bo k hn_req p.cf true a s').row ≡ some row)
        × IsReported p cf k hn_req hn_res snum i w a row
  report-exchange law v loud spoken snum tg i s s' pis w ch m a small now1 now2 key there sent
        back =
      let took = receive-issue_request bo k hn_req p law snum tg i s ch w.got v small now1 there in
      let fits : IsPayload (fill_payload i.now snum hn_req p.cf) =
        fill_payload-IsPayload bo k hn_req p snum i.now v (ground arith) small now1 in
      let home =
        receive-handle_event bo k hn_res pis cf w ch law m _ s'.ch a.got sent took fits key now2.0
          now2.1 back in
      let line = accepted_row a s' _ loud spoken home in
      let at = retrieve_address a.got.from in
      let (row, e, columns) = reported snum i w a at.la at.ha spoken in (row, line ∙ e, columns)
