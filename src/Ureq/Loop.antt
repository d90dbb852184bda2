-- ===== src/Ureq/Loop.antt =====
-- src/ureq/loop.c: the rounds of requests, with the targets loaded again from time to time. The
-- environment is a list of rounds; where it ends before the count does, the loop still runs.
pub mod Laws
pub mod Numbers
pub mod Ends
pub mod Lasts
pub mod Finishes
use nemo_core.Prelude.{
  ℕ, zero, suc, ◌+◌, Bool, false, ◌||◌, none, some, List, [], ◌∷◌, take, ltb, if◌then◌else◌,
}
use nemo_core.Word.{u64}
use nemo_core.Convert.{ByteOrder}
use nemo_core.Packet.{Labels}
use nemo_core.Ureq.Config.{Config}
use nemo_core.Ureq.Target.{Target, Resolver, Sorting, loaded, refused, fault, load_targets}
use nemo_core.Ureq.Event.{State}
use nemo_core.Ureq.Round.{Issue, Pause, Ran, pause, dispersed_round, grouped_round}

-- What a call of `load_targets` meets: the resolver, and what its two locals hold.
pub record Reload : Type 0 where
  pub resolver : Resolver
  pub garbage1 : ℕ
  pub garbage2 : ℕ

-- One iteration: the clock at its top, a reload if there is one, and the environment of the round,
-- of either kind.
pub record Turn : Type 0 where
  pub now : ℕ
  pub reload : Reload
  pub last : Pause
  pub dispersed : List (Issue × Pause)
  pub grouped : List Issue

-- `finished` with the function's result, or `running` where the environment ends, or a write past
-- the end of the array of targets.
pub data Outcome : Type 0 where
  finished : Bool → Outcome
  running overrun : Outcome

-- The targets in use and the time of the next reload.
pub record Plan : Type 0 where
  pub tg : List Target
  pub ntg : ℕ
  pub rld : ℕ

pub record Looped : Type 0 where
  pub rounds : List Ran
  pub outcome : Outcome
  pub final : State

module _ (bo : ByteOrder) (k : Labels) (sorting : Sorting) (hn : List ℕ) (cf : Config) where
  abbrev pub ended : Outcome → State → Looped
  ended o s = record { rounds = []; outcome = o; final = s }

  abbrev pub clear_shup : State → State
  clear_shup s = record s { flags = record s.flags { shup = false } }

  abbrev pub is_due : ℕ → Plan → State → Bool
  is_due now p s = ltb p.rld now || s.flags.shup

  unfoldable pub run_round : ℕ → Turn → Plan → State → Ran
  run_round i t p s =
      if cf.cf_grp
      then grouped_round bo k hn cf (take p.ntg p.tg) i t.grouped t.last s
      else dispersed_round bo k hn cf (take p.ntg p.tg) i t.last t.dispersed s

  -- The wait behind the last round.
  unfoldable pub final_wait : Pause → State → Looped
  final_wait p s =
      let w = pause bo k hn cf cf.cf_wait p s in
      record {
        rounds = w ∷ [];
        outcome = elim w.result [ none ↦ running | some ok ↦ finished ok ];
        final = w.final;
      }

  -- A round, and then `go_on` with the state after it.
  abbrev pub and_on : Ran → (State → Looped) → Looped
  and_on r go_on =
      let rest = go_on r.final in
      elim r.result [
        | none ↦ record { rounds = r ∷ []; outcome = running; final = r.final }
        | some ok ↦
            if ok
            then record rest { rounds = r ∷ rest.rounds }
            else record { rounds = r ∷ []; outcome = finished false; final = r.final }
      ]

  -- The loop at count `i` with `left` rounds to go.
  unfoldable pub count_loop : ℕ → ℕ → List Turn → Pause → Plan → State → Looped
  unfolding run_round final_wait
  count_loop zero i ts last p s = final_wait last s
  count_loop (suc left) i [] last p s = ended running s
  count_loop (suc left) i (t ∷ ts) last p s =
      let next = λ (q : Plan) (s' : State).
        and_on (run_round i t q s') (λ s''. count_loop left (i + 1) ts last q s'') in
      if is_due t.now p s
      then elim (load_targets t.reload.resolver sorting cf t.reload.garbage1 t.reload.garbage2
          p.tg) [
            | loaded tg ntg ↦
                next (record { tg = tg; ntg = ntg; rld = u64 (t.now + cf.cf_rld) }) (clear_shup s)
            | refused ↦ ended (finished false) (clear_shup s)
            | fault ↦ ended overrun (clear_shup s)
          ]
      else next p s

  -- `named` is false where gethostname(2) fails for another reason than a name that is too long;
  -- `start` is the clock before the loop.
  unfoldable pub request_loop : Bool → Reload → ℕ → List Turn → Pause → List Target → State → Looped
  unfolding count_loop
  request_loop named r start ts last tg s =
      if named
      then elim (load_targets r.resolver sorting cf r.garbage1 r.garbage2 tg) [
        | loaded tg' ntg ↦
            count_loop cf.cf_cnt 0 ts last
              (record { tg = tg'; ntg = ntg; rld = u64 (start + cf.cf_rld) }) s
        | refused ↦ ended (finished false) s
        | fault ↦ ended overrun s
      ]
      else ended (finished false) s
