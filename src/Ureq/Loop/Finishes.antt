-- ===== src/Ureq/Loop/Finishes.antt =====
-- The requester's loop returns.
use nemo_core.Prelude.{
  ℕ, ◌+◌, ◌^◌, ◌≤◌, ◌<◌, ◌≡◌, ◌≢◌, refl, sym, Bool, List, All, All_mono, length,
}
use mathlib.Core.Path.{subst}
use nemo_core.Convert.{ByteOrder}
use nemo_core.Packet.{Labels}
use nemo_core.Ureq.Config.{Config}
use nemo_core.Ureq.Target.{Target, Sorting, Loaded, loaded, refused, fault, load_targets}
use nemo_core.Ureq.Target.Cases.{Settles}
use nemo_core.Ureq.Target.Within.{KeepsLength}
use nemo_core.Ureq.Target.Safe.{HasNull, IsSafe, load_targets-IsSafe}
use nemo_core.Ureq.Target.Size.{load_targets-Settles}
use nemo_core.Ureq.Event.{State}
use nemo_core.Ureq.Round.{Pause}
use nemo_core.Ureq.Round.Ends.{IsLong}
use nemo_core.Ureq.Loop.{Reload, Turn, Outcome, finished, running, overrun, request_loop}
use nemo_core.Ureq.Loop.Ends.{IsAmple, Ends, request_loop-Ends}

-- What the two locals of `load_targets` hold is within its arrays.
abbrev pub IsFit : ℕ → Reload → Type 0
IsFit size r = (r.garbage1 ≤ 32) × (r.garbage2 ≤ size)

-- The targets end with NULL, and the array of `size` has room for one more than the limit, and for
-- what one name gives.
abbrev pub IsRoomy : Config → ℕ → Type 0
IsRoomy cf size = HasNull cf.cf_tg × (cf.cf_ntg + 1 ≤ size) × (32 ≤ size) × (size < 2 ^ 63)

pub safe-Settles : (size : ℕ) (x : Loaded) → IsSafe size x → Settles ⊥ size x
safe-Settles size (loaded tg n) h = h.0
safe-Settles size refused h = tt
safe-Settles size fault h = h

pub Ends-finished : (o : Outcome) → Ends ⊥ o → (b : Bool) × (o ≡ finished b)
Ends-finished (finished b) h = (b, refl)
Ends-finished running h = absurd h
Ends-finished overrun h = absurd h

module _ (bo : ByteOrder) (k : Labels) (sorting : Sorting) (hn : List ℕ) (cf : Config)
    (keeps : KeepsLength sorting) where
  -- The requester's loop comes to an end: it returns, or it leaves the arrays of `load_targets`,
  -- whatever the resolver, the network and the signals do, when qsort(3) keeps the length of what it
  -- sorts, there is a turn for each round, each of them has what sendmsg(2) returns for as many
  -- requests as the array of targets has elements, and in each wait the clock that the loop reads
  -- comes to the end of the wait (in a dispersed round, to a nanosecond behind the interval).
  pub request_loop-returns :
      (named : Bool) (r : Reload) (start : ℕ) (ts : List Turn) (last : Pause) (tg : List Target)
      (s : State)
      → cf.cf_cnt ≤ length ts
      → All (IsAmple cf (length tg)) ts
      → IsLong cf.cf_wait last
      → (request_loop bo k sorting hn cf named r start ts last tg s).outcome ≢ running
  request_loop-returns named r start ts last tg s le ample long h = subst (Ends Unit) h (
      request_loop-Ends bo k sorting hn cf Unit (λ r'. Unit) (length tg)
        (λ r' tg' fit same.
          subst
            (λ n. Settles Unit n (load_targets r'.resolver sorting cf r'.garbage1 r'.garbage2 tg'))
            same (load_targets-Settles r'.resolver sorting cf keeps r'.garbage1 r'.garbage2 tg'))
        named r start ts last tg s refl le tt
        (All_mono (λ (t : Turn) (a : IsAmple cf (length tg) t). (tt, a)) ts ample) long)

  -- With NULL behind the targets, an array with room for one target more than the limit and at least
  -- 32, and locals of `load_targets` that hold no more than its arrays do, the requester's loop
  -- returns, under the same conditions.
  pub request_loop-finishes :
      (named : Bool) (r : Reload) (start : ℕ) (ts : List Turn) (last : Pause) (tg : List Target)
      (s : State)
      → IsRoomy cf (length tg)
      → cf.cf_cnt ≤ length ts
      → IsFit (length tg) r
      → All (λ (t : Turn). IsFit (length tg) t.reload × IsAmple cf (length tg) t) ts
      → IsLong cf.cf_wait last
      → (b : Bool) × ((request_loop bo k sorting hn cf named r start ts last tg s).outcome
          ≡ finished b)
  request_loop-finishes named r start ts last tg s (null, more, wide, small) le fit ample long =
      Ends-finished _ (
        request_loop-Ends bo k sorting hn cf ⊥ (IsFit (length tg)) (length tg)
          (λ r' tg' (low1, low2) same.
            subst
              (λ n. Settles ⊥ n (load_targets r'.resolver sorting cf r'.garbage1 r'.garbage2 tg'))
              same
              (safe-Settles (length tg') _ (
                load_targets-IsSafe r'.resolver sorting cf keeps r'.garbage1 r'.garbage2 tg' null
                  low1 (subst (λ n. r'.garbage2 ≤ n) (sym same) low2)
                  (subst (λ n. cf.cf_ntg + 1 ≤ n) (sym same) more)
                  (subst (λ n. 32 ≤ n) (sym same) wide)
                  (subst (λ n. n < 2 ^ 63) (sym same) small))))
          named r start ts last tg s refl le fit ample long)
