-- ===== src/Plugin/Laws.antt =====
-- What the plugin functions do to the plugins, on every outcome of the system calls.
use nemo_core.Prelude.{
  ℕ, zero, suc, ◌+◌, ◌≤◌, ◌≡◌, ◌↔◌, inl, inr, Bool, true, false, Option, none, some, List, [], ◌∷◌,
  ◌++◌, map, ap, refl, ◌∙◌, length, replicate, All, arith, if◌then◌else◌, Bool-cases, Option-cases,
}
use nemo_core.Parse.{Text}
use nemo_core.Payload.{Payload, payload_size}
use nemo_core.Plugin.{
  State, prepared, running, paused, stopped, Plugin, count_from, count_plugins, nemo_name,
  nemo_init, nemo_evnt, nemo_free, Loader, load_plugin, load_from, load_plugins, is_child,
  close_pipe_end, Read, is_full, read_loop, StartAnswers, failed, start_plugins, is_running,
  notify_plugins, Status, wait_error, unchanged, exited_status, signaled, stopped_status, continued,
  wait_plugins,
}

count_from_lem :
    (left n : ℕ) (paths : List Text)
    → length paths + n ≡ left
    → count_from left (map some paths ++ replicate n none) ≡ length paths
unfolding count_from
count_from_lem zero zero [] e = refl
count_from_lem zero (suc n) [] e = absurd (omega arith)
count_from_lem (suc left) zero [] e = refl
count_from_lem (suc left) (suc n) [] e = refl
count_from_lem zero n (p ∷ paths) e = absurd (omega arith)
count_from_lem (suc left) n (p ∷ paths) e = ap suc (count_from_lem left n paths (omega arith))

-- All four symbols are found in the object of that path.
pub record Loads (l : Loader) (path : Text) : Type 0 where
  pub handle : ℕ
  pub opens : l.dlopen path ≡ some handle
  pub has_name : l.dlsym handle nemo_name ≡ true
  pub has_init : l.dlsym handle nemo_init ≡ true
  pub has_evnt : l.dlsym handle nemo_evnt ≡ true
  pub has_free : l.dlsym handle nemo_free ≡ true

load_plugin-Loads :
    (l : Loader) (pi : Plugin) (path : Text) (pi' : Plugin)
    → load_plugin l pi path ≡ some pi'
    → Loads l path × (pi'.pi_state ≡ prepared)
unfolding load_plugin
load_plugin-Loads l pi path pi' h = elim (Option-cases (l.dlopen path)) [
  | inl e ↦ ground arith
  | inr (hn, e) ↦ (
    record {
      handle = hn;
      opens = e;
      has_name = ground arith;
      has_init = ground arith;
      has_evnt = ground arith;
      has_free = ground arith;
    },
    ground arith,
  )
]

Loads-load_plugin :
    (l : Loader) (pi : Plugin) (path : Text) (s : Loads l path)
    → load_plugin l pi path ≡ some (record pi { pi_hndl = s.handle; pi_state = prepared })
unfolding load_plugin
Loads-load_plugin l pi path s = ground arith

load_from_sound :
    (l : Loader) (pis : List Plugin) (paths : List Text) (behind : List (Option Text))
    (r : List Plugin)
    → load_from l (length paths) pis (map some paths ++ behind) ≡ some r
    → All (Loads l) paths × (length r ≡ length paths) × All (λ pi. pi.pi_state ≡ prepared) r
unfolding load_from
load_from_sound l pis [] behind [] h = (tt, refl, tt)
load_from_sound l pis [] behind (q ∷ r) h = absurd (ground arith)
load_from_sound l [] (p ∷ paths) behind r h = absurd (ground arith)
load_from_sound l (pi ∷ pis) (p ∷ paths) behind r h = elim (Option-cases (load_plugin l pi p)) [
  | inl e ↦ absurd (ground arith)
  | inr (pi', e) ↦ elim (Option-cases (load_from l (length paths) pis (map some paths ++ behind))) [
    | inl e2 ↦ absurd (ground arith)
    | inr (rest, e2) ↦
        let (loads, size, states) = load_from_sound l pis paths behind rest e2 in
        let (first, state) = load_plugin-Loads l pi p pi' e in
        let shape : r ≡ pi' ∷ rest = ground arith in
        rw shape ((first, loads), ap suc size, (state, states))
  ]
]

load_from_complete :
    (l : Loader) (pis : List Plugin) (paths : List Text) (behind : List (Option Text))
    → length paths ≤ length pis
    → All (Loads l) paths
    → (r : List Plugin) × (load_from l (length paths) pis (map some paths ++ behind) ≡ some r)
unfolding load_from
load_from_complete l pis [] behind fits h = ([], refl)
load_from_complete l [] (p ∷ paths) behind fits h = absurd (omega arith)
load_from_complete l (pi ∷ pis) (p ∷ paths) behind fits (first, others) =
    let (r, e) = load_from_complete l pis paths behind (omega arith) others in
    (
      record pi { pi_hndl = first.handle; pi_state = prepared } ∷ r,
      ground (arith, Loads-load_plugin l pi p first, e),
    )

-- The paths from the options stand in the first slots of the 32, the others hold NULL, and the
-- array of plugins has room for them.
module _ (l : Loader) (pis : List Plugin) (paths : List Text) (n : ℕ)
    (slots : length paths + n ≡ 32) (fits : length paths ≤ length pis) where
  abbrev so : List (Option Text)
  so = map some paths ++ replicate n none

  -- Where the paths fill the first of the 32 slots and the array has room for them, `load_plugins`
  -- gives plugins exactly when every path names an object with all four symbols.
  pub load_plugins_iff :
      ((r : List Plugin) × (load_plugins l pis so ≡ some r)) ↔ All (Loads l) paths
  unfolding load_plugins
  load_plugins_iff = (
    λ (r, e). (load_from_sound l pis paths (replicate n none) r (rw count at e)).0,
    λ h. rw count (load_from_complete l pis paths (replicate n none) fits h),
  )
    where
      count : count_plugins so ≡ length paths
      count = count_from_lem 32 n paths slots

  -- Where the paths fill the first of the 32 slots and the array has room for them, the plugins that
  -- `load_plugins` gives are one for each path, and each is prepared.
  pub load_plugins-prepared :
      (r : List Plugin)
      → load_plugins l pis so ≡ some r
      → (length r ≡ length paths) × All (λ pi. pi.pi_state ≡ prepared) r
  unfolding load_plugins
  load_plugins-prepared r e =
      let count : count_plugins so ≡ length paths = count_from_lem 32 n paths slots in
      let p = load_from_sound l pis paths (replicate n none) r (rw count at e) in (p.1, p.2)

-- No plugin can be started: with at least one, `start_plugins` fails whatever the system answers.
pub start_plugins_fails :
    (answers : List StartAnswers) (pi : Plugin) (pis : List Plugin)
    → start_plugins answers (pi ∷ pis) ≡ failed
unfolding start_plugins
start_plugins_fails [] pi pis = refl
start_plugins_fails (a ∷ answers) pi pis = ground arith

-- A plugin process calls its event procedure once for each full payload read before the first read
-- that fails or is short, in order, with the key as all four arguments.
pub read_loop_lem :
    (full : List Payload) (r : Read) (rest : List Read)
    → is_full r.retss ≡ false
    → read_loop (map (λ pl. record { retss = some payload_size; pl = pl }) full ++ (r ∷ rest))
      ≡ map (λ pl. (pl.pl_key, pl.pl_key, pl.pl_key, pl.pl_key)) full
unfolding read_loop
read_loop_lem [] r rest h = rw h
read_loop_lem (p ∷ full) r rest h = rw (read_loop_lem full r rest h)

abbrev pub running_only : List Plugin → List Plugin
running_only [] = []
running_only (pi ∷ pis) = if is_running pi.pi_state then pi ∷ running_only pis else running_only pis

-- In the responder process the payload is written once for each running plugin, in order, and to
-- no other; the descriptor is the one that `close_pipe_end` closes there.
pub notify_plugins_lem :
    (pis : List Plugin) (pl : Payload)
    → All (λ pi. is_child pi.pi_pid ≡ false) pis
    → notify_plugins pis pl
      ≡ map (λ pi. record { fd = close_pipe_end pi; pl = pl }) (running_only pis)
unfolding notify_plugins close_pipe_end
notify_plugins_lem [] pl h = refl
notify_plugins_lem (pi ∷ pis) pl h = elim (Bool-cases (is_running pi.pi_state)) [
  | inl e ↦ rw (e, h.0, notify_plugins_lem pis pl h.1)
  | inr e ↦ rw (e, notify_plugins_lem pis pl h.1)
]

-- The state that a status stands for.
abbrev pub state_of : Status → State → State
state_of wait_error s = s
state_of unchanged s = s
state_of exited_status s = stopped
state_of signaled s = stopped
state_of stopped_status s = paused
state_of continued s = running

abbrev pub ended : Status → Bool
ended exited_status = true
ended signaled = true
ended _ = false

abbrev pub updated : (Plugin → Status) → Plugin → Plugin
updated waitpid pi = record pi { pi_state = state_of (waitpid pi) pi.pi_state }

wait_one :
    (waitpid : Plugin → Status) (st : Status) (pi : Plugin) (pis : List Plugin)
    → waitpid pi ≡ st
    → ended st ≡ false
    → wait_plugins waitpid (pi ∷ pis) ≡ updated waitpid pi ∷ wait_plugins waitpid pis
unfolding wait_plugins
wait_one waitpid st pi pis e h = ground arith

wait_ended :
    (waitpid : Plugin → Status) (pi : Plugin) (pis : List Plugin)
    → ended (waitpid pi) ≡ true
    → wait_plugins waitpid (pi ∷ pis) ≡ record pi { pi_state = stopped } ∷ pis
unfolding wait_plugins
wait_ended waitpid pi pis h = ground arith

-- Each plugin takes the state that its status stands for, up to the first that has ended. That one
-- is stopped, and the plugins behind it are left as they were, whatever their status.
pub wait_plugins_lem :
    (waitpid : Plugin → Status) (before : List Plugin) (pi : Plugin) (behind : List Plugin)
    → All (λ p. ended (waitpid p) ≡ false) before
    → ended (waitpid pi) ≡ true
    → wait_plugins waitpid (before ++ (pi ∷ behind))
      ≡ map (updated waitpid) before ++ (record pi { pi_state = stopped } ∷ behind)
wait_plugins_lem waitpid [] pi behind h e = wait_ended waitpid pi behind e
wait_plugins_lem waitpid (p ∷ before) pi behind h e =
    wait_one waitpid (waitpid p) p (before ++ (pi ∷ behind)) refl h.0
    ∙ ap (◌∷◌ (updated waitpid p)) (wait_plugins_lem waitpid before pi behind h.1 e)
