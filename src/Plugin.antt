-- ===== src/Plugin.antt =====
-- src/common/plugin.h and src/common/plugin.c: plugins as child processes behind pipes. The dynamic
-- loader, pipe(2), fork(2), read(2), close(2) and waitpid(2) are the environment.
pub mod Laws
pub mod Shown
use nemo_core.Prelude.{
  ℕ, zero, suc, Bool, true, false, not, Option, none, some, List, [], ◌∷◌, map, ◌==◌, ◌⊎◌, inl, inr,
  if◌then◌else◌,
}
use nemo_core.Parse.{Text}
use nemo_core.Payload.{Payload, payload_size}

abbrev pub plug_max : ℕ
plug_max = 32

-- `unset` is the state of an entry that `load_plugins` has not filled in.
pub data State : Type 0 where
  unset prepared running paused stopped : State

-- `none` is a process ID of -1.
pub record Plugin : Type 0 where
  pub pi_hndl : ℕ
  pub pi_pid : Option ℕ
  pub pi_pipe0 : ℕ
  pub pi_pipe1 : ℕ
  pub pi_state : State

-- The loop over at most `left` paths, up to the first NULL.
unfoldable pub count_from : ℕ → List (Option Text) → ℕ
count_from zero so = 0
count_from (suc left) [] = 0
count_from (suc left) (none ∷ so) = 0
count_from (suc left) (some path ∷ so) = suc (count_from left so)

unfoldable pub count_plugins : List (Option Text) → ℕ
unfolding count_from
count_plugins so = count_from plug_max so

pub data Symbol : Type 0 where
  nemo_name nemo_init nemo_evnt nemo_free : Symbol

-- What dlopen(3) returns for a path, and whether dlsym(3) finds a symbol behind a handle.
pub record Loader : Type 0 where
  pub dlopen : Text → Option ℕ
  pub dlsym : ℕ → Symbol → Bool

module _ (l : Loader) where
  -- One round of the loop in `load_plugins`.
  unfoldable pub load_plugin : Plugin → Text → Option Plugin
  load_plugin pi path = elim (l.dlopen path) [
    | none ↦ none
    | some h ↦
        if l.dlsym h nemo_name
        then if l.dlsym h nemo_init
          then if l.dlsym h nemo_evnt
            then if l.dlsym h nemo_free
              then some (record pi { pi_hndl = h; pi_state = prepared })
              else none
            else none
          else none
        else none
  ]

  -- The rounds for the first `left` paths. The array before the call gives the other fields.
  unfoldable pub load_from : ℕ → List Plugin → List (Option Text) → Option (List Plugin)
  load_from zero pis so = some []
  load_from (suc left) (pi ∷ pis) (some path ∷ so) = elim (load_plugin pi path) [
    | none ↦ none
    | some pi' ↦ elim (load_from left pis so) [ none ↦ none | some rest ↦ some (pi' ∷ rest) ]
  ]
  load_from (suc left) _ _ = none

  unfoldable pub load_plugins : List Plugin → List (Option Text) → Option (List Plugin)
  unfolding load_from count_plugins
  load_plugins pis so = load_from (count_plugins so) pis so

-- What pipe(2) gives, and whether the two calls of fcntl(2) succeed.
pub record PipeAnswers : Type 0 where
  pub pipe : Option (ℕ × ℕ)
  pub getfl : Bool
  pub setfl : Bool

unfoldable pub create_pipe : PipeAnswers → Plugin → Plugin × Bool
create_pipe a pi = elim a.pipe [
  | none ↦ (pi, false)
  | some (r, w) ↦
      let piped = record pi { pi_pipe0 = r; pi_pipe1 = w } in
      if a.getfl then if a.setfl then (piped, false) else (piped, false) else (piped, false)
]

abbrev pub is_child : Option ℕ → Bool
is_child none = false
is_child (some p) = p == 0

-- The descriptor that `close_pipe_end` closes: the writing end in the child, else the reading end.
unfoldable pub close_pipe_end : Plugin → ℕ
close_pipe_end pi = if is_child pi.pi_pid then pi.pi_pipe1 else pi.pi_pipe0

-- One read(2) of a plugin process: the number of bytes (`none` is -1) and the payload.
pub record Read : Type 0 where
  pub retss : Option ℕ
  pub pl : Payload

abbrev pub is_full : Option ℕ → Bool
is_full none = false
is_full (some n) = n == payload_size

-- The arguments of each call of the plugin's event procedure, until a read is not a full payload.
unfoldable pub read_loop : List Read → List (ℕ × ℕ × ℕ × ℕ)
read_loop [] = []
read_loop (r ∷ rs) =
    let rest = read_loop rs in
    if is_full r.retss then (r.pl.pl_key, r.pl.pl_key, r.pl.pl_key, r.pl.pl_key) ∷ rest else []

-- The environment of one round of `start_plugins`.
pub record StartAnswers : Type 0 where
  pub pipe : PipeAnswers
  pub fork : Option ℕ
  pub close : Bool
  pub init : Bool
  pub reads : List Read

-- How the process leaves `start_plugins`: it returns false, it is a child that has run its loop
-- and exits, or it is the responder with its plugins.
pub data Started : Type 0 where
  failed exited : Started
  started : List Plugin → Started

abbrev pub cons_started : Plugin → Started → Started
cons_started pi failed = failed
cons_started pi exited = exited
cons_started pi (started pis) = started (pi ∷ pis)

-- One round: what it leads to, or the running plugin with which the loop goes on.
unfoldable pub start_plugin : StartAnswers → Plugin → Started ⊎ Plugin
unfolding create_pipe
start_plugin a pi =
    let (piped, ok) = create_pipe a.pipe pi in
    let forked = record piped { pi_pid = a.fork } in
    if not ok then inl failed else elim a.fork [
      | none ↦ inl failed
      | some pid ↦
          if not a.close
          then inl failed
          else if pid == 0
          then if a.init then inl exited else inl failed
          else inr (record forked { pi_state = running })
    ]

unfoldable pub start_plugins : List StartAnswers → List Plugin → Started
unfolding start_plugin
start_plugins answers [] = started []
start_plugins [] (pi ∷ pis) = failed
start_plugins (a ∷ answers) (pi ∷ pis) = elim (start_plugin a pi) [
  | inl r ↦ r
  | inr pi' ↦ cons_started pi' (start_plugins answers pis)
]

abbrev pub is_running : State → Bool
is_running running = true
is_running _ = false

-- A write(2) of a payload; its result only decides log messages.
pub record Write : Type 0 where
  pub fd : ℕ
  pub pl : Payload

unfoldable pub notify_plugins : List Plugin → Payload → List Write
notify_plugins [] pl = []
notify_plugins (pi ∷ pis) pl =
    let rest = notify_plugins pis pl in
    if is_running pi.pi_state then record { fd = pi.pi_pipe0; pl = pl } ∷ rest else rest

-- What waitpid(2) with WNOHANG and WCONTINUED tells of a plugin process.
pub data Status : Type 0 where
  wait_error unchanged exited_status signaled stopped_status continued : Status

-- The loop, which returns at the first plugin that has exited or was killed.
unfoldable pub wait_plugins : (Plugin → Status) → List Plugin → List Plugin
wait_plugins waitpid [] = []
wait_plugins waitpid (pi ∷ pis) =
    let rest = wait_plugins waitpid pis in
    elim (waitpid pi) [
      | wait_error ↦ pi ∷ rest
      | unchanged ↦ pi ∷ rest
      | exited_status ↦ record pi { pi_state = stopped } ∷ pis
      | signaled ↦ record pi { pi_state = stopped } ∷ pis
      | stopped_status ↦ record pi { pi_state = paused } ∷ rest
      | continued ↦ record pi { pi_state = running } ∷ rest
    ]

-- The descriptors that are closed, and the plugins after the wait.
unfoldable pub terminate_plugins :
    (Plugin → Status) → List Plugin → record { closed : List ℕ; plugins : List Plugin }
unfolding wait_plugins
terminate_plugins waitpid pis = record {
  closed = map (λ pi. pi.pi_pipe1) pis;
  plugins = wait_plugins waitpid pis;
}
