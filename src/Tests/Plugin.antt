-- ===== src/Tests/Plugin.antt =====
-- src/common/plugin.c at concrete inputs.
use nemo_core.Prelude.{◌≡◌, refl, true, none, some, List, [], ◌∷◌, ◌++◌, map, replicate}
use nemo_core.Parse.{Text}
use nemo_core.Plugin.{
  Plugin, unset, prepared, running, paused, Loader, load_plugin, load_plugins, StartAnswers,
  close_pipe_end, notify_plugins,
}
use nemo_core.Plugin.Laws.{running_only, notify_plugins_lem}
use nemo_core.Tests.Data.{request}

-- Every object opens, with all symbols.
abbrev pub loader : Loader
loader = record { dlopen = λ path. some 9; dlsym = λ h s. true }

abbrev pub entry : Plugin
entry = record { pi_hndl = 0; pi_pid = none; pi_pipe0 = 0; pi_pipe1 = 0; pi_state = unset }

abbrev paths : List Text
paths = (b'a' ∷ []) ∷ (b'b' ∷ []) ∷ []

abbrev loaded_two : List Plugin
loaded_two =
    record entry { pi_hndl = 9; pi_state = prepared }
    ∷ record entry { pi_hndl = 9; pi_state = prepared }
    ∷ []

load_two :
    load_plugins loader (replicate 32 entry) (map some paths ++ replicate 30 none) ≡ some loaded_two
unfolding load_plugins load_plugin
load_two = refl

-- Every call succeeds, and fork(2) gives the parent a process ID.
abbrev pub start : StartAnswers
start = record {
  pipe = record { pipe = some (4, 5); getfl = true; setfl = true };
  fork = some 100;
  close = true;
  init = true;
  reads = [];
}

abbrev pub busy : Plugin
busy = record { pi_hndl = 9; pi_pid = some 100; pi_pipe0 = 4; pi_pipe1 = 5; pi_state = running }

abbrev idle : Plugin
idle = record busy { pi_pid = some 101; pi_state = paused }

notify_plugins_lem_example :
    notify_plugins (busy ∷ idle ∷ []) request
    ≡ map (λ pi. record { fd = close_pipe_end pi; pl = request }) (running_only (busy ∷ idle ∷ []))
notify_plugins_lem_example = notify_plugins_lem (busy ∷ idle ∷ []) request (refl, (refl, tt))
