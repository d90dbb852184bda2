-- ===== src/Plugin/Shown.antt =====
-- src/common/plugin.c, log_plugins and report_error: what the log is given. The name that a plugin
-- has in its object, and the text of dlerror(3), are arguments.
use nemo_core.Prelude.{
  ℕ, ◌+◌, ◌<◌, Option, List, [], ◌∷◌, ◌++◌, length, length-append, length-take, codes, take, arith,
}
use nemo_core.Parse.{Text}
use nemo_core.Plugin.{Plugin}

-- The number of plugins, and then one entry for each (`none` is a process ID of -1).
pub data Entry : Type 0 where
  number_of_plugins : ℕ → Entry
  has_process_id : Text → Option ℕ → Entry

abbrev process_entries : (Plugin → Text) → List Plugin → List Entry
process_entries pi_name [] = []
process_entries pi_name (pi ∷ pis) =
    has_process_id (pi_name pi) pi.pi_pid ∷ process_entries pi_name pis

unfoldable pub log_plugins : (Plugin → Text) → List Plugin → List Entry
log_plugins pi_name pis = number_of_plugins (length pis) ∷ process_entries pi_name pis

-- The format that is given to the log, as the array holds it before its NUL.
unfoldable pub report_error : Text → Text
report_error dlerror = take 64 (codes "unable to open %s:") ++ take 63 dlerror

-- The text and its NUL fit the array of 128 bytes, however long the text of dlerror(3) is.
length-report_error : (dlerror : Text) → length (report_error dlerror) + 1 < 128
unfolding report_error
length-report_error dlerror = omega (
  arith,
  length-append (take 64 (codes "unable to open %s:")) (take 63 dlerror),
  length-take 63 dlerror,
)
