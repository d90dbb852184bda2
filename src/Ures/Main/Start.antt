-- ===== src/Ures/Main/Start.antt =====
-- What the calls before the responder's loop lead to.
use nemo_core.Prelude.{
  ℕ, suc, ◌≡◌, refl, ◌⊎◌, inl, inr, Bool, true, Option, none, some, List, [], ◌∷◌, arith,
  Option-cases,
}
use nemo_core.Parse.{Text}
use nemo_core.Signal.{
  Signal, sigint, sigterm, sigusr1, sighup, sigchld, no_flags, install_signal_handlers,
}
use nemo_core.Plugin.{
  Plugin, Loader, StartAnswers, Started, failed, exited, started, load_plugin, load_from,
  load_plugins, count_from, count_plugins, start_plugins,
}

-- With a first path, loading fails or gives a first plugin.
pub load_from_first :
    (l : Loader) (left : ℕ) (pis : List Plugin) (path : Text) (so : List (Option Text))
    → (load_from l (suc left) pis (some path ∷ so) ≡ none)
      ⊎ ((pi : Plugin) × (rest : List Plugin) × (load_from l (suc left) pis (some path ∷ so)
            ≡ some (pi ∷ rest)))
unfolding load_from
load_from_first l left [] path so = inl refl
load_from_first l left (pi ∷ pis) path so = elim (Option-cases (load_plugin l pi path)) [
  | inl e ↦ inl (rw (load_from, e) refl)
  | inr (pi', e) ↦ elim (Option-cases (load_from l left pis so)) [
    | inl q ↦ inl (rw (load_from, e, q) refl)
    | inr (rest, q) ↦ inr (pi', rest, rw (load_from, e, q) refl)
  ]
]

pub load_plugins_first :
    (l : Loader) (pis : List Plugin) (path : Text) (so : List (Option Text))
    → (load_plugins l pis (some path ∷ so) ≡ none)
      ⊎ ((pi : Plugin) × (rest : List Plugin) × (load_plugins l pis (some path ∷ so)
            ≡ some (pi ∷ rest)))
unfolding load_plugins count_plugins count_from
load_plugins_first l pis path so = load_from_first l (count_from 31 so) pis path so

pub load_plugins-none :
    (l : Loader) (pis : List Plugin) (so : List (Option Text))
    → load_plugins l pis (none ∷ so) ≡ some []
unfolding load_plugins load_from count_plugins count_from
load_plugins-none l pis so = refl

pub start_plugins-none : (answers : List StartAnswers) → start_plugins answers [] ≡ started []
unfolding start_plugins
start_plugins-none [] = refl
start_plugins-none (a ∷ answers) = refl

-- No signal is refused.
pub install_lem :
    (sigaction : Signal → Bool)
    → ((s : Signal) → sigaction s ≡ true)
    → ((install_signal_handlers sigaction).ok ≡ true)
      × ((install_signal_handlers sigaction).flags ≡ no_flags)
unfolding install_signal_handlers
install_lem sigaction h = ground (arith, h sigint, h sigterm, h sigusr1, h sighup, h sigchld)

pub Started-cases :
    (x : Started) → (x ≡ failed) ⊎ ((x ≡ exited) ⊎ ((pis : List Plugin) × (x ≡ started pis)))
Started-cases failed = inl refl
Started-cases exited = inr (inl refl)
Started-cases (started pis) = inr (inr (pis, refl))
