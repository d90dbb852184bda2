-- ===== src/Ureq/Target/Cases.antt =====
-- What a call of `load_targets` comes to.
use nemo_core.Prelude.{ℕ, ◌≡◌, refl, ◌⊎◌, inl, inr, List, length}
use nemo_core.Ureq.Target.{Target, Loaded, loaded, refused, fault}

pub Loaded-cases :
    (x : Loaded) → ((p : List Target × ℕ) × (x ≡ loaded p.0 p.1)) ⊎ ((x ≡ refused) ⊎ (x ≡ fault))
Loaded-cases (loaded tg ntg) = inl ((tg, ntg), refl)
Loaded-cases refused = inr (inl refl)
Loaded-cases fault = inr (inr refl)

-- Loading keeps the size of the array, and leaves the arrays only if `Faulty`.
abbrev pub Settles : Type 0 → ℕ → Loaded → Type 0
Settles Faulty size (loaded tg n) = length tg ≡ size
Settles Faulty size refused = Unit
Settles Faulty size fault = Faulty
