-- ===== src/Tests/Gathered.antt =====
-- src/ureq/target.c with names of several addresses.
use nemo_core.Prelude.{
  ℕ, ◌≡◌, refl, inl, true, none, some, [], ◌∷◌, ◌++◌, map, length, replicate, arith,
}
use nemo_core.Ureq.Config.{Config, set_defaults}
use nemo_core.Ureq.Target.{
  zero_target, fault, Resolver, read_target4, resolve_name, parse_target_string, normalize_targets,
  load_targets,
}
use nemo_core.Ureq.Target.Gathered.{
  parsed, sorted, count_after, gather, last_count, swept, AreParsed, load_targets_lem,
}
use nemo_core.Ureq.Target.Overfilled.{Overfills, load_targets_overfilled}
use nemo_core.Ureq.Target.Safe.{IsSafe}
use nemo_core.Ureq.Target.Modest.{IsModest, load_targets_modest}
use nemo_core.Tests.Target.{first_name, sorting, length-sort}

-- Each name has three addresses, two of them equal.
abbrev names : Resolver
names = record {
  pton4 = λ t. none;
  pton6 = λ t. none;
  getaddrinfo4 = λ t. some (9 ∷ 8 ∷ 9 ∷ []);
  getaddrinfo6 = λ t. none;
}

abbrev two_names : Config
two_names = record set_defaults {
  cf_tg = map some (first_name ∷ first_name ∷ []) ++ (none ∷ replicate 61 none);
}

two_names-AreParsed : AreParsed names sorting two_names (first_name ∷ first_name ∷ []) 0 0
unfolding parse_target_string resolve_name read_target4 normalize_targets set_defaults
two_names-AreParsed = (refl, omega arith, (refl, omega arith, tt))

two_names-length :
    ◌≡◌ {A = ℕ} (length (gather names sorting two_names (first_name ∷ first_name ∷ []) 0 0)) 4
unfolding parse_target_string resolve_name read_target4 normalize_targets set_defaults
two_names-length = refl

load_targets_lem_example :
    load_targets names sorting two_names 0 0 (replicate 64 zero_target)
    ≡ swept names sorting two_names
        (replicate 64 zero_target)
        (gather names sorting two_names (first_name ∷ first_name ∷ []) 0 0)
        (last_count names sorting two_names (first_name ∷ first_name ∷ []) 0 0 0)
unfolding set_defaults
load_targets_lem_example =
    load_targets_lem names sorting two_names length-sort (first_name ∷ first_name ∷ [])
      (replicate 61 none) 0 0 (replicate 64 zero_target) refl (omega arith) (omega arith)
      two_names-AreParsed (omega (arith, two_names-length)) (omega arith) (omega arith)

names-IsModest : IsModest 3 names
names-IsModest = (λ name l h. ground arith, λ name l h. ground arith)

load_targets_modest_example :
    IsSafe 64 (load_targets names sorting two_names 0 0 (replicate 64 zero_target))
unfolding set_defaults
load_targets_modest_example =
    load_targets_modest names sorting two_names length-sort 3 names-IsModest (omega arith) 0 0
      (replicate 64 zero_target) tt (omega arith) (omega arith) (omega arith) (omega arith)

-- The same names with a limit of three targets.
abbrev three_targets : Config
three_targets = record two_names { cf_ntg = 3 }

first-AreParsed : AreParsed names sorting three_targets (first_name ∷ []) 0 0
unfolding parse_target_string resolve_name read_target4 normalize_targets set_defaults
first-AreParsed = (refl, omega arith, tt)

abbrev behind : ℕ
behind = count_after names sorting three_targets (first_name ∷ []) 0 0

second-ok : (parsed names sorting three_targets first_name 1 behind).ok ≡ true
unfolding parse_target_string resolve_name read_target4 normalize_targets set_defaults
second-ok = refl

first-length : ◌≡◌ {A = ℕ} (length (gather names sorting three_targets (first_name ∷ []) 0 0)) 2
unfolding parse_target_string resolve_name read_target4 normalize_targets set_defaults
first-length = refl

second-Overfills :
    Overfills names sorting three_targets length-sort 3
      (length (gather names sorting three_targets (first_name ∷ []) 0 0))
      (sorted names sorting three_targets first_name 1 behind).nlen
unfolding parse_target_string resolve_name read_target4 normalize_targets set_defaults
second-Overfills = inl refl

load_targets_overfilled_example :
    load_targets names sorting three_targets 0 0 (replicate 3 zero_target) ≡ fault
unfolding set_defaults
load_targets_overfilled_example =
    load_targets_overfilled names sorting three_targets length-sort (first_name ∷ []) first_name
      (none ∷ replicate 61 none) 0 0 (replicate 3 zero_target) refl (omega arith) first-AreParsed
      (omega (arith, first-length)) refl (omega arith) second-ok second-Overfills
