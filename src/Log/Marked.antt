-- ===== src/Log/Marked.antt =====
-- src/common/log.c: what highlighting means, as a plain function on texts, and what the searches of
-- highlight say of it.
use nemo_core.Prelude.{
  ℕ, zero, suc, ◌≤◌, ◌<◌, ◌≡◌, refl, ap, Bool, true, false, Option, none, some, [], ◌∷◌, ◌++◌,
  length, take, replicate, All, ◌==◌, if◌then◌else◌, arith, Bool-cases, inl, inr,
}
use nemo_core.Parse.{Text}
use nemo_core.Log.{c_string, split_percent, split_conversion, is_conversion, bold, reset}

-- The highlighted text, without a bound: in a substitution when the flag is set. A substitution is
-- in bold from its percent sign to the first conversion letter.
unfoldable pub marked : Bool → Text → Text
marked false [] = []
marked true [] = reset
marked false (c ∷ cs) = if c == b'%' then bold ++ (c ∷ marked true cs) else c ∷ marked false cs
marked true (c ∷ cs) =
    if is_conversion c then c ∷ (reset ++ marked false cs) else c ∷ marked true cs

-- What a search for a percent sign says of the marked text.
abbrev pub Opens : Text → Option (Text × Text) → Type 0
Opens s none = marked false s ≡ s
Opens s (some (before, pcent)) =
    (marked false s ≡ before ++ (bold ++ marked true pcent)) × (length pcent ≤ length s)

Opens-step :
    (c : ℕ) (cs : Text) (found : Option (Text × Text))
    → Opens cs found
    → Opens (c ∷ cs) (
        if c == b'%'
        then some ([], c ∷ cs)
        else elim found [ none ↦ none | some (before, rest) ↦ some (c ∷ before, rest) ])
unfolding marked
Opens-step c cs none e = ground arith
Opens-step c cs (some (before, pcent)) (e, h) = ground arith

pub opens : (s : Text) → Opens s (split_percent s)
unfolding split_percent marked
opens [] = refl
opens (c ∷ cs) = Opens-step c cs (split_percent cs) (opens cs)

-- What a search for a conversion letter says of it.
abbrev pub Closes : Text → Option (Text × Text) → Type 0
Closes s none = marked true s ≡ s ++ reset
Closes s (some (conversion, rest)) =
    (marked true s ≡ conversion ++ (reset ++ marked false rest)) × (length rest < length s)

Closes-step :
    (c : ℕ) (cs : Text) (found : Option (Text × Text))
    → Closes cs found
    → Closes (c ∷ cs) (
        if is_conversion c
        then some (c ∷ [], cs)
        else elim found [ none ↦ none | some (before, rest) ↦ some (c ∷ before, rest) ])
unfolding marked
Closes-step c cs none e = elim (Bool-cases (is_conversion c)) [
  | inl k ↦ rw k (rw k refl, omega arith)
  | inr k ↦ rw k (rw k (ap (◌∷◌ c) e))
]
Closes-step c cs (some (conversion, rest)) (e, h) = elim (Bool-cases (is_conversion c)) [
  | inl k ↦ rw k (rw k refl, omega arith)
  | inr k ↦ rw k (rw k (ap (◌∷◌ c) e), omega arith)
]

pub closes : (s : Text) → Closes s (split_conversion s)
unfolding split_conversion marked
closes [] = refl
closes (c ∷ cs) = Closes-step c cs (split_conversion cs) (closes cs)

abbrev pub IsText : Text → Type 0
IsText s = All (λ c. (c == 0) ≡ false) s

pub marked-IsText : (sub : Bool) (s : Text) → IsText s → IsText (marked sub s)
unfolding marked
marked-IsText false [] h = tt
marked-IsText true [] h = (refl, (refl, (refl, (refl, tt))))
marked-IsText false (c ∷ cs) (n, h) = elim (Bool-cases (c == b'%')) [
  | inl k ↦ rw k (refl, (refl, (refl, (refl, (n, marked-IsText true cs h)))))
  | inr k ↦ rw k (n, marked-IsText false cs h)
]
marked-IsText true (c ∷ cs) (n, h) = elim (Bool-cases (is_conversion c)) [
  | inl k ↦ rw k (n, (refl, (refl, (refl, (refl, marked-IsText false cs h)))))
  | inr k ↦ rw k (n, marked-IsText true cs h)
]

pub take-IsText : (n : ℕ) (s : Text) → IsText s → IsText (take n s)
take-IsText zero s h = tt
take-IsText (suc n) [] h = tt
take-IsText (suc n) (c ∷ cs) (k, h) = (k, take-IsText n cs h)

pub append-IsText : (s t : Text) → IsText s → IsText t → IsText (s ++ t)
append-IsText [] t h k = k
append-IsText (c ∷ cs) t (n, h) k = (n, append-IsText cs t h k)

pub c_string_zeros : (s : Text) (n : ℕ) → IsText s → c_string (s ++ replicate (suc n) 0) ≡ s
unfolding c_string
c_string_zeros [] n h = refl
c_string_zeros (c ∷ cs) n (k, h) = rw k (ap (◌∷◌ c) (c_string_zeros cs n h))
