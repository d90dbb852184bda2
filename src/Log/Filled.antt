-- ===== src/Log/Filled.antt =====
-- The buffer that highlighting fills: a text cut to fit, with zeros behind it.
use nemo_core.Prelude.{
  ℕ, zero, suc, ◌+◌, ◌-◌, ◌^◌, ◌≤◌, ◌<◌, ◌≡◌, refl, sym, ap, ap₂, ◌∙◌, List, [], ◌∷◌, ◌++◌, length,
  take, drop, replicate, length-append, ltb, arith, Bool-cases, inl, inr,
}
use Prim.Native.Nat.{min}
use mathlib.Core.List.{append-nil}
use nemo_core.Parse.{Text}
use nemo_core.Log.{Buffer, append}

module _ {ℓ} {A : Type ℓ} where
  take-append_lem :
      (n : ℕ) (xs ys : List A) → take n (xs ++ ys) ≡ take n xs ++ take (n - length xs) ys
  take-append_lem zero [] ys = refl
  take-append_lem (suc n) [] ys =
      let e : suc n - 0 ≡ suc n = omega arith in sym (ap (λ k. take k ys) e)
  take-append_lem zero (x ∷ xs) ys =
      let e : zero - length (x ∷ xs) ≡ 0 = omega arith in sym (ap (λ k. take k ys) e)
  take-append_lem (suc n) (x ∷ xs) ys =
      let e : suc n - length (x ∷ xs) ≡ n - length xs = omega arith in
      ap (◌∷◌ x) (take-append_lem n xs ys ∙ ap (λ k. take n xs ++ take k ys) (sym e))

  pub take_all : (n : ℕ) (xs : List A) → length xs ≤ n → take n xs ≡ xs
  take_all zero [] h = refl
  take_all zero (x ∷ xs) h = absurd (omega arith)
  take_all (suc n) [] h = refl
  take_all (suc n) (x ∷ xs) h = ap (◌∷◌ x) (take_all n xs (omega arith))

  drop-append_lem :
      (n : ℕ) (xs ys : List A) → length xs ≤ n → drop n (xs ++ ys) ≡ drop (n - length xs) ys
  drop-append_lem zero [] ys h = refl
  drop-append_lem (suc n) [] ys h =
      let e : suc n - 0 ≡ suc n = omega arith in sym (ap (λ k. drop k ys) e)
  drop-append_lem zero (x ∷ xs) ys h = absurd (omega arith)
  drop-append_lem (suc n) (x ∷ xs) ys h =
      let e : suc n - length (x ∷ xs) ≡ n - length xs = omega arith in
      drop-append_lem n xs ys (omega arith) ∙ ap (λ k. drop k ys) (sym e)

  drop-replicate : (n m : ℕ) (a : A) → drop n (replicate m a) ≡ replicate (m - n) a
  drop-replicate zero m a = let e : m - 0 ≡ m = omega arith in sym (ap (λ k. replicate k a) e)
  drop-replicate (suc n) zero a =
      let e : 0 - suc n ≡ 0 = omega arith in sym (ap (λ k. replicate k a) e)
  drop-replicate (suc n) (suc m) a =
      let e : suc m - suc n ≡ m - n = omega arith in
      drop-replicate n m a ∙ ap (λ k. replicate k a) (sym e)

  take_cut : (n : ℕ) (xs : List A) → take (min n (length xs)) xs ≡ take n xs
  take_cut n [] =
      let e : min n 0 ≡ 0 = omega arith in ap (λ k. take k []) e ∙ sym (take_all n [] (omega arith))
  take_cut zero (x ∷ xs) =
      let e : min 0 (length (x ∷ xs)) ≡ 0 = omega arith in ap (λ k. take k (x ∷ xs)) e
  take_cut (suc n) (x ∷ xs) =
      let e : min (suc n) (suc (length xs)) ≡ suc (min n (length xs)) = omega arith in
      ap (λ k. take k (x ∷ xs)) e ∙ ap (◌∷◌ x) (take_cut n xs)

-- Bytes written behind a text, over the zeros there.
splice :
    (n m : ℕ) (t inp : Text)
    → take (length t) (t ++ replicate m 0)
        ++ (take (min n (length inp)) inp
            ++ drop (length t + min n (length inp)) (t ++ replicate m 0))
      ≡ (t ++ take n inp) ++ replicate (m - min n (length inp)) 0
splice n m [] inp =
    let e : length {A = ℕ} [] + min n (length inp) ≡ min n (length inp) = omega arith in
    ap₂ ◌++◌ (take_cut n inp)
      (ap (λ k. drop k (replicate m 0)) e ∙ drop-replicate (min n (length inp)) m 0)
splice n m (c ∷ t) inp =
    let e : length (c ∷ t) + min n (length inp) ≡ suc (length t + min n (length inp)) =
      omega arith in
    ap
      (λ k.
        take (length (c ∷ t)) ((c ∷ t) ++ replicate m 0)
        ++ (take (min n (length inp)) inp ++ drop k ((c ∷ t) ++ replicate m 0)))
      e
    ∙ ap (◌∷◌ c) (splice n m t inp)

-- A text cut to `max` bytes, at the start of a buffer of `len` bytes that is zero behind it.
abbrev pub filled : ℕ → ℕ → Text → Buffer
filled len max t = record {
  out = take max t ++ replicate (len - min max (length t)) 0;
  cur = min max (length t);
}

append_full : (b : Buffer) (inp : Text) (max : ℕ) → b.cur ≡ max → append b inp max ≡ b
unfolding append
append_full b inp max e = ground arith

-- The buffer after a call that has room.
append_room :
    (b : Buffer) (inp : Text) (max : ℕ)
    → b.cur < max
    → max < 2 ^ 64
    → let act = min (max - b.cur) (length inp) in
      append b inp max ≡ record {
        out = take b.cur b.out ++ (take act inp ++ drop (b.cur + act) b.out);
        cur = b.cur + act;
      }
unfolding append
append_room b inp max h small = ground arith

abbrev pub buffer : List ℕ → ℕ → Buffer
buffer out cur = record { out = out; cur = cur }

-- A text that is longer than the buffer has no room for more.
filled_cut :
    (len max : ℕ) (t inp : Text) → max ≤ length t → filled len max (t ++ inp) ≡ filled len max t
filled_cut len max t inp h =
    let none_left : max - length t ≡ 0 = omega arith in
    let same : min max (length (t ++ inp)) ≡ min max (length t) =
      omega (arith, length-append t inp) in
    let text : take max (t ++ inp) ≡ take max t =
      take-append_lem max t inp
      ∙ ap (λ k. take max t ++ take k inp) none_left
      ∙ append-nil (take max t) in
    ap₂ (λ s k. buffer (s ++ replicate (len - k) 0) k) text same

module _ (len max : ℕ) (room : max ≤ len) (small : len < 2 ^ 64) where
  pub append-filled : (t inp : Text) → append (filled len max t) inp max ≡ filled len max (t ++ inp)
  append-filled t inp = elim (Bool-cases (ltb (length t) max)) [
    | inr h ↦
        let long : max ≤ length t = ground arith in
        append_full (filled len max t) inp max (omega arith) ∙ sym (filled_cut len max t inp long)
    | inl h ↦
        let short : length t < max = ground arith in
        let cur : min max (length t) ≡ length t = omega arith in
        let whole : take max t ≡ t = take_all max t (omega arith) in
        let act = min (max - length t) (length inp) in
        let start : filled len max t ≡ buffer (t ++ replicate (len - length t) 0) (length t) =
          ap₂ (λ s k. buffer (s ++ replicate (len - k) 0) k) whole cur in
        let now : min max (length (t ++ inp)) ≡ length t + act =
          omega (arith, length-append t inp) in
        let zeros : len - length t - act ≡ len - min max (length (t ++ inp)) =
          omega (arith, length-append t inp) in
        let text : t ++ take (max - length t) inp ≡ take max (t ++ inp) =
          ap (λ s. s ++ take (max - length t) inp) (sym whole) ∙ sym (take-append_lem max t inp) in
        ap (λ b. append b inp max) start
        ∙ append_room (buffer (t ++ replicate (len - length t) 0) (length t)) inp max short
            (omega arith)
        ∙ ap (λ s. buffer s (length t + act)) (splice (max - length t) (len - length t) t inp)
        ∙ ap₂ buffer (ap₂ (λ s k. s ++ replicate k 0) text zeros) (sym now)
  ]
