-- ===== src/Ureq/Target/Gathered.antt =====
-- What `load_targets` loads, against a plain description.
use nemo_core.Prelude.{
  ℕ, zero, suc, ◌+◌, ◌^◌, ◌≤◌, ◌<◌, ◌≡◌, refl, sym, ap, ap₂, ◌∙◌, true, false, Option, none, some,
  List, [], ◌∷◌, ◌++◌, map, length, length-append, length-take, length-drop, take, drop, ltb, leb,
  arith,
}
use mathlib.Core.List.{append_assoc, append-nil}
use nemo_core.Word.{u64}
use nemo_core.Parse.{Text}
use nemo_core.Ureq.Config.{Config}
use nemo_core.Ureq.Target.{
  Target, Resolver, Sorting, Parsed, Loaded, loaded, Normalized, parse_target_string,
  normalize_targets, load_loop, load_targets,
}
use nemo_core.Ureq.Target.Numeric.{load_step}
use nemo_core.Ureq.Target.Within.{
  KeepsLength, parse_target_string-IsWithin, normalize_targets-IsWithin,
}

module _ {ℓ} {A : Type ℓ} where
  take-append : (xs ys : List A) → take (length xs) (xs ++ ys) ≡ xs
  take-append [] ys = refl
  take-append (x ∷ xs) ys = ap (◌∷◌ x) (take-append xs ys)

  drop-append : (xs ys : List A) (n : ℕ) → drop (length xs + n) (xs ++ ys) ≡ drop n ys
  drop-append [] ys n = let e : 0 + n ≡ n = omega arith in rw e refl
  drop-append (x ∷ xs) ys n =
      let e : suc (length xs) + n ≡ suc (length xs + n) = omega arith in rw e (drop-append xs ys n)

  drop_nil : (n : ℕ) → drop {A = A} n [] ≡ []
  drop_nil zero = refl
  drop_nil (suc n) = refl

  drop-drop : (n m : ℕ) (xs : List A) → drop n (drop m xs) ≡ drop (m + n) xs
  drop-drop n zero xs = let e : 0 + n ≡ n = omega arith in rw e refl
  drop-drop n (suc m) [] = drop_nil n ∙ sym (drop_nil (suc m + n))
  drop-drop n (suc m) (x ∷ xs) =
      let e : suc m + n ≡ suc (m + n) = omega arith in rw e (drop-drop n m xs)

module _ (r : Resolver) (sorting : Sorting) (cf : Config) where
  -- One target string: its own targets, sorted and each once.
  abbrev pub parsed : Text → ℕ → ℕ → Parsed
  parsed t idx tcnt1 = parse_target_string r tcnt1 32 t (some idx) cf

  abbrev pub sorted : Text → ℕ → ℕ → Normalized
  sorted t idx tcnt1 = normalize_targets sorting (parsed t idx tcnt1).tg (parsed t idx tcnt1).tcnt

  abbrev pub batch : Text → ℕ → ℕ → List Target
  batch t idx tcnt1 = take (sorted t idx tcnt1).nlen (sorted t idx tcnt1).tg

  -- The targets of all strings, one after another.
  abbrev pub gather : List Text → ℕ → ℕ → List Target
  gather [] idx tcnt1 = []
  gather (t ∷ ts) idx tcnt1 = batch t idx tcnt1 ++ gather ts (idx + 1) (parsed t idx tcnt1).tcnt

  -- How many the last string gives.
  abbrev pub last_count : List Text → ℕ → ℕ → ℕ → ℕ
  last_count [] idx tcnt1 tcnt2 = tcnt2
  last_count (t ∷ ts) idx tcnt1 tcnt2 =
      last_count ts (idx + 1) (parsed t idx tcnt1).tcnt (sorted t idx tcnt1).nlen

  -- The index and the first local behind these strings.
  abbrev pub index_after : List Text → ℕ → ℕ
  index_after [] idx = idx
  index_after (t ∷ ts) idx = index_after ts (idx + 1)

  abbrev pub count_after : List Text → ℕ → ℕ → ℕ
  count_after [] idx tcnt1 = tcnt1
  count_after (t ∷ ts) idx tcnt1 = count_after ts (idx + 1) (parsed t idx tcnt1).tcnt

  -- Each string is accepted and gives a target.
  abbrev pub AreParsed : List Text → ℕ → ℕ → Type 0
  AreParsed [] idx tcnt1 = Unit
  AreParsed (t ∷ ts) idx tcnt1 =
      ((parsed t idx tcnt1).ok ≡ true)
      × (1 ≤ (sorted t idx tcnt1).nlen)
      × AreParsed ts (idx + 1) (parsed t idx tcnt1).tcnt

  -- An array that begins with these targets, of which the first `last` are swept.
  abbrev pub swept : List Target → List Target → ℕ → Loaded
  swept tg all last =
      let n = normalize_targets sorting (all ++ drop (length all) tg) last in loaded n.tg n.nlen

  module _ (keeps : KeepsLength sorting) where
    pub length-batch :
        (t : Text) (idx tcnt1 : ℕ)
        → tcnt1 ≤ 32
        → ((parsed t idx tcnt1).tcnt ≤ 32)
          × ((sorted t idx tcnt1).nlen ≤ 32)
          × (length (batch t idx tcnt1) ≡ (sorted t idx tcnt1).nlen)
    length-batch t idx tcnt1 low =
        let (a, b) =
          parse_target_string-IsWithin r cf tcnt1 32 32 t (some idx) low (omega arith)
            (omega arith) in
        let (c, d) =
          normalize_targets-IsWithin sorting keeps (parsed t idx tcnt1).tg (parsed t idx tcnt1).tcnt
            32 a b in
        (
          b,
          omega arith,
          omega (arith, length-take (sorted t idx tcnt1).nlen (sorted t idx tcnt1).tg),
        )

    -- One string more behind the targets so far.
    copied :
        (acc tg src : List Target) (n : ℕ)
        → length (take n src) ≡ n
        → take (length acc) (acc ++ drop (length acc) tg)
            ++ (take n src ++ drop (length acc + n) (acc ++ drop (length acc) tg))
          ≡ (acc ++ take n src) ++ drop (length (acc ++ take n src)) tg
    copied acc tg src n same =
        let size : length (acc ++ take n src) ≡ length acc + n =
          omega (arith, length-append acc (take n src)) in
        rw
          (
            take-append acc (drop (length acc) tg),
            drop-append acc (drop (length acc) tg) n,
            drop-drop n (length acc) tg,
            size,
          )
          (sym (append_assoc acc (take n src) (drop (length acc + n) tg)))

    pub whole_array :
        (acc tg : List Target)
        → length acc ≤ length tg
        → length (acc ++ drop (length acc) tg) ≡ length tg
    whole_array acc tg h =
        omega (arith, length-append acc (drop (length acc) tg), length-drop (length acc) tg)

    -- The loop over strings that fit, before what follows them.
    pub load_loop-prefix :
        (ts : List Text) (rest : List (Option Text)) (idx : ℕ) (acc tg : List Target)
        (tcnt1 tcnt2 : ℕ)
        → tcnt1 ≤ 32
        → AreParsed ts idx tcnt1
        → length acc + length (gather ts idx tcnt1) ≤ cf.cf_ntg
        → cf.cf_ntg ≤ length tg
        → cf.cf_ntg < 2 ^ 63
        → (let all = acc ++ gather ts idx tcnt1 in
            load_loop r sorting cf
              (map some ts ++ rest)
              idx
              (acc ++ drop (length acc) tg)
              (length acc)
              tcnt1
              tcnt2
            ≡ load_loop r sorting cf rest
                (index_after ts idx)
                (all ++ drop (length all) tg)
                (length all)
                (count_after ts idx tcnt1)
                (last_count ts idx tcnt1 tcnt2))
    load_loop-prefix [] rest idx acc tg t1 t2 low fine room size small = rw (append-nil acc) refl
    load_loop-prefix (t ∷ ts) rest idx acc tg t1 t2 low (fine, some_one, later) room size small =
        let p = parsed t idx t1 in
        let n = sorted t idx t1 in
        let (few, least, same) = length-batch t idx t1 low in
        let acc' = acc ++ batch t idx t1 in
        let tail = gather ts (idx + 1) p.tcnt in
        let more = length-append (batch t idx t1) tail in
        let longer = length-append acc (batch t idx t1) in
        let whole = whole_array acc tg (omega arith) in
        let sum = u64 (n.nlen + length acc + 18446744073709551615) in
        let within : ltb 32 p.tcnt ≡ false = ground arith in
        let under : ltb cf.cf_ntg sum ≡ false = ground arith in
        let fits : leb (length acc + n.nlen) (length (acc ++ drop (length acc) tg)) ≡ true =
          ground arith in
        load_step r sorting cf t (map some ts ++ rest) idx (acc ++ drop (length acc) tg)
          (length acc) t1 t2 p n refl refl
        ∙ rw (fine, within, under, fits)
            (ap₂ (λ a k. load_loop r sorting cf (map some ts ++ rest) (idx + 1) a k p.tcnt n.nlen)
                (copied acc tg n.tg n.nlen same) (omega arith)
              ∙ load_loop-prefix ts rest (idx + 1) acc' tg p.tcnt n.nlen few later (omega arith)
                  size small)
        ∙ ap
            (λ l.
              load_loop r sorting cf rest (index_after ts (idx + 1)) (l ++ drop (length l) tg)
                (length l) (count_after ts (idx + 1) p.tcnt)
                (last_count ts (idx + 1) p.tcnt n.nlen))
            (append_assoc acc (batch t idx t1) tail)

    -- What the locals hold behind the strings is within the arrays.
    pub locals-within :
        (ts : List Text) (idx tcnt1 tcnt2 size : ℕ)
        → tcnt1 ≤ 32
        → tcnt2 ≤ size
        → length (gather ts idx tcnt1) ≤ size
        → (count_after ts idx tcnt1 ≤ 32) × (last_count ts idx tcnt1 tcnt2 ≤ size)
    locals-within [] idx t1 t2 size low low2 room = (low, low2)
    locals-within (t ∷ ts) idx t1 t2 size low low2 room =
        let p = parsed t idx t1 in
        let (few, least, same) = length-batch t idx t1 low in
        let more = length-append (batch t idx t1) (gather ts (idx + 1) p.tcnt) in
        locals-within ts (idx + 1) p.tcnt (sorted t idx t1).nlen size few (omega arith)
          (omega arith)

    -- When each target string before NULL is accepted and gives a target, all of them together at most
    -- as many as the limit, which is within the size of the array, `load_targets` stores the targets
    -- of the strings one after another, each string's own sorted and without duplicates, leaves the
    -- rest of the array, and then removes duplicates from the first of them only, as many as the last
    -- string gave. The locals hold no more than the arrays do, the limit is below 2^63, and qsort(3)
    -- keeps the length of what it sorts.
    pub load_targets_lem :
        (ts : List Text) (rest : List (Option Text)) (garbage1 garbage2 : ℕ) (tg : List Target)
        → cf.cf_tg ≡ map some ts ++ (none ∷ rest)
        → garbage1 ≤ 32
        → garbage2 ≤ length tg
        → AreParsed ts 0 garbage1
        → length (gather ts 0 garbage1) ≤ cf.cf_ntg
        → cf.cf_ntg ≤ length tg
        → cf.cf_ntg < 2 ^ 63
        → load_targets r sorting cf garbage1 garbage2 tg
          ≡ swept tg (gather ts 0 garbage1) (last_count ts 0 garbage1 garbage2)
    unfolding load_targets load_loop
    load_targets_lem ts rest garbage1 garbage2 tg e low low2 fine room size small =
        let all = gather ts 0 garbage1 in
        let (few, last) = locals-within ts 0 garbage1 garbage2 (length tg) low low2 (omega arith) in
        let whole = whole_array all tg (omega arith) in
        let fits : leb (last_count ts 0 garbage1 garbage2) (length (all ++ drop (length all) tg))
            ≡ true =
          ground arith in
        ap (λ l. load_loop r sorting cf l 0 tg 0 garbage1 garbage2) e
        ∙ load_loop-prefix ts (none ∷ rest) 0 [] tg garbage1 garbage2 low fine (omega arith) size
            small
        ∙ rw fits refl
