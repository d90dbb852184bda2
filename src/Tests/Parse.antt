-- ===== src/Tests/Parse.antt =====
-- src/common/parse.c at concrete inputs.
use nemo_core.Prelude.{
  ℕ, ◌+◌, ◌-◌, ◌*◌, ◌^◌, ◌≡◌, ◌↔◌, refl, Bool, true, false, ◌&&◌, some, [], ◌∷◌, length, leb, ◌==◌,
  if◌then◌else◌, arith,
}
use nemo_core.Word.{u32}
use nemo_core.Parse.{Text, Libc, scale, parse_time_unit, parse_scalar, scale, is_count}
use nemo_core.Parse.Laws.{IsProduct, parse_scalar_iff, parse_time_unit_pos}

-- The digits at the start of a text, on top of a value, and what is behind them.
abbrev read_digits : Text → ℕ → record { value : ℕ; rest : Text }
read_digits [] acc = record { value = acc; rest = [] }
read_digits (c ∷ cs) acc =
    let more = read_digits cs (acc * 10 + (c - b'0')) in
    if leb b'0' c && leb c b'9' then more else record { value = acc; rest = c ∷ cs }

abbrev same_text : Text → Text → Bool
same_text [] [] = true
same_text (a ∷ as') (b ∷ bs) = a == b && same_text as' bs
same_text _ _ = false

-- A C library that reads decimal numbers, and a unit that is in lower case.
abbrev pub libc : Libc
libc = record {
  strtoumax = λ s. record { value = (read_digits s 0).value; failed = false };
  sscanf = λ s. record {
    count = some 2;
    num = (read_digits s 0).value;
    unit = (read_digits s 0).rest;
    adv = length s;
  };
  strcaseeq = same_text;
}

abbrev pub ninety_seconds : Text
ninety_seconds = b'9' ∷ b'0' ∷ b's' ∷ []

parse_scalar_iff_example :
    (parse_scalar libc ninety_seconds 1 (2 ^ 64 - 1) (parse_time_unit libc) ≡ some 90000000000) ↔ (
      (is_count (libc.sscanf ninety_seconds).count 0 ≡ false)
      × (is_count (libc.sscanf ninety_seconds).count 1 ≡ false)
      × ((libc.sscanf ninety_seconds).adv ≡ u32 (length ninety_seconds))
      × ((mult : ℕ) × (parse_time_unit libc (libc.sscanf ninety_seconds).unit ≡ some mult)
          × IsProduct (libc.sscanf ninety_seconds).num mult 1 (2 ^ 64 - 1) 90000000000))
parse_scalar_iff_example =
    parse_scalar_iff libc ninety_seconds 1 (2 ^ 64 - 1) (parse_time_unit libc) 90000000000
      (omega arith) (parse_time_unit_pos libc (libc.sscanf ninety_seconds).unit)

ninety_seconds_value :
    parse_scalar libc ninety_seconds 1 (2 ^ 64 - 1) (parse_time_unit libc) ≡ some 90000000000
unfolding parse_scalar parse_time_unit scale
ninety_seconds_value = refl
