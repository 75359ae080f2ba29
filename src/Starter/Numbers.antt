-- ===== src/Starter/Numbers.antt =====
-- Numbers on the command lines of boilerplate/: the conversions of the C library as it documents
-- them, and the four functions that wrap `strtoul` in the workloads.
use os_jackfruit.Prelude.{
  ℕ, ◌-◌, ◌*◌, ◌%◌, ◌^◌, Bool, true, false, not, ◌||◌, [], ◌∷◌, CString, if◌then◌else◌, ltb, ◌==◌,
}
use os_jackfruit.Cli.{is_digit, is_space, digits_value}

-- What a conversion gives: the value, the text after the number, whether there was a number at
-- all (otherwise the text is the whole text), and whether its value is out of range.
pub record Converted : Type 0 where
  pub value : ℕ
  pub negative : Bool
  pub rest : CString
  pub found : Bool
  pub out_of_range : Bool

unfoldable pub skip_spaces : CString → CString
skip_spaces [] = []
skip_spaces (c ∷ cs) = let rest = skip_spaces cs in if is_space c then rest else c ∷ cs

unfoldable pub after_digits : CString → CString
after_digits [] = []
after_digits (c ∷ cs) = let rest = after_digits cs in if is_digit c then rest else c ∷ cs

abbrev pub starts_with_digit : CString → Bool
starts_with_digit [] = false
starts_with_digit (c ∷ cs) = is_digit c

-- The sign, if there is one, and what follows.
abbrev pub split_sign : CString → Bool × CString
split_sign [] = (false, [])
split_sign (c ∷ cs) =
    if c == b'-' then (true, cs) else if c == b'+' then (false, cs) else (false, c ∷ cs)

-- The magnitude of the number at the start of a text; above the limit it is out of range.
unfoldable pub scan_number : ℕ → CString → Converted
scan_number limit text =
    let (negative, digits) = split_sign (skip_spaces text) in
    let value = digits_value 0 digits in
    if not (starts_with_digit digits)
    then record { value = 0; negative = false; rest = text; found = false; out_of_range = false }
    else record {
      value = value;
      negative = negative;
      rest = after_digits digits;
      found = true;
      out_of_range = ltb limit value;
    }

-- strtoul: a value out of range becomes ULONG_MAX, a negative one wraps around.
unfoldable pub strtoul : CString → ℕ × Converted
strtoul text =
    let c = scan_number (2 ^ 64 - 1) text in
    (
      if c.out_of_range
          then 2 ^ 64 - 1
          else if c.negative
          then (2 ^ 64 - c.value) % 2 ^ 64
          else c.value,
      c,
    )

abbrev pub is_empty : CString → Bool
is_empty [] = true
is_empty (c ∷ cs) = false

-- `parse_seconds`, `parse_size_mb` and `parse_uint`, whose result has 32, 64 and 32 bits.
unfoldable pub parse_positive : ℕ → CString → ℕ → ℕ
parse_positive bits arg fallback =
    let (value, c) = strtoul arg in
    if is_empty arg || (not (is_empty c.rest) || value == 0) then fallback else value % 2 ^ bits

-- In microseconds, as a useconds_t of 32 bits; the product is computed with 64.
unfoldable pub parse_sleep_ms : CString → ℕ → ℕ
parse_sleep_ms arg fallback =
    let (value, c) = strtoul arg in
    if is_empty arg || not (is_empty c.rest) then fallback else value * 1000 % 2 ^ 64 % 2 ^ 32
