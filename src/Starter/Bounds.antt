-- ===== src/Starter/Bounds.antt =====
-- What the options of boilerplate/engine.c and the arguments of the workloads let through.
use os_jackfruit.Prelude.{
  subst, sym, ℕ, suc, ◌+◌, ◌-◌, ◌*◌, ◌/◌, ◌%◌, ◌^◌, ◌<◌, ◌≤◌, ◌≡◌, ◌∙◌, true, false, List, [], ◌∷◌,
  ◌++◌, none, some, pos, CString, decimal, decimal_digits, if◌then◌else◌, ltb, Bool-cases,
  Option-cases, arith, refl, inl, inr, ap,
}
use os_jackfruit.Cli.{is_digit, digits_value}
use os_jackfruit.Cli.Number.{AllDigits, digits-AllDigits, digits_value-decimal}
use os_jackfruit.Starter.Numbers.{
  Converted, skip_spaces, after_digits, split_sign, scan_number, strtoul, parse_positive,
}
use os_jackfruit.Starter.Options.{
  ControlRequest, parse_mib_flag, parse_nice, is_nice, set_option, parse_optional_flags,
}

after_digits-AllDigits : (xs : CString) → AllDigits xs → after_digits xs ≡ []
unfolding after_digits
after_digits-AllDigits [] a = refl
after_digits-AllDigits (c ∷ cs) a = ground (arith, after_digits-AllDigits cs a.1)

abbrev plain : ℕ → Converted
plain n = record { value = n; negative = false; rest = []; found = true; out_of_range = false }

split_digits :
    (c : ℕ) (cs : CString) → is_digit c ≡ true → split_sign (skip_spaces (c ∷ cs)) ≡ (false, c ∷ cs)
unfolding skip_spaces
split_digits c cs d = ground arith

scan_digits :
    (limit c : ℕ) (cs : CString)
    → AllDigits (c ∷ cs)
    → digits_value 0 (c ∷ cs) ≤ limit
    → scan_number limit (c ∷ cs) ≡ plain (digits_value 0 (c ∷ cs))
unfolding scan_number
scan_digits limit c cs a h =
    rw (scan_number, split_digits c cs a.0, after_digits-AllDigits (c ∷ cs) a) (ground arith)

-- The digits of a number begin with one.
first_digit : (fuel n : ℕ) → (c : ℕ) × (cs : CString) × (decimal_digits (suc fuel) n ≡ c ∷ cs)
unfolding decimal_digits
first_digit fuel n = elim (Bool-cases (ltb n 10)) [
  | inl small ↦ (48 + n, [], ground arith)
  | inr large ↦ more (decimal_digits fuel (n / 10)) large
]
  where
    more :
        (front : CString)
        → ltb n 10 ≡ false
        → (c : ℕ) × (cs : CString) × ((if ltb n 10
              then (48 + n) ∷ []
              else front ++ (48 + n % 10) ∷ [])
            ≡ c ∷ cs)
    more [] large = (48 + n % 10, [], rw large refl)
    more (c ∷ cs) large = (c, cs ++ (48 + n % 10) ∷ [], rw large refl)

scan_decimal :
    (limit n : ℕ)
    → n ≤ limit
    → n < 2 ^ 64
    → (c : ℕ) × (cs : CString) × (decimal (pos n) ≡ c ∷ cs) × (scan_number limit (c ∷ cs) ≡ plain n)
unfolding decimal
scan_decimal limit n h small =
    let (c, cs, e) = first_digit 19 n in
    let value : digits_value 0 (c ∷ cs) ≡ n =
      ap (digits_value 0) (sym e) ∙ digits_value-decimal 20 n (omega arith) in
    (
      c,
      cs,
      e,
      scan_digits limit c cs (subst AllDigits e (digits-AllDigits 20 n)) (omega (arith, value))
          ∙ ap plain value,
    )

small_mod : (n m : ℕ) → n < m → n % m ≡ n
small_mod n m h = grind arith

-- A positive number that fits the result is read back from its decimal text, whatever the
-- fallback is.
pub parse_positive-decimal :
    (bits n fallback : ℕ)
    → 0 < n
    → n < 2 ^ 64
    → n < 2 ^ bits
    → parse_positive bits (decimal (pos n)) fallback ≡ n
unfolding parse_positive strtoul
parse_positive-decimal bits n fallback positive small fits =
    let (c, cs, text, scanned) = scan_decimal (2 ^ 64 - 1) n (omega arith) small in
    rw (text, parse_positive, scanned) (ground (arith, small_mod n (2 ^ bits) fits))

-- A number of MiB in decimal is accepted exactly when its number of bytes is below 2 ^ 64, and
-- then gives that number of bytes, with no wrap-around.
pub parse_mib_flag-decimal :
    (n : ℕ)
    → n < 2 ^ 64
    → parse_mib_flag (decimal (pos n))
      ≡ (if ltb (n * 2 ^ 20) (2 ^ 64) then some (n * 2 ^ 20) else none)
unfolding parse_mib_flag strtoul
parse_mib_flag-decimal n small =
    let (c, cs, text, scanned) = scan_decimal (2 ^ 64 - 1) n (omega arith) small in
    rw (text, parse_mib_flag, scanned) (ground arith)

set_option-nice :
    (flag value : CString) (req next : ControlRequest)
    → set_option flag value req ≡ some next
    → is_nice req.nice_value ≡ true
    → is_nice next.nice_value ≡ true
unfolding set_option parse_nice
set_option-nice flag value req next h nice = ground arith

set_option-bytes :
    (flag value : CString) (req next : ControlRequest)
    → set_option flag value req ≡ some next
    → req.soft_limit_bytes < 2 ^ 64
    → req.hard_limit_bytes < 2 ^ 64
    → (next.soft_limit_bytes < 2 ^ 64) × (next.hard_limit_bytes < 2 ^ 64)
unfolding set_option parse_mib_flag
set_option-bytes flag value req next h soft hard = ground arith

set_option-names :
    (flag value : CString) (req next : ControlRequest)
    → set_option flag value req ≡ some next
    → (next.container_id ≡ req.container_id)
      × (next.rootfs ≡ req.rootfs)
      × (next.command ≡ req.command)
unfolding set_option
set_option-names flag value req next h = ground arith

-- Whatever the options, those that are accepted leave a niceness from -20 to 19, limits of 64
-- bits with the soft one at most the hard one, and the names of the request as they were.
pub parse_optional_flags_bounds :
    (args : List CString) (req out : ControlRequest)
    → parse_optional_flags args req ≡ some out
    → is_nice req.nice_value ≡ true
    → req.soft_limit_bytes < 2 ^ 64
    → req.hard_limit_bytes < 2 ^ 64
    → (is_nice out.nice_value ≡ true)
      × (out.soft_limit_bytes ≤ out.hard_limit_bytes)
      × (out.hard_limit_bytes < 2 ^ 64)
      × (out.container_id ≡ req.container_id)
      × (out.rootfs ≡ req.rootfs)
      × (out.command ≡ req.command)
unfolding parse_optional_flags
parse_optional_flags_bounds [] req out h nice soft hard = ground arith
parse_optional_flags_bounds (flag ∷ []) req out h nice soft hard = cc
parse_optional_flags_bounds (flag ∷ value ∷ rest) req out h nice soft hard =
    elim (Option-cases (set_option flag value req)) [
      | inl refused ↦ absurd (ground arith)
      | inr (next, set) ↦
          let bytes = set_option-bytes flag value req next set soft hard in
          ground (
            arith,
            set_option-names flag value req next set,
            parse_optional_flags_bounds rest next out (ground arith)
                (set_option-nice flag value req next set nice) bytes.0 bytes.1,
          )
    ]
