-- ===== src/Cli/Number.antt =====
-- `atoi` reads back what "%d" prints.
use os_jackfruit.Prelude.{
  ℕ, zero, suc, ◌+◌, ◌-◌, ◌*◌, ◌/◌, ◌%◌, ◌^◌, ◌<◌, ◌≡◌, true, [], ◌∷◌, ◌++◌, pos, negsuc, CString,
  decimal, decimal_digits, ltb, arith, refl, sym, ap, ◌∙◌, Bool-cases, inl, inr,
}
use os_jackfruit.Cli.{is_digit, digits_value, to_int, to_int_negated, signed_value, atoi}

abbrev pub AllDigits : CString → Type 0
AllDigits [] = Unit {0}
AllDigits (c ∷ cs) = (is_digit c ≡ true) × AllDigits cs

-- 10 ^ fuel
abbrev pub pow10 : ℕ → ℕ
pow10 zero = 1
pow10 (suc fuel) = 10 * pow10 fuel

AllDigits-snoc : (xs : CString) (d : ℕ) → AllDigits xs → d < 10 → AllDigits (xs ++ (48 + d) ∷ [])
AllDigits-snoc [] d a h = (ground arith, tt)
AllDigits-snoc (x ∷ xs) d a h = (a.0, AllDigits-snoc xs d a.1 h)

pub digits-AllDigits : (fuel n : ℕ) → AllDigits (decimal_digits fuel n)
unfolding decimal_digits
digits-AllDigits zero n = tt
digits-AllDigits (suc fuel) n = elim (Bool-cases (ltb n 10)) [
  | inl small ↦ rw small (AllDigits-snoc [] n tt (ground arith))
  | inr large ↦ rw large (
      AllDigits-snoc (decimal_digits fuel (n / 10)) (n % 10) (digits-AllDigits fuel (n / 10))
        (omega arith))
]

digits_value-snoc :
    (acc d : ℕ) (xs : CString)
    → AllDigits xs
    → d < 10
    → digits_value acc (xs ++ (48 + d) ∷ []) ≡ digits_value acc xs * 10 + d
unfolding digits_value
digits_value-snoc acc d [] a h = ground arith
digits_value-snoc acc d (x ∷ xs) a h =
    ground (arith, digits_value-snoc (acc * 10 + (x - b'0')) d xs a.1 h)

digits_value_none : (n : ℕ) → n ≡ 0 → digits_value 0 [] ≡ n
unfolding digits_value
digits_value_none n h = sym h

pub digits_value-decimal :
    (fuel n : ℕ) → n < pow10 fuel → digits_value 0 (decimal_digits fuel n) ≡ n
unfolding decimal_digits
digits_value-decimal zero n h = digits_value_none n (omega arith)
digits_value-decimal (suc fuel) n h = elim (Bool-cases (ltb n 10)) [
  | inl small ↦
      rw small
        (digits_value-snoc 0 n [] tt (ground arith) ∙ omega (arith, digits_value_none 0 refl))
  | inr large ↦ rw large (
      digits_value-snoc 0 (n % 10) (decimal_digits fuel (n / 10)) (digits-AllDigits fuel (n / 10))
        (omega arith)
      ∙ omega (arith, digits_value-decimal fuel (n / 10) (omega arith)))
]

atoi_digits : (xs : CString) → AllDigits xs → atoi xs ≡ to_int (digits_value 0 xs)
unfolding atoi signed_value
atoi_digits [] a = ap to_int (sym (digits_value_none 0 refl))
atoi_digits (c ∷ cs) a = ground arith

atoi_minus : (xs : CString) → atoi (b'-' ∷ xs) ≡ to_int_negated (digits_value 0 xs)
unfolding atoi signed_value
atoi_minus xs = refl

-- Every int is read back from its decimal text.
pub atoi-decimal :
    (n : ℕ) → n < 2 ^ 31 → (atoi (decimal (pos n)) ≡ pos n) × (atoi (decimal (negsuc n)) ≡ negsuc n)
unfolding decimal to_int to_int_negated
atoi-decimal n h = (
  atoi_digits (decimal_digits 20 n) (digits-AllDigits 20 n)
      ∙ ap to_int (digits_value-decimal 20 n (omega arith))
      ∙ ground arith,
  atoi_minus (decimal_digits 20 (suc n))
      ∙ ap to_int_negated (digits_value-decimal 20 (suc n) (omega arith))
      ∙ ground arith,
)
