-- ===== src/Prelude/Text.antt =====
-- C strings: the bytes before the terminating NUL, with the parts of the C library that the
-- program uses on them (`strcmp`, `snprintf` with "%s" and "%d").
use Prim.Native.Nat.{ℕ, zero, suc, ◌+◌, ◌-◌, ◌/◌, ◌%◌, ◌<◌}
use Prim.Native.Char.{code}
use Prim.Native.String.{String}
use mathlib.Core.Path.{◌≡◌, refl}
use mathlib.Core.Logic.{◌↔◌}
use mathlib.Core.Bool.{Bool, true, false, ◌&&◌}
use mathlib.Core.List.{List, [], ◌∷◌, ◌++◌}
use native.Mathlib.Omega.{arith}
use os_jackfruit.Prelude.Tests.{ltb, ◌==◌, if◌then◌else◌}
use os_jackfruit.Prelude.Lists.{length, take, length-take}
use os_jackfruit.Prelude.Int.{ℤ, pos, negsuc}

abbrev pub CString : Type 0
CString = List ℕ

-- The code points of a literal: its bytes, since the program's literals are ASCII.
abbrev pub codes : String → CString
codes String.[] = []
codes (String.◌∷◌ c s) = code c ∷ codes s

-- strcmp(a, b) == 0
unfoldable pub str_eq : CString → CString → Bool
str_eq [] [] = true
str_eq (x ∷ xs) (y ∷ ys) = (x == y) && str_eq xs ys
str_eq _ _ = false

str_eq_sound : (a b : CString) → str_eq a b ≡ true → a ≡ b
unfolding str_eq
str_eq_sound [] [] h = refl
str_eq_sound [] (y ∷ ys) h = ground arith
str_eq_sound (x ∷ xs) [] h = ground arith
str_eq_sound (x ∷ xs) (y ∷ ys) h = ground (arith, str_eq_sound xs ys)

str_eq_refl : (a : CString) → str_eq a a ≡ true
unfolding str_eq
str_eq_refl [] = refl
str_eq_refl (x ∷ xs) = ground (arith, str_eq_refl xs)

pub str_eq_iff : (a b : CString) → (str_eq a b ≡ true) ↔ (a ≡ b)
str_eq_iff a b = (str_eq_sound a b, λ e. ground (arith, str_eq_refl a))

-- What `snprintf(dst, size, ...)` leaves of a text, for a size above 0.
abbrev pub fit : ℕ → CString → CString
fit size text = take (size - 1) text

pub length-fit-lt : (size : ℕ) (text : CString) → 0 < size → length (fit size text) < size
length-fit-lt size text h = omega (arith, length-take (size - 1) text)

-- The decimal digits of a number, on fuel: 20 digits hold every 64-bit value.
unfoldable pub decimal_digits : ℕ → ℕ → CString
decimal_digits zero n = []
decimal_digits (suc fuel) n =
    let front = decimal_digits fuel (n / 10) in
    if ltb n 10 then (48 + n) ∷ [] else front ++ (48 + n % 10) ∷ []

-- "%d"
unfoldable pub decimal : ℤ → CString
decimal (pos n) = decimal_digits 20 n
decimal (negsuc n) = b'-' ∷ decimal_digits 20 (suc n)
