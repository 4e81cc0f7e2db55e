-- ===== src/Base/Decimal.antt =====
-- Unsigned integers as text: Rust's `to_string` and `parse`, and that the one undoes the other.
use Prim.Native.Char.{Char, char, code, IsScalar}
use Prim.Native.String.{String}
use Prim.Native.Nat.{ℕ, zero, suc, ◌+◌, ◌-◌, ◌*◌, ◌/◌, ◌%◌, ◌≤◌, ◌<◌}
use mathlib.Core.Path.{◌≡◌, refl}
use mathlib.Core.Bool.{true, false}
use mathlib.Core.Option.{Option, none, some}
use native.Mathlib.Omega.{arith}
use egressy.Base.Tests.{ltb, leb, if◌then◌else◌}
use egressy.Base.Text.{is_char, is_empty, is_ascii_digit, any_char}

pub digit_fits : (n : ℕ) → IsScalar (48 + n % 10)
digit_fits n = ground arith

abbrev pub digit_char : ℕ → Char
digit_char n = char (48 + n % 10) (digit_fits n)

-- The digits of a number before a text; each round takes one digit off, so that more rounds than
-- the number are enough.
unfoldable pub digits : ℕ → ℕ → String → String
digits zero n rest = rest
digits (suc rounds) n rest = elim (ltb n 10) [
  | true ↦ String.◌∷◌ (digit_char n) rest
  | false ↦ digits rounds (n / 10) (String.◌∷◌ (digit_char n) rest)
]

-- `to_string` of an unsigned integer.
unfoldable pub decimal : ℕ → String
unfolding digits
decimal n = digits (suc n) n ""

unfoldable pub number_from : ℕ → String → Option ℕ
number_from v String.[] = some v
number_from v (String.◌∷◌ c s) =
    let rest = number_from (10 * v + (code c - 48)) s in if is_ascii_digit c then rest else none

abbrev pub at_most : ℕ → Option ℕ → Option ℕ
at_most maximum none = none
at_most maximum (some v) = if leb v maximum then some v else none

-- `parse` of an unsigned integer: a plus sign may come first, and at least one digit must come.
unfoldable pub parse_unsigned : ℕ → String → Option ℕ
unfolding number_from
parse_unsigned maximum String.[] = none
parse_unsigned maximum (String.◌∷◌ c s) =
    if is_char 43 c
    then (if is_empty s then none else at_most maximum (number_from 0 s))
    else at_most maximum (number_from 0 (String.◌∷◌ c s))

number_from-digits :
    (rounds n : ℕ) (rest : String)
    → n < rounds
    → number_from 0 (digits rounds n rest) ≡ number_from n rest
unfolding number_from digits
number_from-digits zero n rest lt = absurd (omega arith)
number_from-digits (suc rounds) n rest lt =
    ground (arith, number_from-digits rounds (n / 10) (String.◌∷◌ (digit_char n) rest))

-- A text that starts with a digit has no plus sign to drop.
parse_number_from :
    (maximum n : ℕ) (s : String)
    → is_empty s ≡ false
    → number_from 0 s ≡ some n
    → n ≤ maximum
    → parse_unsigned maximum s ≡ some n
unfolding parse_unsigned
parse_number_from maximum n String.[] full e le = cc
parse_number_from maximum n (String.◌∷◌ c s) full e le = ground (arith, e, le)

digits_full : (rounds n : ℕ) (rest : String) → n < rounds → is_empty (digits rounds n rest) ≡ false
unfolding digits
digits_full zero n rest lt = absurd (omega arith)
digits_full (suc rounds) n rest lt =
    ground (arith, digits_full rounds (n / 10) (String.◌∷◌ (digit_char n) rest))

-- A number is read back from its digits.
pub parse_unsigned-decimal :
    (maximum n : ℕ) → n ≤ maximum → parse_unsigned maximum (decimal n) ≡ some n
unfolding decimal number_from
parse_unsigned-decimal maximum n le =
    parse_number_from maximum n (digits (suc n) n "") (digits_full (suc n) n "" (omega arith))
      (number_from-digits (suc n) n "" (omega arith)) le

digits_free :
    (separator rounds n : ℕ) (rest : String)
    → separator < 48
    → any_char (is_char separator) (digits rounds n rest) ≡ any_char (is_char separator) rest
unfolding digits
digits_free separator zero n rest lt = refl
digits_free separator (suc rounds) n rest lt =
    ground (arith, digits_free separator rounds (n / 10) (String.◌∷◌ (digit_char n) rest))

-- A number's text has no character below the digits.
pub decimal_free :
    (separator n : ℕ) → separator < 48 → any_char (is_char separator) (decimal n) ≡ false
unfolding decimal
decimal_free separator n lt = digits_free separator (suc n) n "" lt

at_most-le : (maximum : ℕ) (o : Option ℕ) (n : ℕ) → at_most maximum o ≡ some n → n ≤ maximum
at_most-le maximum none n e = absurd (ground (arith, e))
at_most-le maximum (some v) n e = ground (arith, e)

-- What is read is not above the greatest value.
pub parse_unsigned-le :
    (maximum : ℕ) (s : String) (n : ℕ) → parse_unsigned maximum s ≡ some n → n ≤ maximum
unfolding parse_unsigned
parse_unsigned-le maximum String.[] n e = absurd (ground (arith, e))
parse_unsigned-le maximum (String.◌∷◌ c s) n e = ground (
  arith,
  at_most-le maximum (number_from 0 s) n,
  at_most-le maximum (number_from 0 (String.◌∷◌ c s)) n,
  e,
)
