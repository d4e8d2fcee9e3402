-- ===== src/Base/Decimal.antt =====
-- Decimal integers, as `Integer.to_string`, `String.to_integer` and `Integer.parse` read and
-- write them.
use Prim.Native.Nat.{ℕ, zero, suc, ◌+◌, ◌-◌, ◌*◌, ◌/◌, ◌%◌, ◌<◌}
use mathlib.Core.Path.{◌≡◌, refl, ◌∙◌, ap}
use mathlib.Core.Bool.{Bool, true, false, ◌&&◌}
use mathlib.Core.List.{[], ◌∷◌}
use mathlib.Core.Option
use mathlib.Core.Option.{Option, none, some}
use mathlib.Core.Logic.{inl, inr}
use native.Mathlib.Omega.{arith}
use baileys_ex.Base.Tests.{◌==◌, leb, ltb, if◌then◌else◌, Bool-cases}
use baileys_ex.Base.Text.{Text, lacks}

-- `negsuc n` is -(n + 1).
pub data ℤ : Type 0 where
  pos : ℕ → ℤ
  negsuc : ℕ → ℤ

unfoldable pub is_digit : ℕ → Bool
is_digit c = leb b'0' c && leb c b'9'

-- The digits of `n` before `acc`; the first argument is fuel, one unit for each digit.
unfoldable pub digits_onto : ℕ → ℕ → Text → Text
digits_onto zero n acc = acc
digits_onto (suc f) n acc =
    let c = b'0' + n % 10 in
    let rest = digits_onto f (n / 10) (c ∷ acc) in if ltb n 10 then c ∷ acc else rest

unfoldable pub print_nat : ℕ → Text
unfolding digits_onto
print_nat n = digits_onto (suc n) n []

unfoldable pub read_digits : ℕ → Text → Option ℕ
unfolding is_digit
read_digits v [] = some v
read_digits v (c ∷ cs) = if is_digit c then read_digits (v * 10 + (c - b'0')) cs else none

-- At least one digit, and nothing else.
unfoldable pub parse_nat : Text → Option ℕ
unfolding read_digits
parse_nat [] = none
parse_nat (c ∷ cs) = read_digits 0 (c ∷ cs)

negate : ℕ → ℤ
negate zero = pos 0
negate (suc n) = negsuc n

-- An integer with an optional sign; `none` is an ArgumentError of `String.to_integer`, and a
-- result other than `{int, ""}` of `Integer.parse`.
unfoldable pub parse_int : Text → Option ℤ
unfolding parse_nat negate
parse_int [] = none
parse_int (c ∷ cs) =
    if c == b'-'
    then Option.map negate (parse_nat cs)
    else if c == b'+'
    then Option.map pos (parse_nat cs)
    else Option.map pos (parse_nat (c ∷ cs))

unfoldable pub print_int : ℤ → Text
unfolding print_nat
print_int (pos n) = print_nat n
print_int (negsuc n) = b'-' ∷ print_nat (suc n)

pub digit-is_digit : (n : ℕ) → is_digit (b'0' + n % 10) ≡ true
unfolding is_digit
digit-is_digit n = ground arith

pub read_digits-digits_onto :
    (f n : ℕ) (acc : Text) → n < f → read_digits 0 (digits_onto f n acc) ≡ read_digits n acc
unfolding read_digits digits_onto
read_digits-digits_onto zero n acc h = absurd (omega arith)
read_digits-digits_onto (suc f) n acc h = elim (Bool-cases (ltb n 10)) [
  | inl small ↦ rw (small, digit-is_digit n) (ap (λ v. read_digits v acc) (ground arith))
  | inr large ↦
      rw (large, read_digits-digits_onto f (n / 10) ((b'0' + n % 10) ∷ acc) (ground arith))
        (rw (digit-is_digit n) (ap (λ v. read_digits v acc) (ground arith)))
]

-- The first character is a digit.
abbrev pub StartsWithDigit : Text → Type 0
StartsWithDigit [] = ⊥
StartsWithDigit (c ∷ cs) = is_digit c ≡ true

pub digits_onto-starts : (f n : ℕ) (acc : Text) → n < f → StartsWithDigit (digits_onto f n acc)
unfolding digits_onto
digits_onto-starts zero n acc h = absurd (omega arith)
digits_onto-starts (suc f) n acc h = elim (Bool-cases (ltb n 10)) [
  | inl small ↦ rw small (digit-is_digit n)
  | inr large ↦ rw large (digits_onto-starts f (n / 10) ((b'0' + n % 10) ∷ acc) (ground arith))
]

parse_int_digits : (t : Text) → StartsWithDigit t → parse_int t ≡ Option.map pos (read_digits 0 t)
unfolding parse_int is_digit
parse_int_digits [] h = absurd h
parse_int_digits (c ∷ cs) h = ground arith

-- A printed number is read back.
pub parse_int-print_nat : (n : ℕ) → parse_int (print_nat n) ≡ some (pos n)
unfolding print_nat read_digits
parse_int-print_nat n =
    parse_int_digits _ (digits_onto-starts (suc n) n [] (omega arith))
    ∙ ap (Option.map pos) (read_digits-digits_onto (suc n) n [] (omega arith))

parse_nat_digits : (t : Text) → StartsWithDigit t → parse_nat t ≡ read_digits 0 t
unfolding parse_nat
parse_nat_digits [] h = absurd h
parse_nat_digits (c ∷ cs) h = refl

pub parse_nat-print_nat : (n : ℕ) → parse_nat (print_nat n) ≡ some n
unfolding print_nat read_digits
parse_nat-print_nat n =
    parse_nat_digits _ (digits_onto-starts (suc n) n [] (omega arith))
    ∙ read_digits-digits_onto (suc n) n [] (omega arith)

pub parse_int-negative : (n : ℕ) → parse_int (b'-' ∷ print_nat (suc n)) ≡ some (negsuc n)
unfolding parse_int negate
parse_int-negative n = ap (Option.map negate) (parse_nat-print_nat (suc n))

lacks-digits_onto :
    (sep f n : ℕ) (acc : Text)
    → is_digit sep ≡ false
    → lacks sep acc ≡ true
    → lacks sep (digits_onto f n acc) ≡ true
unfolding digits_onto lacks is_digit
lacks-digits_onto sep zero n acc h k = k
lacks-digits_onto sep (suc f) n acc h k =
    ground (arith, lacks-digits_onto sep f (n / 10) ((b'0' + n % 10) ∷ acc))

-- A printed number holds no separator.
pub lacks-print_nat : (sep n : ℕ) → is_digit sep ≡ false → lacks sep (print_nat n) ≡ true
unfolding print_nat lacks
lacks-print_nat sep n h = lacks-digits_onto sep (suc n) n [] h refl
