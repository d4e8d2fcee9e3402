-- ===== src/SignalFixtures/ProtocolAddress.antt =====
-- dev/tools/generate_signal_fixtures.mts: `protocolAddress`. A number of JavaScript is exact up to
-- 2^53; the text that a larger one prints after `Number.parseInt` rounds it is a parameter.
use baileys_ex.Base.{
  ℕ, [], ◌∷◌, ◌++◌, Option, none, some, Bool, ◌&&◌, ◌||◌, leb, ltb, ◌==◌, if◌then◌else◌,
}
use baileys_ex.Base.Text.{Text, codes}
use baileys_ex.Base.Decimal.{ℤ, pos, negsuc, is_digit, parse_int, print_int}

-- A whole number of JavaScript: `NaN`, a number within 2^53, or any other by the text that it prints.
pub data Number : Type 0 where
  nan : Number
  exact : ℤ → Number
  rounded : Text → Number

pub record ProtocolAddress : Type 0 where
  pub id : Text
  pub device_id : Number

-- The parts before and behind the last separator; `none` is the index -1.
unfoldable pub split_last : ℕ → Text → Option (Text × Text)
split_last sep [] = none
split_last sep (c ∷ cs) = elim (split_last sep cs) [
  | none ↦ if c == sep then some ([], cs) else none
  | some (before, after) ↦ some (c ∷ before, after)
]

-- `slice(0, -1)`.
abbrev pub all_but_last : Text → Text
all_but_last [] = []
all_but_last (c ∷ []) = []
all_but_last (c ∷ d ∷ cs) = c ∷ all_but_last (d ∷ cs)

unfoldable pub digits_of : Text → Text
digits_of [] = []
digits_of (c ∷ cs) = let rest = digits_of cs in if is_digit c then c ∷ rest else []

-- White space that is one byte long.
unfoldable pub skip_space : Text → Text
skip_space [] = []
skip_space (c ∷ cs) =
    let rest = skip_space cs in if c == 32 || (leb 9 c && leb c 13) then rest else c ∷ cs

-- The longest text of a sign and digits at the start.
unfoldable pub signed_digits : Text → Text
unfolding digits_of
signed_digits [] = []
signed_digits (c ∷ cs) = if c == b'-' || c == b'+' then c ∷ digits_of cs else digits_of (c ∷ cs)

-- Whether every whole number up to this one is exact: it is at most 2^53.
unfoldable pub is_exact : ℤ → Bool
is_exact (pos n) = leb n 9007199254740992
is_exact (negsuc n) = ltb n 9007199254740992

-- The number of an integer; `beyond` gives what a number prints that is rounded.
abbrev pub number_of : (ℤ → Text) → Option ℤ → Number
number_of beyond none = nan
number_of beyond (some n) = if is_exact n then exact n else rounded (beyond n)

-- `Number.parseInt(text, 10)`.
unfoldable pub parse_decimal : (ℤ → Text) → Text → Number
unfolding skip_space signed_digits is_exact
parse_decimal beyond t = number_of beyond (parse_int (signed_digits (skip_space t)))

unfoldable pub protocol_address : (ℤ → Text) → Text → ProtocolAddress
unfolding split_last parse_decimal
protocol_address beyond address = elim (split_last b'.' address) [
  | none ↦ record { id = all_but_last address; device_id = parse_decimal beyond address }
  | some (id, device) ↦ record { id = id; device_id = parse_decimal beyond device }
]

abbrev device_text : Number → Text
device_text nan = codes "NaN"
device_text (exact device_id) = print_int device_id
device_text (rounded t) = t

unfoldable pub to_string : ProtocolAddress → Text
to_string address = address.id ++ b'.' ∷ device_text address.device_id
