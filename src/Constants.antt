-- ===== src/Constants.antt =====
-- lib/baileys_ex/protocol/constants.ex: the token dictionaries of the wire format, the lookup of a
-- token and of an index, and the domain types of the JID servers.
mod SingleByte
mod DoubleByte0
mod DoubleByte1
mod DoubleByte2
mod DoubleByte3
pub mod Domain
pub mod Tokens
mod Tests
unfoldable pub use SingleByte.{single_byte_tokens}
use DoubleByte0.{double_byte_tokens_0}
use DoubleByte1.{double_byte_tokens_1}
use DoubleByte2.{double_byte_tokens_2}
use DoubleByte3.{double_byte_tokens_3}
use mathlib.Core.Option
use baileys_ex.Base.{
  ℕ, suc, List, [], ◌∷◌, Option, none, some, ltb, if◌then◌else◌, length, get_elem?,
}
use baileys_ex.Base.Text.{Text, codes, text_eq}
use baileys_ex.Base.Result.{Result, ok, err, no_clause, invalid_double_token}

unfoldable pub single_byte_token_count : ℕ
unfolding single_byte_tokens
single_byte_token_count = length single_byte_tokens

-- `nil` outside the table.
unfoldable pub single_byte_token : ℕ → Option Text
single_byte_token index = get_elem? single_byte_tokens index

unfoldable pub double_byte_tokens : List (List Text)
unfolding double_byte_tokens_0 double_byte_tokens_1 double_byte_tokens_2 double_byte_tokens_3
double_byte_tokens =
    double_byte_tokens_0 ∷ double_byte_tokens_1 ∷ double_byte_tokens_2 ∷ double_byte_tokens_3 ∷ []

abbrev pub found_token : Option Text → Result Text
found_token none = err invalid_double_token
found_token (some token) = ok token

-- Outside the four dictionaries no clause matches; outside a dictionary the function raises.
unfoldable pub double_byte_token : ℕ → ℕ → Result Text
double_byte_token dict index = elim (get_elem? double_byte_tokens dict) [
  | none ↦ err no_clause
  | some dict_tuple ↦ found_token (get_elem? dict_tuple index)
]

-- An entry of the token map.
pub data Token : Type 0 where
  single : ℕ → Token
  double : ℕ → ℕ → Token

-- The index that `Map.new` keeps for a token: the last one at which it stands.
unfoldable pub last_index : Text → List Text → Option ℕ
last_index t [] = none
last_index t (x ∷ xs) = elim (last_index t xs) [
  | some i ↦ some (suc i)
  | none ↦ if text_eq x t then some 0 else none
]

unfoldable pub last_entry : Text → List (List Text) → Option (ℕ × ℕ)
last_entry t [] = none
last_entry t (d ∷ ds) = elim (last_entry t ds) [
  | some (dict, index) ↦ some (suc dict, index)
  | none ↦ Option.map (λ index. (0, index)) (last_index t d)
]

double_entry : Text → Option Token
unfolding last_entry
double_entry t = Option.map (λ (dict, index). double dict index) (last_entry t double_byte_tokens)

-- The single-byte entries win in `Map.merge`; the empty token has none.
unfoldable pub lookup_token : Text → Option Token
unfolding double_entry
lookup_token [] = double_entry []
lookup_token (c ∷ cs) = elim (last_index (c ∷ cs) single_byte_tokens) [
  | some index ↦ some (single index)
  | none ↦ double_entry (c ∷ cs)
]

abbrev pub s_whatsapp_net : Text
s_whatsapp_net = codes "s.whatsapp.net"

abbrev pub g_us : Text
g_us = codes "g.us"

abbrev pub broadcast : Text
broadcast = codes "broadcast"

abbrev pub lid : Text
lid = codes "lid"

abbrev pub newsletter : Text
newsletter = codes "newsletter"
