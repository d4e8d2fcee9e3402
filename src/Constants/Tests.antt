-- ===== src/Constants/Tests.antt =====
-- The token map at tokens of both dictionaries.
use baileys_ex.Base.{◌≡◌, refl, some}
use baileys_ex.Base.Text.{codes, text_eq}
use baileys_ex.Constants.{
  lookup_token, last_index, single_byte_tokens, double_byte_tokens, single, double,
}
use baileys_ex.Constants.Tokens.{TokenReads, lookup_token-TokenReads}

lookup_participant : lookup_token (codes "participant") ≡ some (single 5)
unfolding lookup_token last_index single_byte_tokens text_eq
lookup_participant = refl

lookup_active : lookup_token (codes "active") ≡ some (double 0 1)
unfolding lookup_token last_index single_byte_tokens double_byte_tokens text_eq
lookup_active = refl

lookup_token-TokenReads_example : TokenReads (double 0 1) (codes "active")
lookup_token-TokenReads_example =
    lookup_token-TokenReads (codes "active") (double 0 1) lookup_active
