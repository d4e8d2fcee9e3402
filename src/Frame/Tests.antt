-- ===== src/Frame/Tests.antt =====
-- Transport frames at concrete streams.
use baileys_ex.Base.{[], ◌∷◌, ◌++◌, ◌≡◌, refl, some, none, List}
use baileys_ex.Base.Text.{Bytes}
use baileys_ex.Frame.{encode, split_frame, decode_loop, decode_stream}
use baileys_ex.Frame.Laws.{decode_stream-append, decode_stream-encode, decode_stream-total}

-- A whole frame of two bytes and the start of the next one.
abbrev first_chunk : Bytes
first_chunk = 0 ∷ 0 ∷ 2 ∷ 7 ∷ 8 ∷ 0 ∷ 0 ∷ []

abbrev second_chunk : Bytes
second_chunk = 1 ∷ 9 ∷ []

first_decoded : decode_stream first_chunk ≡ some ((7 ∷ 8 ∷ []) ∷ [], 0 ∷ 0 ∷ [])
unfolding decode_stream decode_loop split_frame
first_decoded = refl

second_decoded : decode_stream ((0 ∷ 0 ∷ []) ++ second_chunk) ≡ some ((9 ∷ []) ∷ [], [])
unfolding decode_stream decode_loop split_frame
second_decoded = refl

decode_stream-append_example :
    decode_stream (first_chunk ++ second_chunk) ≡ some (((7 ∷ 8 ∷ []) ∷ []) ++ ((9 ∷ []) ∷ []), [])
decode_stream-append_example =
    decode_stream-append first_chunk second_chunk (0 ∷ 0 ∷ []) [] ((7 ∷ 8 ∷ []) ∷ [])
      ((9 ∷ []) ∷ []) first_decoded second_decoded

encoded : encode (4 ∷ 5 ∷ []) ≡ some (0 ∷ 0 ∷ 2 ∷ 4 ∷ 5 ∷ [])
unfolding encode
encoded = refl

decode_stream-encode_example :
    decode_stream ((0 ∷ 0 ∷ 2 ∷ 4 ∷ 5 ∷ []) ++ first_chunk)
    ≡ some ((4 ∷ 5 ∷ []) ∷ (7 ∷ 8 ∷ []) ∷ [], 0 ∷ 0 ∷ [])
decode_stream-encode_example =
    decode_stream-encode (4 ∷ 5 ∷ []) (0 ∷ 0 ∷ 2 ∷ 4 ∷ 5 ∷ []) first_chunk (0 ∷ 0 ∷ [])
      ((7 ∷ 8 ∷ []) ∷ []) encoded first_decoded

decode_stream-total_example :
    (payloads : List Bytes) × (rest : Bytes) × (decode_stream first_chunk ≡ some (payloads, rest))
    × (split_frame rest ≡ none)
decode_stream-total_example = decode_stream-total first_chunk
