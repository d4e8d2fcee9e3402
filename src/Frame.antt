-- ===== src/Frame.antt =====
-- lib/baileys_ex/connection/frame.ex: transport frames behind a 24-bit length.
pub mod Laws
mod Tests
use baileys_ex.Base.{
  ℕ, zero, suc, ◌+◌, ◌*◌, ◌/◌, ◌%◌, List, [], ◌∷◌, ◌++◌, Option, none, some, leb, if◌then◌else◌,
  length, take, drop,
}
use baileys_ex.Base.Text.{Bytes}
use mathlib.Core.List.{reverse}

abbrev pub max_payload_size : ℕ
max_payload_size = 16777215

-- `<<size::unsigned-big-integer-size(24)>>`.
abbrev pub big_24 : ℕ → Bytes
big_24 size = size / 65536 % 256 ∷ size / 256 % 256 ∷ size % 256 ∷ []

-- `none` is the error `:frame_too_large`.
unfoldable pub encode : Bytes → Option Bytes
encode payload =
    if leb (length payload) max_payload_size
    then some (big_24 (length payload) ++ payload)
    else none

-- The first payload of a buffer that holds a whole frame, and what follows it.
unfoldable pub split_frame : Bytes → Option (Bytes × Bytes)
split_frame (b1 ∷ b2 ∷ b3 ∷ rest) =
    let payload_size = b1 * 65536 + b2 * 256 + b3 in
    if leb payload_size (length rest)
    then some (take payload_size rest, drop payload_size rest)
    else none
split_frame _ = none

-- The first argument is fuel, and `none` says that it ran out: one unit for each frame, of which none
-- is shorter than three bytes.
unfoldable pub decode_loop : ℕ → Bytes → List Bytes → Option (List Bytes × Bytes)
decode_loop zero buffer frames = none
decode_loop (suc f) buffer frames = elim (split_frame buffer) [
  | none ↦ some (reverse frames, buffer)
  | some (payload, tail) ↦ decode_loop f tail (payload ∷ frames)
]

unfoldable pub decode_stream : Bytes → Option (List Bytes × Bytes)
decode_stream buffer = decode_loop (suc (length buffer)) buffer []
