-- ===== src/Frame/Laws.antt =====
-- Laws of transport frames: every stream is cut, chunks make no difference, and what was framed comes
-- back.
use mathlib.Core.List.{reverse, reverse-append}
use mathlib.Core.Path.{subst}
use baileys_ex.Base.{
  ℕ, zero, suc, ◌+◌, ◌*◌, ◌/◌, ◌%◌, ◌≤◌, ◌<◌, ◌≡◌, refl, sym, ap, ◌∙◌, inl, inr, List, [], ◌∷◌,
  ◌++◌, Option, none, some, leb, if◌then◌else◌, arith, length, length-append, length-drop, take,
  drop, take-append, drop-append, append_assoc, append-nil, Option-cases, le→leb, leb→le,
  Bool-cases, true,
}
use baileys_ex.Base.Text.{Bytes}
use baileys_ex.Frame.{big_24, encode, split_frame, decode_loop, decode_stream}

-- The frames at the front of a buffer, and the buffer that is left with no whole frame.
data Frames : Bytes → List Bytes → Bytes → Type 0 where
  stop : {b : Bytes} → split_frame b ≡ none → Frames b [] b
  next :
      {b payload tail rest : Bytes} {payloads : List Bytes}
      → split_frame b ≡ some (payload, tail)
      → Frames tail payloads rest
      → Frames b (payload ∷ payloads) rest

-- A frame is longer than what follows it by three bytes at least.
split_frame-length :
    (b payload tail : Bytes) → split_frame b ≡ some (payload, tail) → length tail < length b
unfolding split_frame
split_frame-length [] payload tail h = cc
split_frame-length (a ∷ []) payload tail h = cc
split_frame-length (a ∷ b ∷ []) payload tail h = cc
split_frame-length (a ∷ b ∷ c ∷ rest) payload tail h =
    elim (Bool-cases (leb (a * 65536 + b * 256 + c) (length rest))) [
      | inl e ↦
          let pieces : some
                (take (a * 65536 + b * 256 + c) rest, drop (a * 65536 + b * 256 + c) rest)
              ≡ some (payload, tail) =
            rw e at h in
          let same : drop (a * 65536 + b * 256 + c) rest ≡ tail = cc pieces in
          omega (arith, ap length same, length-drop (a * 65536 + b * 256 + c) rest)
      | inr e ↦ cc (rw e at h)
    ]

-- Every buffer has its frames.
Frames-exist :
    (f : ℕ) (b : Bytes)
    → length b < f
    → (payloads : List Bytes) × (rest : Bytes) × Frames b payloads rest
Frames-exist zero b h = absurd (omega arith)
Frames-exist (suc f) b h = elim (Option-cases (split_frame b)) [
  | inl e ↦ ([], b, stop e)
  | inr ((payload, tail), e) ↦
      let (payloads, rest, more) =
        Frames-exist f tail (omega (arith, split_frame-length b payload tail e)) in
      (payload ∷ payloads, rest, next e more)
]

reverse-cons :
    (payload : Bytes) (frames payloads : List Bytes)
    → reverse (payload ∷ frames) ++ payloads ≡ reverse frames ++ payload ∷ payloads
reverse-cons payload frames payloads =
    ap (λ l. l ++ payloads) (reverse-append (payload ∷ []) frames)
    ∙ append_assoc (reverse frames) (payload ∷ []) payloads

decode_loop-Frames :
    (f : ℕ) (b : Bytes) {rest : Bytes} {payloads : List Bytes} (frames : List Bytes)
    → Frames b payloads rest
    → length b < f
    → decode_loop f b frames ≡ some (reverse frames ++ payloads, rest)
unfolding decode_loop
decode_loop-Frames zero b frames h e = absurd (omega arith)
decode_loop-Frames (suc f) b frames (stop s) e = rw (s, decode_loop, append-nil) refl
decode_loop-Frames (suc f) b {rest} frames (next {payload = payload} {tail = tail} s more) e =
    rw (s, decode_loop)
      (decode_loop-Frames f tail (payload ∷ frames) more
          (omega (arith, split_frame-length b payload tail s))
        ∙ ap (λ l. some (l, rest)) (reverse-cons payload frames _))

decode_stream-Frames :
    (b : Bytes) {rest : Bytes} {payloads : List Bytes}
    → Frames b payloads rest
    → decode_stream b ≡ some (payloads, rest)
unfolding decode_stream
decode_stream-Frames b h = decode_loop-Frames (suc (length b)) b [] h (omega arith)

Frames-rest :
    {b rest : Bytes} {payloads : List Bytes} → Frames b payloads rest → split_frame rest ≡ none
Frames-rest (stop s) = s
Frames-rest (next s more) = Frames-rest more

Frames-decode_stream :
    (b : Bytes) {rest : Bytes} {payloads : List Bytes}
    → decode_stream b ≡ some (payloads, rest)
    → Frames b payloads rest
Frames-decode_stream b {rest} {payloads} h =
    let (ps, r, frames) = Frames-exist (suc (length b)) b (omega arith) in
    let same : some (ps, r) ≡ some (payloads, rest) = sym (decode_stream-Frames b frames) ∙ h in
    let first : ps ≡ payloads = cc same in
    let second : r ≡ rest = cc same in
    subst (λ l. Frames b l rest) first (subst (λ l. Frames b ps l) second frames)

take_within : (n : ℕ) (xs ys : Bytes) → n ≤ length xs → take n (xs ++ ys) ≡ take n xs
take_within zero xs ys h = refl
take_within (suc n) [] ys h = absurd (omega arith)
take_within (suc n) (x ∷ xs) ys h = ap (λ t. x ∷ t) (take_within n xs ys (omega arith))

drop_within : (n : ℕ) (xs ys : Bytes) → n ≤ length xs → drop n (xs ++ ys) ≡ drop n xs ++ ys
drop_within zero xs ys h = refl
drop_within (suc n) [] ys h = absurd (omega arith)
drop_within (suc n) (x ∷ xs) ys h = drop_within n xs ys (omega arith)

abbrev cut : ℕ → Bytes → Option (Bytes × Bytes)
cut n rest = if leb n (length rest) then some (take n rest, drop n rest) else none

-- A whole frame is still the first when more bytes arrive.
split_frame-append :
    (b c payload tail : Bytes)
    → split_frame b ≡ some (payload, tail)
    → split_frame (b ++ c) ≡ some (payload, tail ++ c)
unfolding split_frame
split_frame-append [] c payload tail h = cc
split_frame-append (x ∷ []) c payload tail h = cc
split_frame-append (x ∷ y ∷ []) c payload tail h = cc
split_frame-append (x ∷ y ∷ z ∷ rest) c payload tail h = whole (x * 65536 + y * 256 + z) h
  where
    whole :
        (n : ℕ) → cut n rest ≡ some (payload, tail) → cut n (rest ++ c) ≡ some (payload, tail ++ c)
    whole n e = elim (Bool-cases (leb n (length rest))) [
      | inl t ↦
          let fits : n ≤ length rest = leb→le n (length rest) t in
          let longer : leb n (length (rest ++ c)) ≡ true =
            le→leb n (length (rest ++ c)) (omega (arith, length-append rest c)) in
          let pieces : some (take n rest, drop n rest) ≡ some (payload, tail) = rw t at e in
          let front : take n rest ≡ payload = cc pieces in
          let back : drop n rest ≡ tail = cc pieces in
          rw (longer, take_within n rest c fits, drop_within n rest c fits, front, back) refl
      | inr t ↦ cc (rw t at e)
    ]

Frames-append :
    (a c : Bytes) {r s : Bytes} {ps qs : List Bytes}
    → Frames a ps r
    → Frames (r ++ c) qs s
    → Frames (a ++ c) (ps ++ qs) s
Frames-append a c (stop h) more = more
Frames-append a c (next {payload = payload} {tail = tail} h rest) more =
    next (split_frame-append a c payload tail h) (Frames-append tail c rest more)

-- `decode_stream` always gives payloads and a rest, and the rest has no whole frame.
pub decode_stream-total :
    (b : Bytes)
    → (payloads : List Bytes) × (rest : Bytes) × (decode_stream b ≡ some (payloads, rest))
      × (split_frame rest ≡ none)
decode_stream-total b =
    let (payloads, rest, frames) = Frames-exist (suc (length b)) b (omega arith) in
    (payloads, rest, decode_stream-Frames b frames, Frames-rest frames)

-- If the rest of a first chunk is decoded in front of a second chunk, the payloads of the two calls
-- in order are those of one call on both chunks, and the rest is the same.
pub decode_stream-append :
    (a c r s : Bytes) (ps qs : List Bytes)
    → decode_stream a ≡ some (ps, r)
    → decode_stream (r ++ c) ≡ some (qs, s)
    → decode_stream (a ++ c) ≡ some (ps ++ qs, s)
decode_stream-append a c r s ps qs first second =
    decode_stream-Frames (a ++ c)
      (Frames-append a c (Frames-decode_stream a first) (Frames-decode_stream (r ++ c) second))

big_24-back : (n : ℕ) → n ≤ 16777215 → n / 65536 % 256 * 65536 + n / 256 % 256 * 256 + n % 256 ≡ n
big_24-back n h = omega arith

split_frame-encode :
    (payload e b : Bytes) → encode payload ≡ some e → split_frame (e ++ b) ≡ some (payload, b)
unfolding encode split_frame
split_frame-encode payload e b h = elim (Bool-cases (leb (length payload) 16777215)) [
  | inl t ↦
      let framed : some (big_24 (length payload) ++ payload) ≡ some e = rw t at h in
      let same : big_24 (length payload) ++ payload ≡ e = cc framed in
      let fits : length payload ≤ length (payload ++ b) = omega (arith, length-append payload b) in
      subst (λ l. split_frame (l ++ b) ≡ some (payload, b)) same
        (rw
          (
            big_24-back (length payload) (leb→le (length payload) 16777215 t),
            le→leb (length payload) (length (payload ++ b)) fits,
            take-append payload b,
            drop-append payload b,
          )
          refl)
  | inr t ↦ cc (rw t at h)
]

-- If a payload is framed and put in front of a stream, `decode_stream` gives the payload and then
-- what it gives of the stream.
pub decode_stream-encode :
    (payload e b rest : Bytes) (payloads : List Bytes)
    → encode payload ≡ some e
    → decode_stream b ≡ some (payloads, rest)
    → decode_stream (e ++ b) ≡ some (payload ∷ payloads, rest)
decode_stream-encode payload e b rest payloads h d =
    decode_stream-Frames (e ++ b)
      (next (split_frame-encode payload e b h) (Frames-decode_stream b d))
