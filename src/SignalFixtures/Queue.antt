-- ===== src/SignalFixtures/Queue.antt =====
-- dev/tools/generate_signal_fixtures.mts: what is drawn from the queue of key pairs.
use baileys_ex.Base.{
  ℕ, zero, suc, ◌≡◌, refl, ap, List, [], ◌∷◌, length, take, map, leb, if◌then◌else◌, false, arith,
  Bool-cases, inl, inr, ◌∙◌, le→leb, leb→le, leb-false,
}
use baileys_ex.Base.Text.{codes}
use baileys_ex.Reference.{Attempt, returns, throws}
use baileys_ex.SignalFixtures.Curve.{
  DirectKeyPair, StoredPreKey, to_libsignal_key_pair, World, Step, queued, generate_key_pair,
  with_queued_signal_key_pairs, and_then,
}

-- The first key pairs of the queue, if it has enough.
unfoldable pub drawn : ℕ → List DirectKeyPair → Attempt (List StoredPreKey)
drawn count queue =
    if leb count (length queue)
    then returns (map to_libsignal_key_pair (take count queue))
    else throws (codes "libsignal key queue exhausted")

-- A key pair before those of an outcome.
abbrev before : StoredPreKey → Attempt (List StoredPreKey) → Attempt (List StoredPreKey)
before pair (returns pairs) = returns (pair ∷ pairs)
before pair (throws message) = throws message

before-drawn :
    (next : DirectKeyPair) (count : ℕ) (queue : List DirectKeyPair)
    → before (to_libsignal_key_pair next) (drawn count queue) ≡ drawn (suc count) (next ∷ queue)
unfolding drawn
before-drawn next count queue = elim (Bool-cases (leb count (length queue))) [
  | inl enough ↦
      rw
        (
          enough,
          le→leb (suc count) (suc (length queue))
              (omega (arith, leb→le count (length queue) enough)),
        )
        refl
  | inr few ↦
      let fewer : leb (suc count) (suc (length queue)) ≡ false = ground arith in
      rw (few, fewer) refl
]

module _ {Session : Type 0} where
  -- A number of calls of the generator, one after the other.
  unfoldable pub draw : Attempt StoredPreKey → ℕ → Step Session (List StoredPreKey)
  unfolding generate_key_pair
  draw own zero world = (returns [], world)
  draw own (suc count) world =
      and_then (generate_key_pair own world)
        λ pair after. and_then (draw own count after) λ pairs last. (returns (pair ∷ pairs), last)

  and_then-before :
      (pair : StoredPreKey) (outcome : Attempt (List StoredPreKey) × World Session)
      → (and_then outcome (λ pairs last. (returns (pair ∷ pairs), last))).0 ≡ before pair outcome.0
  unfolding and_then
  and_then-before pair (returns pairs, last) = refl
  and_then-before pair (throws message, last) = refl

  draw-drawn :
      (own : Attempt StoredPreKey) (count : ℕ) (queue : List DirectKeyPair) (world : World Session)
      → (draw own count (record world { generator = queued queue })).0 ≡ drawn count queue
  unfolding draw generate_key_pair drawn and_then
  draw-drawn own zero queue world = rw (le→leb 0 (length queue) (omega arith)) refl
  draw-drawn own (suc count) [] world = rw (leb-false (suc count) 0 (omega arith)) refl
  draw-drawn own (suc count) (next ∷ queue) world =
      and_then-before (to_libsignal_key_pair next)
        (draw own count (record world { generator = queued queue }))
      ∙ (ap (before (to_libsignal_key_pair next)) (draw-drawn own count queue world)
          ∙ before-drawn next count queue)

  -- While key pairs are queued, a number of calls of the generator gives the queued pairs in order,
  -- or throws if there are fewer; whatever libsignal's own function gives, and whatever the generator
  -- was before, it is that again afterwards.
  pub with_queued_signal_key_pairs-draw :
      (own : Attempt StoredPreKey) (count : ℕ) (queue : List DirectKeyPair) (world : World Session)
      → ((with_queued_signal_key_pairs queue (draw own count) world).0 ≡ drawn count queue)
        × ((with_queued_signal_key_pairs queue (draw own count) world).1.generator
            ≡ world.generator)
  unfolding with_queued_signal_key_pairs
  with_queued_signal_key_pairs-draw own count queue world = (draw-drawn own count queue world, refl)
