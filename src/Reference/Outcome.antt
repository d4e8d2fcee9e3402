-- ===== src/Reference/Outcome.antt =====
-- dev/tools/run_baileys_reference.mts and the scripts beside it: exceptions.
use baileys_ex.Base.{◌≡◌, refl, ◌⊎◌, inl, inr}
use baileys_ex.Base.Text.{Text}
use baileys_ex.Reference.{Attempt, returns, throws, ◌>>=◌}

pub returns-injective {ℓ} : {A : Type ℓ} {a b : A} → returns a ≡ returns b → a ≡ b
returns-injective h = cc h

-- What ends without an exception began without one.
pub >>=-returns {ℓ κ} :
    {A : Type ℓ} {B : Type κ} (first : Attempt A) (next : A → Attempt B) (b : B)
    → (first >>= next) ≡ returns b
    → (a : A) × (first ≡ returns a) × (next a ≡ returns b)
>>=-returns (returns a) next b h = (a, refl, h)
>>=-returns (throws message) next b h = cc

pub Attempt-cases {ℓ} :
    {A : Type ℓ} (r : Attempt A)
    → ((a : A) × (r ≡ returns a)) ⊎ ((message : Text) × (r ≡ throws message))
Attempt-cases (returns a) = inl (a, refl)
Attempt-cases (throws message) = inr (message, refl)
