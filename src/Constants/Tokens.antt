-- ===== src/Constants/Tokens.antt =====
-- lib/baileys_ex/protocol/constants.ex: the token map is inverse to the token tables.
use mathlib.Core.Path.{subst}
use baileys_ex.Base.{
  ℕ, zero, suc, ◌<◌, ◌≤◌, ◌≡◌, refl, inl, inr, List, [], ◌∷◌, some, arith, length, get_elem?,
  Option-cases,
}
use baileys_ex.Base.Text.{Text, text_eq→eq}
use baileys_ex.Base.Result.{ok}
use baileys_ex.Constants.{
  Token, single, double, last_index, last_entry, lookup_token, double_entry, single_byte_tokens,
  double_byte_tokens, single_byte_token, double_byte_token,
}

last_index-get :
    (t : Text) (xs : List Text) (i : ℕ)
    → last_index t xs ≡ some i
    → (get_elem? xs i ≡ some t) × (i < length xs)
unfolding last_index
last_index-get t [] i h = cc
last_index-get t (x ∷ xs) zero h = ground (arith, text_eq→eq x t)
last_index-get t (x ∷ xs) (suc i) h = ground (arith, last_index-get t xs i)

-- `t` stands at `index` of a dictionary that stands at `dict`, whose length is `n`.
abbrev At : List (List Text) → ℕ → ℕ → Text → ℕ → Type 0
At [] dict index t n = ⊥
At (d ∷ ds) zero index t n = (get_elem? d index ≡ some t) × (index < length d) × (length d ≡ n)
At (d ∷ ds) (suc dict) index t n = At ds dict index t n

-- Every dictionary has `n` tokens.
abbrev AllHave : ℕ → List (List Text) → Type 0
AllHave n [] = Unit {0}
AllHave n (d ∷ ds) = (length d ≡ n) × AllHave n ds

last_entry-At :
    (t : Text) (ds : List (List Text)) (n dict index : ℕ)
    → AllHave n ds
    → last_entry t ds ≡ some (dict, index)
    → At ds dict index t n
unfolding last_entry
last_entry-At t [] n dict index w h = cc
last_entry-At t (d ∷ ds) n zero index w h = elim (Option-cases (last_entry t ds)) [
  | inl e ↦ elim (Option-cases (last_index t d)) [
    | inl f ↦ absurd (ground arith)
    | inr (i, f) ↦ ground (arith, last_index-get t d i)
  ]
  | inr (x, e) ↦ absurd (ground arith)
]
last_entry-At t (d ∷ ds) n (suc dict) index w h = last_entry-At t ds n dict index w.1 (ground arith)

double_byte-AllHave : AllHave 256 double_byte_tokens
unfolding double_byte_tokens
double_byte-AllHave = (refl, (refl, (refl, (refl, tt))))

double-At :
    (dict index : ℕ) (t : Text)
    → At double_byte_tokens dict index t 256
    → (dict < 4) × (index < 256) × (double_byte_token dict index ≡ ok t)
unfolding double_byte_token double_byte_tokens
double-At zero index t h = (omega arith, rw (h.2) at h.1, rw h.0)
double-At (suc zero) index t h = (omega arith, rw (h.2) at h.1, rw h.0)
double-At (suc (suc zero)) index t h = (omega arith, rw (h.2) at h.1, rw h.0)
double-At (suc (suc (suc zero))) index t h = (omega arith, rw (h.2) at h.1, rw h.0)
double-At (suc (suc (suc (suc dict)))) index t h = absurd h

length-single_byte_tokens : length single_byte_tokens ≡ 236
unfolding single_byte_tokens
length-single_byte_tokens = refl

single_byte-zero : get_elem? single_byte_tokens 0 ≡ some []
unfolding single_byte_tokens
single_byte-zero = refl

-- The entry `token` reads back as `t`, and its numbers fit their bytes.
abbrev pub TokenReads : Token → Text → Type 0
TokenReads (single index) t = (1 ≤ index) × (index < 236) × (single_byte_token index ≡ some t)
TokenReads (double dict index) t =
    (dict < 4) × (index < 256) × (double_byte_token dict index ≡ ok t)

single-TokenReads :
    (c : ℕ) (cs : Text) (index : ℕ)
    → last_index (c ∷ cs) single_byte_tokens ≡ some index
    → TokenReads (single index) (c ∷ cs)
unfolding single_byte_token
single-TokenReads c cs zero h =
    absurd (cc (single_byte-zero, (last_index-get (c ∷ cs) single_byte_tokens zero h).0))
single-TokenReads c cs (suc index) h =
    let (at, lt) = last_index-get (c ∷ cs) single_byte_tokens (suc index) h in
    (omega arith, omega (arith, length-single_byte_tokens), at)

double_entry-TokenReads :
    (t : Text) (token : Token) → double_entry t ≡ some token → TokenReads token t
unfolding double_entry
double_entry-TokenReads t token h = elim (Option-cases (last_entry t double_byte_tokens)) [
  | inl e ↦ absurd (ground arith)
  | inr ((dict, index), e) ↦
      let this : some (double dict index) ≡ some token = rw e at h in
      subst (λ tok. TokenReads tok t) {x = double dict index} (cc this)
        (double-At dict index t
          (last_entry-At t double_byte_tokens 256 dict index double_byte-AllHave e))
]

-- The entry of a text in the token map leads back to the text in the token tables.
pub lookup_token-TokenReads :
    (t : Text) (token : Token) → lookup_token t ≡ some token → TokenReads token t
unfolding lookup_token
lookup_token-TokenReads [] token h = double_entry-TokenReads [] token h
lookup_token-TokenReads (c ∷ cs) token h =
    elim (Option-cases (last_index (c ∷ cs) single_byte_tokens)) [
      | inl e ↦ double_entry-TokenReads (c ∷ cs) token (rw (e, lookup_token) at h)
      | inr (index, e) ↦
          let this : some (single index) ≡ some token = rw (e, lookup_token) at h in
          subst (λ tok. TokenReads tok (c ∷ cs)) {x = single index} (cc this)
            (single-TokenReads c cs index e)
    ]
