-- ===== src/Reference/Clock.antt =====
-- dev/tools/run_baileys_reference.mts: message content under a fixed clock. `Date.now` is a global
-- that the runner replaces for the time of the work.
use baileys_ex.Base.{◌≡◌, refl, [], ◌∷◌, Option, none, some, Bool, true, false, if◌then◌else◌}
use baileys_ex.Base.Text.{Text, Bytes, codes}
use baileys_ex.Reference.{
  Attempt, returns, throws, ◌>>=◌, Value, Fields, bool, num, arr, obj, field, assert_record,
  assert_string,
}
use baileys_ex.Reference.Baileys.{Baileys}

-- `Date.now`: the platform's, or the function that returns one value.
pub data DateNow (N : Type 0) : Type 0 where
  system : DateNow N
  fixed : N → DateNow N

-- Work that may read and replace the global; what it replaced stays when it throws.
abbrev pub Work : Type 0 → Type 0 → Type 0
Work N A = DateNow N → Attempt A × DateNow N

-- The message type of the reference implementation and the fields that the runner sets.
pub record Proto (N : Type 0) : Type 1 where
  pub Message : Type 0
  pub ContextInfo : Type 0
  pub generate_content : Fields N → Work N Message
  pub context_info : Message → Option ContextInfo
  pub empty_context : ContextInfo
  pub set_secret : Bytes → ContextInfo → ContextInfo
  pub set_context : ContextInfo → Message → Message
  pub encode : Message → Bytes

-- The `finally` clause puts the original function back, also when the work throws.
unfoldable pub with_optional_date_now {ℓ} :
    {N : Type 0} {A : Type ℓ}
    → Value N
    → (DateNow N → Attempt A × DateNow N)
    → DateNow N
    → Attempt A × DateNow N
with_optional_date_now (num value) work original =
    let (result, _) = work (fixed value) in (result, original)
with_optional_date_now _ work original = work original

module _ {N : Type 0} (b : Baileys N) where
  unfoldable pub decode_base64_field : Value N → Text → Attempt Bytes
  decode_base64_field value label = assert_string value label >>= λ t. returns (b.from_base64 t)

  -- `if (value)`.
  unfoldable pub truthy : Value N → Bool
  truthy Value.undefined = false
  truthy Value.null = false
  truthy (bool x) = x
  truthy (num n) = b.truthy_number n
  truthy (Value.str []) = false
  truthy (Value.str (c ∷ cs)) = true
  truthy (arr vs) = true
  truthy (obj fs) = true

  -- `value ? decodeBase64Field(value, label) : nothing`.
  unfoldable pub optional_base64 : Value N → Text → Attempt (Option Bytes)
  unfolding decode_base64_field truthy
  optional_base64 value label =
      if truthy value
      then (decode_base64_field value label >>= λ bytes. returns (some bytes))
      else returns none

  module _ (p : Proto N) where
    abbrev or_empty : Option p.ContextInfo → p.ContextInfo
    or_empty none = p.empty_context
    or_empty (some context) = context

    unfoldable pub with_secret : Option Bytes → p.Message → p.Message
    with_secret none message = message
    with_secret (some secret) message =
        p.set_context (p.set_secret secret (or_empty (p.context_info message))) message

    abbrev encoded : Option Bytes → Attempt p.Message → Attempt Text
    encoded secret result =
        result >>= λ message. returns (b.to_hex (p.encode (with_secret secret message)))

    abbrev generate :
        Value N → Attempt (Fields N × Option Bytes) → DateNow N → Attempt Text × DateNow N
    generate now_ms (throws message) clock = (throws message, clock)
    generate now_ms (returns (content, secret)) clock =
        let (result, after) = with_optional_date_now now_ms (p.generate_content content) clock in
        (encoded secret result, after)

    unfoldable pub run_message_generate_content : Fields N → DateNow N → Attempt Text × DateNow N
    unfolding optional_base64
    run_message_generate_content input = generate (field (codes "now_ms") input) do
      content ← assert_record (field (codes "content") input) (codes "input.content")
      secret ←
          optional_base64 (field (codes "message_secret_base64") input)
            (codes "input.message_secret_base64")
      returns (content, secret)

    generate-fixed :
        (value : N) (prepared : Attempt (Fields N × Option Bytes)) (clock other : DateNow N)
        → ((generate (num value) prepared clock).0 ≡ (generate (num value) prepared other).0)
          × ((generate (num value) prepared clock).1 ≡ clock)
    unfolding with_optional_date_now
    generate-fixed value (throws message) clock other = (refl, refl)
    generate-fixed value (returns (content, secret)) clock other = (refl, refl)

    -- With `now_ms` a number the answer does not depend on the clock, and the clock is afterwards the
    -- one from before, whatever the generator does to it and also if something throws.
    pub generate_content-clock :
        (input : Fields N) (value : N)
        → field (codes "now_ms") input ≡ num value
        → (clock other : DateNow N)
        → ((run_message_generate_content input clock).0
            ≡ (run_message_generate_content input other).0)
          × ((run_message_generate_content input clock).1 ≡ clock)
    unfolding run_message_generate_content with_optional_date_now
    generate_content-clock input value h clock other = rw h (generate-fixed value _ clock other)
