-- ===== src/Reference/Wam.antt =====
-- dev/tools/run_baileys_reference.mts: the handlers of WAM events.
use baileys_ex.Base.{List, [], ◌∷◌}
use baileys_ex.Base.Text.{Text, codes}
use baileys_ex.Base.Assoc.{Assoc, put}
use baileys_ex.Reference.{
  Attempt, returns, throws, ◌>>=◌, Value, Values, Fields, str, arr, nil, cons, field, assert_record,
  assert_string, assert_number,
}
use baileys_ex.Reference.Baileys.{Baileys, WamEvent}

-- The counts of the registries.
pub record Counts (N : Type 0) : Type 0 where
  pub events : N
  pub globals : N

module _ {N : Type 0} where
  -- An entry `[name, value]`; nothing may stand behind the two.
  unfoldable pub ordered_pair : Value N → Attempt (Text × Value N)
  ordered_pair (arr (cons (str name) (cons value nil))) = returns (name, value)
  ordered_pair _ = throws (codes "expected ordered pair entries shaped as [name, value]")

  unfoldable pub ordered_pairs : Values N → Attempt (List (Text × Value N))
  unfolding ordered_pair
  ordered_pairs nil = returns []
  ordered_pairs (cons v vs) =
      ordered_pair v >>= λ pair. ordered_pairs vs >>= λ rest. returns (pair ∷ rest)

  -- Anything but an array stands for no entries.
  unfoldable pub normalize_ordered_pairs : Value N → Attempt (List (Text × Value N))
  unfolding ordered_pairs
  normalize_ordered_pairs (arr vs) = ordered_pairs vs
  normalize_ordered_pairs _ = returns []

  -- `Object.fromEntries`: a later entry of a name replaces the value of an earlier one.
  unfoldable pub from_entries_onto : List (Text × Value N) → Assoc (Value N) → Assoc (Value N)
  from_entries_onto [] acc = acc
  from_entries_onto ((k, v) ∷ rest) acc = from_entries_onto rest (put k v acc)

  unfoldable pub assert_wam_event : Value N → Attempt (WamEvent N)
  unfolding normalize_ordered_pairs from_entries_onto
  assert_wam_event value = do
    event ← assert_record value (codes "event")
    name ← assert_string (field (codes "name") event) (codes "event.name")
    props ← normalize_ordered_pairs (field (codes "props") event)
    globals ← normalize_ordered_pairs (field (codes "globals") event)
    returns (record {
      event_name = name;
      props = from_entries_onto props [];
      globals = from_entries_onto globals [];
    })

  unfoldable pub wam_events : Values N → Attempt (List (WamEvent N))
  unfolding assert_wam_event
  wam_events nil = returns []
  wam_events (cons v vs) =
      assert_wam_event v >>= λ event. wam_events vs >>= λ rest. returns (event ∷ rest)

  -- `Array.isArray(input.events) ? input.events : []`.
  unfoldable pub event_list : Value N → Values N
  event_list (arr vs) = vs
  event_list _ = nil

module _ {N : Type 0} (b : Baileys N) where
  unfoldable pub run_wam_registry_counts : Counts N
  run_wam_registry_counts = record { events = b.web_events_length; globals = b.web_globals_length }

  unfoldable pub run_wam_encode : Fields N → Attempt Text
  unfolding wam_events event_list
  run_wam_encode input = do
    sequence ← assert_number (field (codes "sequence") input) (codes "input.sequence")
    events ← wam_events (event_list (field (codes "events") input))
    encoded ← b.encode_wam sequence events
    returns (b.to_hex encoded)
