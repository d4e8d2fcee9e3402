-- ===== src/OfflineQueue.antt =====
-- lib/baileys_ex/message/offline_queue.ex: nodes that arrived while the client was offline, in batches.
-- `:queue` is a list with its front first. The processor is a parameter that changes a state of the
-- caller; `none` is its `:ok`. The calls of the event emitter are listed in order.
pub mod Laws
mod Tests
use baileys_ex.Base.{
  ℕ, zero, suc, ◌+◌, List, [], ◌∷◌, ◌++◌, Option, none, some, Bool, true, false, not, ◌&&◌, leb,
  if◌then◌else◌,
}
use baileys_ex.Wire.{Node}

pub data NodeType : Type 0 where
  message call receipt notification : NodeType

abbrev pub Item : Type 0
Item = NodeType × Node

pub record OfflineQueue : Type 0 where
  pub queue : List Item
  pub batch_size : ℕ
  pub buffering : Bool

-- `EventEmitter.buffer` and `EventEmitter.flush`.
pub data EmitterCall : Type 0 where
  buffer flush : EmitterCall

-- `buffering?` of an emitter after a call, as lib/baileys_ex/connection/event_emitter.ex answers it
-- where what a flush delivers is accepted.
unfoldable pub emitter_after : EmitterCall → Bool → Bool
emitter_after buffer on = true
emitter_after flush on = false

-- 10 is the default of the option.
unfoldable pub new : Option ℕ → OfflineQueue
new none = record { queue = []; batch_size = 10; buffering = false }
new (some size) = record { queue = []; batch_size = size; buffering = false }

unfoldable pub enqueue : OfflineQueue → NodeType → Node → OfflineQueue
enqueue state type n = record {
  queue = state.queue ++ (type, n) ∷ [];
  batch_size = state.batch_size;
  buffering = state.buffering;
}

abbrev pub is_empty : List Item → Bool
is_empty [] = true
is_empty (item ∷ items) = false

abbrev pub with_queue : OfflineQueue → List Item → OfflineQueue
with_queue state items = record {
  queue = items;
  batch_size = state.batch_size;
  buffering = state.buffering;
}

abbrev pub with_buffering : OfflineQueue → Bool → OfflineQueue
with_buffering state on = record {
  queue = state.queue;
  batch_size = state.batch_size;
  buffering = on;
}

-- The argument says whether the context has an event emitter.
unfoldable pub maybe_begin_buffering : OfflineQueue → Bool → OfflineQueue × List EmitterCall
maybe_begin_buffering state emitter =
    if state.buffering
    then (state, [])
    else if not (is_empty state.queue) && emitter
    then (with_buffering state true, buffer ∷ [])
    else (state, [])

unfoldable pub maybe_finish_buffering : OfflineQueue → Bool → Bool → OfflineQueue × List EmitterCall
maybe_finish_buffering state emitter continue =
    if not state.buffering
    then (state, [])
    else if emitter && continue
    then (state, [])
    else if emitter
    then (with_buffering state false, flush ∷ [])
    else (state, [])

-- What a drain gives: the count of the nodes processed, with `continue?` or with the error.
pub data Drained (E : Type 0) : Type 0 where
  drained : ℕ → Bool → Drained E
  drain_failed : E → ℕ → Drained E

pub record Batch (W E : Type 0) : Type 0 where
  pub rest : List Item
  pub world : W
  pub processed_count : ℕ
  pub failure : Option E

module _ {W E : Type 0} (processor : NodeType → Node → W → Option E × W) where
  -- The recursion is on the queue, whose front each call takes off.
  unfoldable pub drain_batch : ℕ → List Item → W → ℕ → Batch W E
  drain_batch batch_size [] world count = record {
    rest = [];
    world = world;
    processed_count = count;
    failure = none;
  }
  drain_batch batch_size ((type, n) ∷ items) world count =
      let (answer, after) = processor type n world in
      let more = drain_batch batch_size items after (count + 1) in
      if leb batch_size count
      then record {
        rest = (type, n) ∷ items;
        world = world;
        processed_count = count;
        failure = none;
      }
      else elim answer [
        | none ↦ more
        | some reason ↦ record {
          rest = items;
          world = after;
          processed_count = count;
          failure = some reason;
        }
      ]

  abbrev pub Drain : Type 0
  Drain = Drained E × (OfflineQueue × (List EmitterCall × W))

  abbrev pub finish : OfflineQueue → List EmitterCall → Bool → Batch W E → Option E → Drain
  finish state calls emitter batch none =
      let continue = not (is_empty batch.rest) in
      let (final, more) = maybe_finish_buffering (with_queue state batch.rest) emitter continue in
      (drained batch.processed_count continue, (final, (calls ++ more, batch.world)))
  finish state calls emitter batch (some reason) =
      let (final, more) = maybe_finish_buffering (with_queue state batch.rest) emitter false in
      (drain_failed reason batch.processed_count, (final, (calls ++ more, batch.world)))

  unfoldable pub drain : OfflineQueue → Bool → W → Drain
  unfolding drain_batch maybe_finish_buffering
  drain given emitter world =
      let (state, calls) = maybe_begin_buffering given emitter in
      let batch = drain_batch state.batch_size state.queue world 0 in
      finish state calls emitter batch batch.failure
