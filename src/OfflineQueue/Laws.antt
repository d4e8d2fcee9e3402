-- ===== src/OfflineQueue/Laws.antt =====
-- Laws of the offline queue: nodes are processed in order, none is lost, and the emitter buffers
-- between drains exactly when there is more to drain.
use baileys_ex.Base.{
  ℕ, ◌+◌, ◌≤◌, ◌≡◌, refl, ap, ◌∙◌, ◌⊎◌, inl, inr, List, [], ◌∷◌, ◌++◌, Option, none, some, Bool,
  true, false, leb, Bool-cases, length, arith, leb→le,
}
use baileys_ex.Wire.{Node}
use baileys_ex.OfflineQueue.{
  NodeType, Item, OfflineQueue, EmitterCall, buffer, flush, emitter_after, maybe_begin_buffering,
  maybe_finish_buffering, Drained, drained, drain_failed, Batch, drain_batch, Drain, finish, drain,
}

-- Whether an emitter buffers after some calls.
pub buffers_after : Bool → List EmitterCall → Bool
unfolding emitter_after
buffers_after on [] = on
buffers_after on (call ∷ calls) = buffers_after (emitter_after call on) calls

buffers_after-append :
    (on : Bool) (calls more : List EmitterCall)
    → buffers_after on (calls ++ more) ≡ buffers_after (buffers_after on calls) more
unfolding buffers_after
buffers_after-append on [] more = refl
buffers_after-append on (call ∷ calls) more =
    buffers_after-append (emitter_after call on) calls more

-- Where calls leave the emitter `on`, more calls go on from there.
after-more :
    (before on : Bool) (calls more : List EmitterCall)
    → buffers_after before calls ≡ on
    → buffers_after before (calls ++ more) ≡ buffers_after on more
after-more before on calls more e =
    buffers_after-append before calls more ∙ ap (λ x. buffers_after x more) e

after_none : (on : Bool) → buffers_after on [] ≡ on
unfolding buffers_after
after_none on = refl

after_flush : (on : Bool) → buffers_after on (flush ∷ []) ≡ false
unfolding buffers_after
after_flush on = refl

module _ {W E : Type 0} (processor : NodeType → Node → W → Option E × W) where
  -- The nodes are all processed with `:ok`, in order.
  pub data Ran : List Item → W → W → Type 0 where
    ran_none : {w : W} → Ran [] w w
    ran_one :
        {type : NodeType} {n : Node} {items : List Item} {w v u : W}
        → processor type n w ≡ (none, v)
        → Ran items v u
        → Ran ((type, n) ∷ items) w u

  -- How a batch ends, after the nodes `done`, from the caller's state `v`.
  abbrev pub Ended : ℕ → List Item → List Item → W → Batch W E → Option E → Type 0
  Ended size items done v b none =
      (items ≡ done ++ b.rest) × ((b.world ≡ v) × ((b.rest ≡ []) ⊎ (size ≤ b.processed_count)))
  Ended size items done v b (some reason) =
      (type : NodeType) × (n : Node) × (items ≡ done ++ (type, n) ∷ b.rest)
      × (processor type n v ≡ (some reason, b.world))

  -- What a batch does to a queue, with the count from which it starts.
  pub record Drains (size : ℕ) (items : List Item) (w : W) (count : ℕ) (b : Batch W E)
      : Type 0 where
    pub done : List Item
    pub reached : W
    pub ran : Ran done w reached
    pub counted : b.processed_count ≡ count + length done
    pub within : count ≤ size → b.processed_count ≤ size
    pub ended : Ended size items done reached b b.failure

  Ended-cons :
      (size : ℕ) (item : Item) (items done : List Item) (v : W) (b : Batch W E) (failure : Option E)
      → Ended size items done v b failure
      → Ended size (item ∷ items) (item ∷ done) v b failure
  Ended-cons size item items done v b none (split, others) = (ap (λ l. item ∷ l) split, others)
  Ended-cons size item items done v b (some reason) (type, n, split, failing) =
      (type, n, ap (λ l. item ∷ l) split, failing)

  -- A batch runs nodes from the front of the queue in order. It ends with the queue empty or the
  -- batch size reached, or at the first node that fails, which is taken off; the rest of the queue
  -- stays as it was, the count says how many nodes ran, and it stays within the batch size.
  pub drain_batch-Drains :
      (size : ℕ) (items : List Item) (w : W) (count : ℕ)
      → Drains size items w count (drain_batch processor size items w count)
  unfolding drain_batch
  drain_batch-Drains size [] w count = record {
    done = [];
    reached = w;
    ran = ran_none;
    counted = omega arith;
    within = λ h. h;
    ended = (refl, (refl, inl refl));
  }
  drain_batch-Drains size ((type, n) ∷ items) w count = elim (Bool-cases (leb size count)) [
    | inl e ↦ rw e (record {
      done = [];
      reached = w;
      ran = ran_none;
      counted = omega arith;
      within = λ h. h;
      ended = (refl, (refl, inr (leb→le size count e)));
    })
    | inr e ↦ rw e (
        answered (processor type n w).0 (processor type n w).1 refl e
          (λ v. drain_batch-Drains size items v (count + 1)))
  ]
    where
      answered :
          (emitter_after : Option E) (after : W)
          → processor type n w ≡ (emitter_after, after)
          → leb size count ≡ false
          → ((v : W)
              → Drains size items v (count + 1) (drain_batch processor size items v (count + 1)))
          → Drains size ((type, n) ∷ items) w count (elim emitter_after [
            | none ↦ drain_batch processor size items after (count + 1)
            | some reason ↦ record {
              rest = items;
              world = after;
              processed_count = count;
              failure = some reason;
            }
          ])
      answered none after e small others =
          let more = others after in
          record {
            done = (type, n) ∷ more.done;
            reached = more.reached;
            ran = ran_one e more.ran;
            counted = omega (arith, more.counted);
            within = λ h. more.within (ground arith);
            ended =
                Ended-cons size (type, n) items more.done more.reached
                  (drain_batch processor size items after (count + 1)) _ more.ended;
          }
      answered (some reason) after e small others = record {
        done = [];
        reached = w;
        ran = ran_none;
        counted = omega arith;
        within = λ h. h;
        ended = (type, n, refl, e);
      }

  -- What a drain gives and whether the emitter buffers agree.
  abbrev pub Agrees : Drained E → Bool → Type 0
  Agrees (drained count continue) buffering = buffering ≡ continue
  Agrees (drain_failed reason count) buffering = buffering ≡ false

  -- The emitter, which buffered or not before a drain, is left as the drain says, and the queue knows.
  abbrev pub Leaves : Bool → Drain processor → Type 0
  Leaves before d =
      (buffers_after before d.1.1.0 ≡ d.1.0.buffering) × Agrees d.0 (buffers_after before d.1.1.0)

  finish-Leaves :
      (size : ℕ) (items rest : List Item) (before on : Bool) (calls : List EmitterCall) (w : W)
      (count : ℕ) (failure : Option E)
      → buffers_after before calls ≡ on
      → (on ≡ true) ⊎ (rest ≡ [])
      → Leaves before (
          finish processor
            (record { queue = items; batch_size = size; buffering = on })
            calls
            true
            (record { rest = rest; world = w; processed_count = count; failure = failure })
            failure)
  unfolding maybe_finish_buffering
  finish-Leaves size items [] before true calls w count none e h =
      let off = after-more before true calls (flush ∷ []) e ∙ after_flush true in (off, off)
  finish-Leaves size items [] before false calls w count none e h =
      let off = after-more before false calls [] e ∙ after_none false in (off, off)
  finish-Leaves size items (item ∷ rest) before true calls w count none e h =
      let on = after-more before true calls [] e ∙ after_none true in (on, on)
  finish-Leaves size items (item ∷ rest) before false calls w count none e (inl h) = cc
  finish-Leaves size items (item ∷ rest) before false calls w count none e (inr h) = cc
  finish-Leaves size items rest before true calls w count (some reason) e h =
      let off = after-more before true calls (flush ∷ []) e ∙ after_flush true in (off, off)
  finish-Leaves size items rest before false calls w count (some reason) e h =
      let off = after-more before false calls [] e ∙ after_none false in (off, off)

  parts-Leaves :
      (size : ℕ) (items : List Item) (on : Bool) (w : W)
      → Leaves on
          (drain processor (record { queue = items; batch_size = size; buffering = on }) true w)
  unfolding drain maybe_begin_buffering buffers_after
  parts-Leaves size items true w = finish-Leaves size items _ true true [] _ _ _ refl (inl refl)
  parts-Leaves size [] false w = unfold drain_batch maybe_finish_buffering in (refl, refl)
  parts-Leaves size (item ∷ items) false w =
      finish-Leaves size (item ∷ items) _ false true (buffer ∷ []) _ _ _ refl (inl refl)

  -- With an event emitter that buffers when the queue says so and that accepts what it flushes, the
  -- calls of a drain leave the emitter buffering exactly when the drain says that there is more to
  -- drain, and not after an error; the queue says so again.
  pub drain-Leaves :
      (state : OfflineQueue) (w : W) → Leaves state.buffering (drain processor state true w)
  drain-Leaves state w = parts-Leaves state.batch_size state.queue state.buffering w
