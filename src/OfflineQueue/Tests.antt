-- ===== src/OfflineQueue/Tests.antt =====
-- The offline queue at a concrete queue and processor.
use baileys_ex.Base.{ℕ, suc, List, [], ◌∷◌, Option, none, some, true, false}
use baileys_ex.Base.Text.{codes}
use baileys_ex.Wire.{Node, node, empty}
use baileys_ex.OfflineQueue.{
  NodeType, message, call, receipt, notification, Item, OfflineQueue, drain_batch, drain,
}
use baileys_ex.OfflineQueue.Laws.{Drains, Leaves, drain_batch-Drains, drain-Leaves}

abbrev leaf : Node
leaf = node (codes "iq") [] empty

-- It counts the nodes, and a call fails.
abbrev counting : NodeType → Node → ℕ → Option ℕ × ℕ
counting call n seen = (some 500, seen)
counting _ n seen = (none, suc seen)

abbrev items : List Item
items = (message, leaf) ∷ (receipt, leaf) ∷ (call, leaf) ∷ (notification, leaf) ∷ []

abbrev waiting : OfflineQueue
waiting = record { queue = items; batch_size = 2; buffering = false }

drain_batch-Drains_example : Drains counting 2 items 0 0 (drain_batch counting 2 items 0 0)
drain_batch-Drains_example = drain_batch-Drains counting 2 items 0 0

drain-Leaves_example : Leaves counting false (drain counting waiting true 0)
drain-Leaves_example = drain-Leaves counting waiting 0
