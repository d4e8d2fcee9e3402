-- ===== src/Wire.antt =====
-- lib/baileys_ex/protocol/binary_node.ex and the struct of lib/baileys_ex/types.ex: the nodes of the
-- wire format. `Encode` and `Decode` are its two directions.
pub mod Encode
pub mod Decode
pub mod Packed
pub mod Plain
pub mod Strings
pub mod TextContent
pub mod Arrives
pub mod ContentLaws
pub mod RoundTrip
pub mod Access
pub mod Within
pub mod Fuel
mod Tests
use baileys_ex.Base.{ℕ, List, Option}
use baileys_ex.Base.Text.{Text, Bytes}
use baileys_ex.Base.Assoc.{Assoc}

-- `Nodes` is the list of a node's children. An attribute can have the value `nil`.
mutual
  pub data Node : Type 0 where
    node : Text → Assoc (Option Text) → Content → Node

  pub data Content : Type 0 where
    empty : Content
    binary : Bytes → Content
    text : Text → Content
    children : Nodes → Content

  pub data Nodes : Type 0 where
    nil : Nodes
    cons : Node → Nodes → Nodes
