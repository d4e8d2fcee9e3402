-- ===== src/Reference.antt =====
-- dev/tools/run_baileys_reference.mts: the runner that answers one request of the parity tests with
-- the reference implementation. Here are its values, its checks of them and its JSON nodes; the
-- children hold the handlers and the dispatch.
pub mod Baileys
pub mod Outcome
pub mod Node
pub mod Clock
pub mod Presence
pub mod Features
pub mod Wam
pub mod Run
pub mod Parity
pub mod SendParity
mod Tests
use baileys_ex.Base.{ℕ, List, [], ◌∷◌, ◌++◌, Option, none, some, Bool, true, false, if◌then◌else◌}
use baileys_ex.Base.Text.{Text, Bytes, codes, text_eq}
use baileys_ex.Base.Assoc.{Assoc}

-- A call returns, or throws an Error with a message.
pub data Attempt {ℓ} (A : Type ℓ) : Type ℓ where
  returns : A → Attempt A
  throws : Text → Attempt A

-- `await` and plain sequencing are the same: nothing else runs in the process.
infixl 5 ◌>>=◌
abbrev pub ◌>>=◌ {ℓ κ} : {A : Type ℓ} {B : Type κ} → Attempt A → (A → Attempt B) → Attempt B
returns a >>= f = f a
throws message >>= f = throws message

-- A value of type `unknown`; `N` is the type of JavaScript's numbers. A key that is missing reads as
-- `undefined`.
mutual
  pub data Value (N : Type 0) : Type 0 where
    undefined : Value N
    null : Value N
    bool : Bool → Value N
    num : N → Value N
    str : Text → Value N
    arr : Values N → Value N
    obj : Fields N → Value N

  pub data Values (N : Type 0) : Type 0 where
    nil : Values N
    cons : Value N → Values N → Values N

  pub data Fields (N : Type 0) : Type 0 where
    end : Fields N
    entry : Text → Value N → Fields N → Fields N

-- `content` of a JSON node. `other` is any object that is not a binary with a base64 text.
mutual
  pub data JsonNode : Type 0 where
    json_node : Text → Option (Assoc (Option Text)) → JsonContent → JsonNode

  pub data JsonContent : Type 0 where
    undefined : JsonContent
    null : JsonContent
    str : Text → JsonContent
    binary : Text → JsonContent
    array : JsonNodes → JsonContent
    other : JsonContent

  pub data JsonNodes : Type 0 where
    no_nodes : JsonNodes
    and_node : JsonNode → JsonNodes → JsonNodes

-- What `input.node` can be: no object, an object whose tag is no text, or an object of the type
-- `JsonBinaryNode`, to which the runner casts it.
pub data NodeInput : Type 0 where
  not_object : NodeInput
  untagged : NodeInput
  tagged : JsonNode → NodeInput

pub record Request (N : Type 0) : Type 0 where
  pub operation : Text
  pub input : Fields N
  pub input_node : NodeInput

unfoldable pub assert_json_node : NodeInput → Attempt JsonNode
assert_json_node not_object = throws (codes "expected input.node to be an object")
assert_json_node untagged = throws (codes "expected input.node.tag to be a string")
assert_json_node (tagged n) = returns n

module _ {N : Type 0} where
  unfoldable pub field : Text → Fields N → Value N
  field key end = Value.undefined
  field key (entry k v rest) = if text_eq k key then v else field key rest

  -- The message names what was expected.
  unfoldable pub assert_record : Value N → Text → Attempt (Fields N)
  assert_record (obj fields) label = returns fields
  assert_record _ label = throws (codes "expected " ++ (label ++ codes " to be an object"))

  unfoldable pub assert_string : Value N → Text → Attempt Text
  assert_string (Value.str t) label = returns t
  assert_string _ label = throws (codes "expected " ++ (label ++ codes " to be a string"))

  unfoldable pub optional_string : Value N → Option Text
  optional_string (Value.str t) = some t
  optional_string _ = none

  unfoldable pub assert_number : Value N → Text → Attempt N
  assert_number (num n) label = returns n
  assert_number _ label = throws (codes "expected " ++ (label ++ codes " to be a number"))
