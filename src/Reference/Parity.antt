-- ===== src/Reference/Parity.antt =====
-- lib/baileys_ex/feature/presence.ex against dev/tools/run_baileys_reference.mts: the program reads
-- and writes presence nodes as the reference runner does.
use mathlib.Core.Option
use mathlib.Core.Path.{subst}
use baileys_ex.Base.{
  ℕ, [], ◌∷◌, ◌≡◌, ◌≢◌, refl, sym, ap, ◌⊎◌, inl, inr, Option, none, some, true, false, ◌||◌,
  if◌then◌else◌, Bool-cases,
}
use baileys_ex.Base.Text.{Text, codes, text_eq}
use baileys_ex.Base.Assoc.{Assoc, lookup}
use baileys_ex.Base.Decimal.{ℤ, parse_int}
use baileys_ex.Wire.{Node, Nodes, Content}
use baileys_ex.Presence as Elixir
use baileys_ex.Presence.{
  Parsed, Update, Handled, updated, ignored, invalid_presence_node, get, integer_attr,
  last_seen_attr, handle_update, handle_from, parse_presence, parse_available, parse_chatstate,
  child_presence_type, participant_of, report, attr_is,
}
use baileys_ex.Reference.{Attempt, returns, throws}
use baileys_ex.Reference.Node.{
  BinaryNode, BinaryContent, BinaryNodes, binary_node, absent, text, buffer, nodes, unsupported,
  nil, cons, present_entries,
}
use baileys_ex.Reference.Baileys.{Baileys}
use baileys_ex.Reference.Presence.{
  PresenceData, PresenceUpdate, parse_presence_update, presence_data, available_data, child_type,
  last_seen_of, truthy_text, or_else, update_from, is_text,
}

-- A node of the reference implementation as a node of the program.
unfoldable mutual
  pub as_node : BinaryNode → Node
  as_node (binary_node tag attrs content) =
      Node.node tag (present_entries attrs) (as_content content)

  pub as_content : BinaryContent → Content
  as_content absent = Content.empty
  as_content (text t) = Content.text t
  as_content (buffer bytes) = Content.binary bytes
  as_content (nodes ns) = Content.children (as_nodes ns)
  as_content unsupported = Content.empty

  pub as_nodes : BinaryNodes → Nodes
  as_nodes nil = Nodes.nil
  as_nodes (cons n ns) = Nodes.cons (as_node n) (as_nodes ns)

get-present_entries :
    (attrs : Assoc Text) (key : Text) → get (present_entries attrs) key ≡ lookup key attrs
unfolding get lookup present_entries
get-present_entries [] key = refl
get-present_entries ((k, v) ∷ attrs) key = elim (Bool-cases (text_eq k key)) [
  | inl e ↦ rw e
  | inr e ↦ rw e (get-present_entries attrs key)
]

pub state_name : Elixir.State → Text
state_name Elixir.unavailable = codes "unavailable"
state_name Elixir.available = codes "available"
state_name Elixir.composing = codes "composing"
state_name Elixir.recording = codes "recording"

-- The tags of a chatstate's child for which the program has a clause of its own.
abbrev pub IsChildTag : Text → Type 0
IsChildTag tag =
    (tag ≡ codes "available")
    ⊎ (tag ≡ codes "unavailable")
    ⊎ (tag ≡ codes "paused")
    ⊎ (tag ≡ codes "recording")
    ⊎ (tag ≡ codes "composing")

same_test : (o : Option Text) (t : Text) → attr_is o t ≡ is_text o t
same_test none t = refl
same_test (some value) t = refl

-- The attribute of the time last seen is missing, empty, `deny` or a whole decimal number.
abbrev pub IsLast : Option Text → Type 0
IsLast none = Unit {0}
IsLast (some t) = (t ≡ []) ⊎ (t ≡ codes "deny") ⊎ ((n : ℤ) × (parse_int t ≡ some n))

abbrev pub IsLastOf : Text → Assoc Text → Type 0
IsLastOf tag attrs = text_eq tag (codes "presence") ≡ true → IsLast (lookup (codes "last") attrs)

-- The count that the program reports of a node with these attributes, which the runner leaves out.
abbrev pub counted : Text → Assoc Text → Option ℤ
counted tag attrs =
    if text_eq tag (codes "presence") then integer_attr (lookup (codes "count") attrs) else none

abbrev pub HasKnownTag : BinaryContent → Type 0
HasKnownTag (nodes (cons (binary_node tag attrs c) rest)) = IsChildTag tag
HasKnownTag _ = Unit {0}

-- What is reported of a presence: its name, the time last seen and the count.
abbrev pub Seen : Type 0 → Type 0
Seen N = Text × (Option N × Option ℤ)

-- What is reported of an update: its address, the participant and the presence.
abbrev pub Report : Type 0 → Type 0
Report N = Text × Text × Seen N

-- Whole numbers of the program as numbers of the runner.
module _ {N : Type 0} (of_int : ℤ → N) where
  abbrev pub seen_of : Parsed → Seen N
  seen_of p =
      (state_name p.last_known_presence, (Option.map of_int p.last_seen, p.group_online_count))

  pub report_of : Handled → Option (Report N)
  report_of (updated u) = some (u.id, u.participant, seen_of u.presence)
  report_of ignored = none
  report_of invalid_presence_node = none

-- The report of the runner, with a count.
pub reference_report : {N : Type 0} → Option ℤ → Attempt (PresenceUpdate N) → Option (Report N)
reference_report count (returns u) =
    some (u.id, u.participant, (u.presence.last_known_presence, (u.presence.last_seen, count)))
reference_report count (throws message) = none

module _ {N : Type 0} (b : Baileys N) where
  child-same :
      (tag : Text) (attrs : Assoc Text) (c : BinaryContent)
      → IsChildTag tag
      → state_name (child_presence_type (as_node (binary_node tag attrs c)))
        ≡ child_type b tag attrs
  unfolding state_name child_presence_type child_type as_node text_eq
  child-same tag attrs c h =
      rw (get-present_entries attrs (codes "media"), same_test)
        (elim (Bool-cases (is_text (lookup (codes "media") attrs) (codes "audio"))) [
          | inl e ↦ rw e
          | inr e ↦ rw e (known tag h)
        ])
    where
      known :
          (tag : Text)
          → IsChildTag tag
          → state_name (
              if text_eq tag (codes "available")
              then Elixir.available
              else if text_eq tag (codes "unavailable")
              then Elixir.unavailable
              else if text_eq tag (codes "paused")
              then Elixir.available
              else if text_eq tag (codes "recording")
              then Elixir.recording
              else if text_eq tag (codes "composing")
              then Elixir.composing
              else Elixir.available)
            ≡ (if text_eq tag (codes "paused") then codes "available" else tag)
      known tag (inl e) = rw e refl
      known tag (inr (inl e)) = rw e refl
      known tag (inr (inr (inl e))) = rw e refl
      known tag (inr (inr (inr (inl e)))) = rw e refl
      known tag (inr (inr (inr (inr e)))) = rw e refl

module _ {N : Type 0} (of_int : ℤ → N) where
  abbrev presence_seen : Option Parsed → Option (Seen N)
  presence_seen none = none
  presence_seen (some p) = some (seen_of of_int p)

  abbrev reference_seen : Option ℤ → Attempt (PresenceData N) → Option (Seen N)
  reference_seen count (returns p) = some (p.last_known_presence, (p.last_seen, count))
  reference_seen count (throws message) = none

module _ {N : Type 0} (b : Baileys N) (of_int : ℤ → N)
    (reads : (t : Text) (n : ℤ) → parse_int t ≡ some n → b.to_number t ≡ of_int n) where
  last-same :
      (last : Option Text)
      → IsLast last
      → Option.map of_int (last_seen_attr last) ≡ last_seen_of b last
  unfolding last_seen_attr last_seen_of text_eq parse_int
  last-same none h = refl
  last-same (some []) h = refl
  last-same (some (c ∷ cs)) (inl e) = cc
  last-same (some (c ∷ cs)) (inr (inl e)) =
      subst (λ t. Option.map of_int (last_seen_attr (some t)) ≡ last_seen_of b (some t)) (sym e)
        refl
  last-same (some (c ∷ cs)) (inr (inr (n, e))) =
      elim (Bool-cases (text_eq (c ∷ cs) (codes "deny"))) [
        | inl denied ↦ rw denied refl
        | inr given ↦ rw (given, e, reads (c ∷ cs) n e) refl
      ]

  name-same :
      (attrs : Assoc Text)
      → state_name (parse_available (present_entries attrs)).last_known_presence
        ≡ (available_data b attrs).last_known_presence
  unfolding state_name parse_available available_data
  name-same attrs =
      rw (get-present_entries attrs (codes "type"), same_test)
        (elim (Bool-cases (is_text (lookup (codes "type") attrs) (codes "unavailable"))) [
          | inl e ↦ rw e
          | inr e ↦ rw e
        ])

  available-same :
      (attrs : Assoc Text)
      → IsLast (lookup (codes "last") attrs)
      → presence_seen of_int (some (parse_available (present_entries attrs)))
        ≡ reference_seen of_int
            (integer_attr (lookup (codes "count") attrs))
            (returns (available_data b attrs))
  unfolding parse_available available_data
  available-same attrs h =
      let last : Option.map of_int (last_seen_attr (get (present_entries attrs) (codes "last")))
          ≡ last_seen_of b (lookup (codes "last") attrs) =
        rw (get-present_entries attrs (codes "last")) (last-same (lookup (codes "last") attrs) h) in
      let count = ap integer_attr (get-present_entries attrs (codes "count")) in
      λ i. some (name-same attrs i, (last i, count i))

  data-same :
      (tag : Text) (attrs : Assoc Text) (content : BinaryContent)
      → HasKnownTag content
      → IsLastOf tag attrs
      → presence_seen of_int (parse_presence tag (present_entries attrs) (as_content content))
        ≡ reference_seen of_int (counted tag attrs) (presence_data b tag attrs content)
  unfolding parse_presence presence_data as_node
  data-same tag attrs content h last = elim (Bool-cases (text_eq tag (codes "presence"))) [
    | inl e ↦ is_presence content e
    | inr e ↦ is_chatstate content h e
  ]
    where
      is_presence :
          (content : BinaryContent)
          → text_eq tag (codes "presence") ≡ true
          → presence_seen of_int (parse_presence tag (present_entries attrs) (as_content content))
            ≡ reference_seen of_int (counted tag attrs) (presence_data b tag attrs content)
      is_presence absent e = rw e (available-same attrs (last e))
      is_presence (nodes nil) e = rw e (available-same attrs (last e))
      is_presence (nodes (cons (binary_node child child_attrs c) ns)) e =
          rw e (available-same attrs (last e))
      is_presence (text t) e = rw e (available-same attrs (last e))
      is_presence (buffer bytes) e = rw e (available-same attrs (last e))
      is_presence unsupported e = rw e (available-same attrs (last e))

      is_chatstate :
          (content : BinaryContent)
          → HasKnownTag content
          → text_eq tag (codes "presence") ≡ false
          → presence_seen of_int (parse_presence tag (present_entries attrs) (as_content content))
            ≡ reference_seen of_int (counted tag attrs) (presence_data b tag attrs content)
      is_chatstate absent k e = rw e
      is_chatstate (nodes nil) k e = rw e
      is_chatstate (nodes (cons (binary_node child child_attrs c) ns)) k e =
          rw e (ap (λ name. some (name, (none, none))) (child-same b child child_attrs c k))
      is_chatstate (text t) k e = rw e
      is_chatstate (buffer bytes) k e = rw e
      is_chatstate unsupported k e = rw e

  -- The reports agree once the presences do.
  reports-same :
      (c : ℕ) (cs : Text) (participant : Option Text) (count : Option ℤ) (p : Option Parsed)
      (q : Attempt (PresenceData N))
      → participant ≢ some []
      → presence_seen of_int p ≡ reference_seen of_int count q
      → report_of of_int (report (c ∷ cs) (participant_of participant (c ∷ cs)) p)
        ≡ reference_report count
            (update_from b (some (c ∷ cs)) (or_else (truthy_text participant) (some (c ∷ cs))) q)
  unfolding report_of reference_report truthy_text
  reports-same c cs none count (some p) (returns q) h e =
      ap (λ (o : Option (Seen N)). Option.map (λ seen. (c ∷ cs, c ∷ cs, seen)) o) e
  reports-same c cs none count none (throws m) h e = refl
  reports-same c cs none count (some p) (throws m) h e = cc
  reports-same c cs none count none (returns q) h e = cc
  reports-same c cs (some []) count p q h e = absurd (h refl)
  reports-same c cs (some (d ∷ ds)) count (some p) (returns q) h e =
      ap (λ (o : Option (Seen N)). Option.map (λ seen. (c ∷ cs, d ∷ ds, seen)) o) e
  reports-same c cs (some (d ∷ ds)) count none (throws m) h e = refl
  reports-same c cs (some (d ∷ ds)) count (some p) (throws m) h e = cc
  reports-same c cs (some (d ∷ ds)) count none (returns q) h e = cc

  from-same :
      (tag : Text) (attrs : Assoc Text) (content : BinaryContent) (from : Option Text)
      → lookup (codes "participant") attrs ≢ some []
      → HasKnownTag content
      → IsLastOf tag attrs
      → report_of of_int
          (handle_from (λ _. false) tag (present_entries attrs) (as_content content) from)
        ≡ reference_report (counted tag attrs) (
            update_from b
              (truthy_text from)
              (or_else (truthy_text (lookup (codes "participant") attrs)) (truthy_text from))
              (presence_data b tag attrs content))
  unfolding handle_from truthy_text report_of reference_report
  from-same tag attrs content none p k last = refl
  from-same tag attrs content (some []) p k last = refl
  from-same tag attrs content (some (c ∷ cs)) p k last =
      rw (get-present_entries attrs (codes "participant")) (
        reports-same c cs (lookup (codes "participant") attrs) (counted tag attrs)
          (parse_presence tag (present_entries attrs) (as_content content))
          (presence_data b tag attrs content) p (data-same tag attrs content k last))

  -- Of a presence or chatstate node the two handlers report the same address, participant, presence
  -- and time last seen, or both nothing, and the program reports besides the `count` of a presence
  -- node where it is a whole decimal number. The participant is not the empty text, the first child,
  -- if there are children, has one of the five tags for which the program has a clause, the `last` of
  -- a presence node is missing, empty, `deny` or a whole decimal number, which `Number` reads as that
  -- number, and no address is ignored.
  pub handle_update-parity :
      (tag : Text) (attrs : Assoc Text) (content : BinaryContent)
      → (text_eq tag (codes "presence") || text_eq tag (codes "chatstate")) ≡ true
      → lookup (codes "participant") attrs ≢ some []
      → HasKnownTag content
      → IsLastOf tag attrs
      → report_of of_int (handle_update (λ _. false) (as_node (binary_node tag attrs content)))
        ≡ reference_report
            (counted tag attrs)
            (parse_presence_update b (binary_node tag attrs content))
  unfolding handle_update as_node parse_presence_update
  handle_update-parity tag attrs content t p k last =
      rw (t, get-present_entries attrs (codes "from"))
        (from-same tag attrs content (lookup (codes "from") attrs) p k last)
