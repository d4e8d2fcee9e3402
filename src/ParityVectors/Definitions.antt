-- ===== src/ParityVectors/Definitions.antt =====
-- dev/scripts/generate_wam_definitions.mjs: the definitions of telemetry events. What Node.js's `vm`
-- leaves in the sandbox's `globalThis` is a parameter.
use baileys_ex.Base.{[], ◌∷◌, ◌++◌, length, take, drop, if◌then◌else◌}
use baileys_ex.Base.Text.{Text, codes, text_eq}
use baileys_ex.Reference.{
  Attempt, returns, ◌>>=◌, Value, Values, nil, cons, Fields, end, entry, field,
}

-- `source.replace(pattern, replacement)` with a text: the first occurrence is replaced.
unfoldable pub replace : Text → Text → Text → Text
replace pattern replacement [] = []
replace pattern replacement (c ∷ cs) =
    let rest = replace pattern replacement cs in
    if text_eq (take (length pattern) (c ∷ cs)) pattern
    then replacement ++ drop (length pattern) (c ∷ cs)
    else c ∷ rest

-- The replacement of a pattern, and of all that follows it, by nothing.
unfoldable pub cut_from : Text → Text → Text
cut_from pattern [] = []
cut_from pattern (c ∷ cs) =
    let rest = cut_from pattern cs in
    if text_eq (take (length pattern) (c ∷ cs)) pattern then [] else c ∷ rest

unfoldable pub executable_source : Text → Text
unfolding replace cut_from
executable_source source = cut_from (codes "export const FLAG_BYTE =") (
    replace (codes "export const WEB_GLOBALS: Global[] = ") (codes "globalThis.WEB_GLOBALS = ") (
      replace (codes "export const WEB_EVENTS: Event[] = ") (codes "globalThis.WEB_EVENTS = ")
        source))

module _ {N : Type 0} where
  -- What is written as JSON, as the value that is read back; a field that is `undefined` reads as one
  -- that is missing.
  unfoldable pub definitions : Fields N → Value N
  definitions global_this = Value.obj (
      entry (codes "source") (Value.str (codes "dev/reference/Baileys-master/src/WAM/constants.ts"))
        (entry (codes "events") (field (codes "WEB_EVENTS") global_this)
          (entry (codes "globals") (field (codes "WEB_GLOBALS") global_this) end)))

  -- The arguments are the source that is read and `vm.runInNewContext`.
  unfoldable pub generate_wam_definitions : Text → (Text → Attempt (Fields N)) → Attempt (Value N)
  unfolding executable_source definitions
  generate_wam_definitions source run =
      run (executable_source source) >>= λ global_this. returns (definitions global_this)

  -- Two arrays of one length.
  abbrev pub SameLength : Values N → Values N → Type 0
  SameLength nil nil = Unit {0}
  SameLength nil (cons y ys) = ⊥
  SameLength (cons x xs) nil = ⊥
  SameLength (cons x xs) (cons y ys) = SameLength xs ys
