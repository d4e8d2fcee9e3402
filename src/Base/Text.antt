-- ===== src/Base/Text.antt =====
-- Binaries and texts: lists of bytes, as an Elixir binary is.
use Prim.Native.Char.{code}
use Prim.Native.String.{String}
use Prim.Native.Nat.{ℕ}
use mathlib.Core.Path.{◌≡◌, refl}
use mathlib.Core.Bool.{Bool, true, false, ◌&&◌, ◌||◌}
use mathlib.Core.List.{List, [], ◌∷◌, ◌++◌}
use mathlib.Core.Option.{Option, none, some}
use mathlib.Core.Logic.{◌≢◌}
use native.Mathlib.Omega.{arith}
use baileys_ex.Base.Tests.{◌==◌, if◌then◌else◌, Bool-cases}
use mathlib.Core.Logic.{inl, inr}

abbrev pub Bytes : Type 0
Bytes = List ℕ

-- A UTF-8 text; the program's texts are valid UTF-8.
abbrev pub Text : Type 0
Text = List ℕ

-- The code points of a literal: its bytes, since the program's literals are ASCII.
abbrev pub codes : String → Text
codes String.[] = []
codes (String.◌∷◌ c s) = code c ∷ codes s

unfoldable pub text_eq : Text → Text → Bool
text_eq [] [] = true
text_eq [] (y ∷ ys) = false
text_eq (x ∷ xs) [] = false
text_eq (x ∷ xs) (y ∷ ys) = x == y && text_eq xs ys

pub text_eq→eq : (xs ys : Text) → text_eq xs ys ≡ true → xs ≡ ys
unfolding text_eq
text_eq→eq [] [] h = refl
text_eq→eq [] (y ∷ ys) h = cc
text_eq→eq (x ∷ xs) [] h = cc
text_eq→eq (x ∷ xs) (y ∷ ys) h = ground (arith, text_eq→eq xs ys)

pub text_eq_self : (xs : Text) → text_eq xs xs ≡ true
unfolding text_eq
text_eq_self [] = refl
text_eq_self (x ∷ xs) = ground (arith, text_eq_self xs)

pub text_eq_ne : (xs ys : Text) → xs ≢ ys → text_eq xs ys ≡ false
text_eq_ne xs ys h = elim (Bool-cases (text_eq xs ys)) [
  | inl e ↦ absurd (h (text_eq→eq xs ys e))
  | inr e ↦ e
]

pub text_eq_flip : (j k : Text) → text_eq j k ≡ false → text_eq k j ≡ false
text_eq_flip j k h = elim (Bool-cases (text_eq k j)) [
  | inl e ↦ let same = text_eq_self k in absurd (cc (rw (← text_eq→eq k j e) at h))
  | inr e ↦ e
]

-- No byte of the text is `sep`.
unfoldable pub lacks : ℕ → Text → Bool
lacks sep [] = true
lacks sep (c ∷ cs) = if c == sep then false else lacks sep cs

-- `String.split(text, sep, parts: 2)`: the part before the first `sep`, and what follows it.
unfoldable pub split_first : ℕ → Text → Text × Option Text
split_first sep [] = ([], none)
split_first sep (c ∷ cs) =
    let (before, after) = split_first sep cs in
    if c == sep then ([], some cs) else (c ∷ before, after)

pub split_first-lacks : (sep : ℕ) (t : Text) → lacks sep t ≡ true → split_first sep t ≡ (t, none)
unfolding split_first lacks
split_first-lacks sep [] h = refl
split_first-lacks sep (c ∷ cs) h = ground (arith, split_first-lacks sep cs)

pub split_first-append :
    (sep : ℕ) (t rest : Text)
    → lacks sep t ≡ true
    → split_first sep (t ++ sep ∷ rest) ≡ (t, some rest)
unfolding split_first lacks
split_first-append sep [] rest h = ground arith
split_first-append sep (c ∷ cs) rest h = ground (arith, split_first-append sep cs rest)

pub lacks-append :
    (sep : ℕ) (s t : Text) → lacks sep s ≡ true → lacks sep t ≡ true → lacks sep (s ++ t) ≡ true
unfolding lacks
lacks-append sep [] t h k = k
lacks-append sep (c ∷ s) t h k = ground (arith, lacks-append sep s t)

-- What stands before the first separator has none.
pub split_first-lacks_before : (sep : ℕ) (t : Text) → lacks sep (split_first sep t).0 ≡ true
unfolding split_first lacks
split_first-lacks_before sep [] = refl
split_first-lacks_before sep (c ∷ cs) = ground (arith, split_first-lacks_before sep cs)

-- A suffix test, `String.ends_with?(text, suffix)`.
unfoldable pub ends_with : Text → Text → Bool
ends_with [] suffix = text_eq [] suffix
ends_with (c ∷ cs) suffix = if text_eq (c ∷ cs) suffix then true else ends_with cs suffix

pub ends_with-append : (t suffix : Text) → ends_with (t ++ suffix) suffix ≡ true
unfolding ends_with
ends_with-append [] [] = text_eq_self []
ends_with-append [] (c ∷ suffix) = rw (text_eq_self (c ∷ suffix))
ends_with-append (c ∷ t) suffix = elim (Bool-cases (text_eq (c ∷ (t ++ suffix)) suffix)) [
  | inl e ↦ rw e
  | inr e ↦ rw e (ends_with-append t suffix)
]

-- A part before a separator lacks what the whole lacks.
pub split_first-lacks_other :
    (sep other : ℕ) (t : Text) → lacks other t ≡ true → lacks other (split_first sep t).0 ≡ true
unfolding split_first lacks
split_first-lacks_other sep other [] h = refl
split_first-lacks_other sep other (c ∷ cs) h = ground (arith, split_first-lacks_other sep other cs)

-- A text that is not split lacks the separator.
pub split_first-none : (sep : ℕ) (t : Text) → (split_first sep t).1 ≡ none → lacks sep t ≡ true
unfolding split_first lacks
split_first-none sep [] h = refl
split_first-none sep (c ∷ cs) h = ground (arith, split_first-none sep cs)

-- One of the texts.
unfoldable pub among : Text → List Text → Bool
among t [] = false
among t (other ∷ ts) = text_eq other t || among t ts
