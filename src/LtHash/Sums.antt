-- ===== src/LtHash/Sums.antt =====
-- The hash of a map: what adding all its value codes to the empty hash gives, and how an entry that is
-- put or deleted changes that.
use mathlib.Core.List.{reverse, reverse-append}
use baileys_ex.Base.{
  ℕ, ◌+◌, ◌-◌, ◌%◌, ◌≡◌, refl, sym, ap, ◌∙◌, inl, inr, List, [], ◌∷◌, map, length, arith, some,
  none, Bool-cases,
}
use baileys_ex.Base.Text.{Text, Bytes, text_eq}
use baileys_ex.Base.Assoc.{Assoc, lookup, put, delete, values}
use baileys_ex.LtHash.{add_uint16s, subtract_uint16s}
use baileys_ex.LtHash.Words.{
  IsState, run, run-append, add-add, subtract-add_same, subtract-run_add, add-IsState,
  run_add-IsState, HaveSize,
}

-- Additions and subtractions commute.
pub add-run_add :
    (ws : List (List ℕ)) (h b : List ℕ)
    → add_uint16s (run add_uint16s ws h) b ≡ run add_uint16s ws (add_uint16s h b)
unfolding run
add-run_add [] h b = refl
add-run_add (a ∷ ws) h b =
    add-run_add ws (add_uint16s h a) b ∙ ap (run add_uint16s ws) (add-add h a b)

subtract-subtract :
    (h a b : List ℕ)
    → subtract_uint16s (subtract_uint16s h a) b ≡ subtract_uint16s (subtract_uint16s h b) a
unfolding subtract_uint16s
subtract-subtract [] a b = refl
subtract-subtract (x ∷ h) [] [] = refl
subtract-subtract (x ∷ h) [] (z ∷ b) = refl
subtract-subtract (x ∷ h) (y ∷ a) [] = refl
subtract-subtract (x ∷ h) (y ∷ a) (z ∷ b) =
    let head : ((x + (65536 - y % 65536)) % 65536 + (65536 - z % 65536)) % 65536
        ≡ ((x + (65536 - z % 65536)) % 65536 + (65536 - y % 65536)) % 65536 =
      omega arith in
    rw (head, subtract-subtract h a b)

pub subtract-run_subtract :
    (ws : List (List ℕ)) (h b : List ℕ)
    → subtract_uint16s (run subtract_uint16s ws h) b
      ≡ run subtract_uint16s ws (subtract_uint16s h b)
unfolding run
subtract-run_subtract [] h b = refl
subtract-run_subtract (a ∷ ws) h b =
    subtract-run_subtract ws (subtract_uint16s h a) b
    ∙ ap (run subtract_uint16s ws) (subtract-subtract h a b)

-- The order of the list does not matter.
pub run-reverse :
    (apply : List ℕ → List ℕ → List ℕ)
    → ((ws : List (List ℕ)) (h b : List ℕ) → apply (run apply ws h) b ≡ run apply ws (apply h b))
    → (ws : List (List ℕ)) (h : List ℕ) → run apply (reverse ws) h ≡ run apply ws h
unfolding run
run-reverse apply commutes [] h = refl
run-reverse apply commutes (a ∷ ws) h =
    ap (λ l. run apply l h) (reverse-append (a ∷ []) ws)
    ∙ run-append apply (reverse ws) (a ∷ []) h
    ∙ ap (λ v. apply v a) (run-reverse apply commutes ws h)
    ∙ commutes ws h a

module _ (words : Bytes → List ℕ) (n : ℕ) (sized : (b : Bytes) → length (words b) ≡ n) where
  all-HaveSize : (bs : List Bytes) → HaveSize n (map words bs)
  all-HaveSize [] = tt
  all-HaveSize (b ∷ bs) = (sized b, all-HaveSize bs)

  unfoldable pub total : Assoc Bytes → List ℕ → List ℕ
  total m h = run add_uint16s (map words (values m)) h

  pub total-IsState : (m : Assoc Bytes) (h : List ℕ) → IsState n h → IsState n (total m h)
  unfolding total
  total-IsState m h s = run_add-IsState n (map words (values m)) h (all-HaveSize (values m)) s

  total-add :
      (m : Assoc Bytes) (h b : List ℕ) → total m (add_uint16s h b) ≡ add_uint16s (total m h) b
  unfolding total
  total-add m h b = sym (add-run_add (map words (values m)) h b)

  total-subtract :
      (m : Assoc Bytes) (h b : List ℕ)
      → total m (subtract_uint16s h b) ≡ subtract_uint16s (total m h) b
  unfolding total
  total-subtract m h b = sym (subtract-run_add (map words (values m)) h b)

  total-cons :
      (j : Text) (w : Bytes) (m : Assoc Bytes) (h : List ℕ)
      → total ((j, w) ∷ m) h ≡ total m (add_uint16s h (words w))
  unfolding total values run
  total-cons j w m h = refl

  -- To replace a first entry is to add the new code and subtract the old one.
  total-replaced :
      (v w : Bytes) (m : Assoc Bytes) (h : List ℕ)
      → IsState n h
      → total m (add_uint16s h (words v))
        ≡ subtract_uint16s (add_uint16s (total m (add_uint16s h (words w))) (words v)) (words w)
  total-replaced v w m h s =
      let added = add-IsState n h (words v) s.size (sized v) in
      sym (
        ap (λ t. subtract_uint16s t (words w))
          (sym (total-add m (add_uint16s h (words w)) (words v)))
        ∙ sym (total-subtract m (add_uint16s (add_uint16s h (words w)) (words v)) (words w))
        ∙ ap (total m) (
            ap (λ t. subtract_uint16s t (words w)) (add-add h (words w) (words v))
            ∙ subtract-add_same (add_uint16s h (words v)) (words w)
                (omega (arith, added.size, sized w)) added.words))

  pub total-put_new :
      (k : Text) (v : Bytes) (m : Assoc Bytes) (h : List ℕ)
      → lookup k m ≡ none
      → total (put k v m) h ≡ add_uint16s (total m h) (words v)
  unfolding total values put lookup run
  total-put_new k v [] h e = refl
  total-put_new k v ((j, w) ∷ m) h e = elim (Bool-cases (text_eq j k)) [
    | inl same ↦ cc (rw same at e)
    | inr other ↦ rw other (total-put_new k v m (add_uint16s h (words w)) (rw other at e))
  ]

  pub total-put_old :
      (k : Text) (v p : Bytes) (m : Assoc Bytes) (h : List ℕ)
      → IsState n h
      → lookup k m ≡ some p
      → total (put k v m) h ≡ subtract_uint16s (add_uint16s (total m h) (words v)) (words p)
  unfolding values put lookup
  total-put_old k v p [] h s e = cc
  total-put_old k v p ((j, w) ∷ m) h s e = elim (Bool-cases (text_eq j k)) [
    | inl same ↦
        let here : w ≡ p = cc (rw same at e) in
        rw same (
          total-cons k v m h
          ∙ total-replaced v w m h s
          ∙ ap (λ t. subtract_uint16s (add_uint16s t (words v)) (words w))
              (sym (total-cons j w m h))
          ∙ ap (λ t. subtract_uint16s (add_uint16s (total ((j, w) ∷ m) h) (words v)) (words t))
              here)
    | inr other ↦ rw other (
        total-cons j w (put k v m) h
        ∙ total-put_old k v p m (add_uint16s h (words w))
            (add-IsState n h (words w) s.size (sized w)) (rw other at e)
        ∙ ap (λ t. subtract_uint16s (add_uint16s t (words v)) (words p)) (sym (total-cons j w m h)))
  ]

  pub total-delete :
      (k : Text) (p : Bytes) (m : Assoc Bytes) (h : List ℕ)
      → IsState n h
      → lookup k m ≡ some p
      → total (delete k m) h ≡ subtract_uint16s (total m h) (words p)
  unfolding values delete lookup
  total-delete k p [] h s e = cc
  total-delete k p ((j, w) ∷ m) h s e = elim (Bool-cases (text_eq j k)) [
    | inl same ↦
        let here : w ≡ p = cc (rw same at e) in
        rw same (
          ap (total m)
            (sym (subtract-add_same h (words w) (omega (arith, s.size, sized w)) s.words))
          ∙ total-subtract m (add_uint16s h (words w)) (words w)
          ∙ ap (λ t. subtract_uint16s t (words w)) (sym (total-cons j w m h))
          ∙ ap (λ t. subtract_uint16s (total ((j, w) ∷ m) h) (words t)) here)
    | inr other ↦ rw other (
        total-cons j w (delete k m) h
        ∙ total-delete k p m (add_uint16s h (words w)) (add-IsState n h (words w) s.size (sized w))
            (rw other at e)
        ∙ ap (λ t. subtract_uint16s t (words p)) (sym (total-cons j w m h)))
  ]
