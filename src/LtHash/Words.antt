-- ===== src/LtHash/Words.antt =====
-- Lemmas on lists of 16-bit words that are added and subtracted.
use baileys_ex.Base.{
  ℕ, zero, suc, ◌+◌, ◌-◌, ◌%◌, ◌<◌, ◌≡◌, refl, sym, ap, ◌∙◌, List, [], ◌∷◌, ◌++◌, all, ltb, ltb→lt,
  lt→ltb, true, false, Bool, ◌&&◌, length, arith,
}
use baileys_ex.LtHash.{add_uint16s, subtract_uint16s}

pub and-true : (a b : Bool) → (a && b) ≡ true → (a ≡ true) × (b ≡ true)
and-true true true h = (refl, refl)
and-true true false h = cc
and-true false b h = cc

-- Operations at one word commute.
pub add-add : (h a b : List ℕ) → add_uint16s (add_uint16s h a) b ≡ add_uint16s (add_uint16s h b) a
unfolding add_uint16s
add-add [] a b = refl
add-add (x ∷ h) [] [] = refl
add-add (x ∷ h) [] (z ∷ b) = refl
add-add (x ∷ h) (y ∷ a) [] = refl
add-add (x ∷ h) (y ∷ a) (z ∷ b) =
    let head : ((x + y) % 65536 + z) % 65536 ≡ ((x + z) % 65536 + y) % 65536 = omega arith in
    rw (head, add-add h a b)

pub subtract-add :
    (h a b : List ℕ) → subtract_uint16s (add_uint16s h a) b ≡ add_uint16s (subtract_uint16s h b) a
unfolding add_uint16s subtract_uint16s
subtract-add [] a b = refl
subtract-add (x ∷ h) [] [] = refl
subtract-add (x ∷ h) [] (z ∷ b) = refl
subtract-add (x ∷ h) (y ∷ a) [] = refl
subtract-add (x ∷ h) (y ∷ a) (z ∷ b) =
    let head : ((x + y) % 65536 + (65536 - z % 65536)) % 65536
        ≡ ((x + (65536 - z % 65536)) % 65536 + y) % 65536 =
      omega arith in
    rw (head, subtract-add h a b)

-- A state of `n` words of 16 bits.
pub record IsState (n : ℕ) (h : List ℕ) : Type 0 where
  pub size : length h ≡ n
  pub words : all (λ x. ltb x 65536) h ≡ true

pub subtract-add_same :
    (h a : List ℕ)
    → length h ≡ length a
    → all (λ x. ltb x 65536) h ≡ true
    → subtract_uint16s (add_uint16s h a) a ≡ h
unfolding add_uint16s subtract_uint16s
subtract-add_same [] a l w = refl
subtract-add_same (x ∷ h) [] l w = absurd (omega arith)
subtract-add_same (x ∷ h) (y ∷ a) l w =
    let (small, more) = and-true (ltb x 65536) (all (λ z. ltb z 65536) h) w in
    let bound : x < 65536 = ltb→lt x 65536 small in
    let head : ((x + y) % 65536 + (65536 - y % 65536)) % 65536 ≡ x = omega arith in
    rw (head, subtract-add_same h a (omega arith) more)

pub add-subtract_same :
    (h a : List ℕ)
    → length h ≡ length a
    → all (λ x. ltb x 65536) h ≡ true
    → add_uint16s (subtract_uint16s h a) a ≡ h
unfolding add_uint16s subtract_uint16s
add-subtract_same [] a l w = refl
add-subtract_same (x ∷ h) [] l w = absurd (omega arith)
add-subtract_same (x ∷ h) (y ∷ a) l w =
    let (small, more) = and-true (ltb x 65536) (all (λ z. ltb z 65536) h) w in
    let bound : x < 65536 = ltb→lt x 65536 small in
    let head : ((x + (65536 - y % 65536)) % 65536 + y) % 65536 ≡ x = omega arith in
    rw (head, add-subtract_same h a (omega arith) more)

-- A list operation from the left.
unfoldable pub run : (List ℕ → List ℕ → List ℕ) → List (List ℕ) → List ℕ → List ℕ
run apply [] h = h
run apply (a ∷ ws) h = run apply ws (apply h a)

pub run-append :
    (apply : List ℕ → List ℕ → List ℕ) (ws bs : List (List ℕ)) (h : List ℕ)
    → run apply (ws ++ bs) h ≡ run apply bs (run apply ws h)
unfolding run
run-append apply [] bs h = refl
run-append apply (a ∷ ws) bs h = run-append apply ws bs (apply h a)

pub subtract-run_add :
    (ws : List (List ℕ)) (h b : List ℕ)
    → subtract_uint16s (run add_uint16s ws h) b ≡ run add_uint16s ws (subtract_uint16s h b)
unfolding run
subtract-run_add [] h b = refl
subtract-run_add (a ∷ ws) h b =
    subtract-run_add ws (add_uint16s h a) b ∙ ap (run add_uint16s ws) (subtract-add h a b)

pub run_subtract-run_add :
    (ws bs : List (List ℕ)) (h : List ℕ)
    → run subtract_uint16s bs (run add_uint16s ws h)
      ≡ run add_uint16s ws (run subtract_uint16s bs h)
unfolding run
run_subtract-run_add ws [] h = refl
run_subtract-run_add ws (b ∷ bs) h =
    ap (run subtract_uint16s bs) (subtract-run_add ws h b)
    ∙ run_subtract-run_add ws bs (subtract_uint16s h b)

-- Words of the expected number.
abbrev pub HaveSize : ℕ → List (List ℕ) → Type 0
HaveSize n [] = Unit {0}
HaveSize n (a ∷ ws) = (length a ≡ n) × HaveSize n ws

pub mod_small : (n : ℕ) → ltb (n % 65536) 65536 ≡ true
mod_small n = lt→ltb (n % 65536) 65536 (omega arith)

pub add-IsState : (n : ℕ) (h a : List ℕ) → length h ≡ n → length a ≡ n → IsState n (add_uint16s h a)
unfolding add_uint16s
add-IsState n [] a k l = record { size = k; words = refl }
add-IsState n (x ∷ h) [] k l = absurd (omega arith)
add-IsState zero (x ∷ h) (y ∷ a) k l = absurd (omega arith)
add-IsState (suc n) (x ∷ h) (y ∷ a) k l =
    let rest = add-IsState n h a (omega arith) (omega arith) in
    record { size = ap suc rest.size; words = rw (mod_small (x + y)) rest.words }

pub subtract-IsState :
    (n : ℕ) (h a : List ℕ) → length h ≡ n → length a ≡ n → IsState n (subtract_uint16s h a)
unfolding subtract_uint16s
subtract-IsState n [] a k l = record { size = k; words = refl }
subtract-IsState n (x ∷ h) [] k l = absurd (omega arith)
subtract-IsState zero (x ∷ h) (y ∷ a) k l = absurd (omega arith)
subtract-IsState (suc n) (x ∷ h) (y ∷ a) k l =
    let rest = subtract-IsState n h a (omega arith) (omega arith) in
    record { size = ap suc rest.size; words = rw (mod_small (x + (65536 - y % 65536))) rest.words }

pub run_add-IsState :
    (n : ℕ) (ws : List (List ℕ)) (h : List ℕ)
    → HaveSize n ws
    → IsState n h
    → IsState n (run add_uint16s ws h)
unfolding run
run_add-IsState n [] h k s = s
run_add-IsState n (a ∷ ws) h (k, ks) s =
    run_add-IsState n ws (add_uint16s h a) ks (add-IsState n h a s.size k)

pub run_subtract-IsState :
    (n : ℕ) (ws : List (List ℕ)) (h : List ℕ)
    → HaveSize n ws
    → IsState n h
    → IsState n (run subtract_uint16s ws h)
unfolding run
run_subtract-IsState n [] h k s = s
run_subtract-IsState n (a ∷ ws) h (k, ks) s =
    run_subtract-IsState n ws (subtract_uint16s h a) ks (subtract-IsState n h a s.size k)

pub add-run_subtract :
    (ws : List (List ℕ)) (h b : List ℕ)
    → add_uint16s (run subtract_uint16s ws h) b ≡ run subtract_uint16s ws (add_uint16s h b)
unfolding run
add-run_subtract [] h b = refl
add-run_subtract (a ∷ ws) h b =
    add-run_subtract ws (subtract_uint16s h a) b
    ∙ ap (run subtract_uint16s ws) (sym (subtract-add h b a))

-- Subtracting what was added, in the same order, and adding what was subtracted.
pub run_subtract-run_add_same :
    (n : ℕ) (ws : List (List ℕ)) (h : List ℕ)
    → HaveSize n ws
    → IsState n h
    → run subtract_uint16s ws (run add_uint16s ws h) ≡ h
unfolding run
run_subtract-run_add_same n [] h k s = refl
run_subtract-run_add_same n (a ∷ ws) h (k, ks) s =
    ap (run subtract_uint16s ws) (
      subtract-run_add ws (add_uint16s h a) a
      ∙ ap (run add_uint16s ws) (subtract-add_same h a (omega (arith, s.size)) s.words))
    ∙ run_subtract-run_add_same n ws h ks s

pub run_add-run_subtract_same :
    (n : ℕ) (ws : List (List ℕ)) (h : List ℕ)
    → HaveSize n ws
    → IsState n h
    → run add_uint16s ws (run subtract_uint16s ws h) ≡ h
unfolding run
run_add-run_subtract_same n [] h k s = refl
run_add-run_subtract_same n (a ∷ ws) h (k, ks) s =
    ap (run add_uint16s ws) (
      add-run_subtract ws (subtract_uint16s h a) a
      ∙ ap (run subtract_uint16s ws) (add-subtract_same h a (omega (arith, s.size)) s.words))
    ∙ run_add-run_subtract_same n ws h ks s
