-- ===== src/LtHash/Tests.antt =====
-- The hash of the application state at concrete updates, with a stand-in for SHA-256 that repeats the
-- first byte.
use baileys_ex.Base.{ℕ, zero, suc, ◌≡◌, refl, List, [], ◌∷◌, ◌++◌, length}
use baileys_ex.Base.Text.{Bytes}
use baileys_ex.Base.Result.{ok, bind}
use baileys_ex.LtHash.{new, subtract_then_add}
use baileys_ex.LtHash.Laws.{IsHash, AreMacs, subtract_then_add-undo, subtract_then_add-append}

abbrev copies : ℕ → ℕ → Bytes
copies zero byte = []
copies (suc n) byte = byte ∷ copies n byte

abbrev first_byte : Bytes → ℕ
first_byte [] = 0
first_byte (byte ∷ bytes) = byte

abbrev repeated : Bytes → Bytes
repeated bytes = copies 32 (first_byte bytes)

repeated-size : (bytes : Bytes) → length (repeated bytes) ≡ 32
repeated-size bytes = refl

abbrev one_mac : List Bytes
one_mac = copies 32 200 ∷ []

abbrev two_macs : List Bytes
two_macs = copies 32 255 ∷ copies 32 9 ∷ []

new-IsHash : IsHash new
new-IsHash = record { size = refl; bytes = refl }

one-AreMacs : AreMacs one_mac
one-AreMacs = (refl, tt)

two-AreMacs : AreMacs two_macs
two-AreMacs = (refl, (refl, tt))

subtract_then_add-undo_example :
    bind
      (subtract_then_add repeated new one_mac two_macs)
      (λ updated. subtract_then_add repeated updated two_macs one_mac)
    ≡ ok new
subtract_then_add-undo_example =
    subtract_then_add-undo repeated repeated-size new one_mac two_macs new-IsHash one-AreMacs
      two-AreMacs

subtract_then_add-append_example :
    bind
      (subtract_then_add repeated new one_mac two_macs)
      (λ updated. subtract_then_add repeated updated two_macs one_mac)
    ≡ subtract_then_add repeated new (one_mac ++ two_macs) (two_macs ++ one_mac)
subtract_then_add-append_example =
    subtract_then_add-append repeated repeated-size new one_mac two_macs two_macs one_mac new-IsHash
      one-AreMacs two-AreMacs two-AreMacs one-AreMacs
