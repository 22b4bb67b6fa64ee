-- ===== src/Common/Tests.antt =====
-- The checksum on a concrete message.
use Prim.Native.Nat.{bit_xor}
use franco_db.Prelude.{ℕ, List, [], ◌∷◌, ◌≡◌, refl, arith}
use franco_db.Common.Crc32.{compute, update, feed, table_entry}
use franco_db.Common.Crc32.Polynomial.{divide_message, compute-divide_message}

-- "123456789", whose checksum is known.
abbrev nine_digits : List ℕ
nine_digits = 49 ∷ 50 ∷ 51 ∷ 52 ∷ 53 ∷ 54 ∷ 55 ∷ 56 ∷ 57 ∷ []

check_value : compute nine_digits ≡ 0xCBF43926
unfolding compute update feed table_entry
check_value = refl

compute-divide_message_example :
    compute (49 ∷ 50 ∷ []) ≡ bit_xor (divide_message 0xFFFFFFFF (49 ∷ 50 ∷ [])) 0xFFFFFFFF
compute-divide_message_example =
    compute-divide_message (49 ∷ 50 ∷ []) (omega arith, (omega arith, tt))
