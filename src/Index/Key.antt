-- ===== src/Index/Key.antt =====
-- GenericKey<8> of src/include/storage/index/index_key.h for a value of type INTEGER, and its
-- comparator: the key's bytes are those of the number in memory, the lowest first, and memcmp
-- compares them from the first on.
use franco_db.Prelude.{
  ℕ, ◌*◌, ◌/◌, ◌%◌, ◌<◌, ◌≡◌, ℤ, pos, negsuc, List, [], ◌∷◌, ltb, ◌==◌, if◌then◌else◌, arith, Bool,
  true, false,
}

-- SetFromValue, for a number that is not negative.
unfoldable pub key_of_integer : ℕ → List ℕ
key_of_integer n =
    n % 256 ∷ n / 256 % 256 ∷ n / 65536 % 256 ∷ n / 16777216 % 256 ∷ 0 ∷ 0 ∷ 0 ∷ 0 ∷ []

-- memcmp(a, b, 8) < 0
unfoldable pub before : List ℕ → List ℕ → Bool
before [] _ = false
before _ [] = false
before (a ∷ x) (b ∷ y) = if ltb a b then true else (if a == b then before x y else false)

-- GenericComparator
unfoldable pub compare_keys : List ℕ → List ℕ → ℤ
unfolding before
compare_keys x y = if before x y then negsuc 0 else (if before y x then pos 1 else pos 0)

-- The keys of numbers are not in the order of the numbers: for a multiple of 256 below 2^31 and a
-- number from 1 to 255, the comparator puts the key of the multiple first.
pub compare_keys-key_of_integer :
    (a m : ℕ)
    → 0 < a
    → a < 256
    → m < 8388608
    → compare_keys (key_of_integer (m * 256)) (key_of_integer a) ≡ negsuc 0
unfolding compare_keys before key_of_integer
compare_keys-key_of_integer a m h l b = ground (arith, first m, small a l)
  where
    first : (m : ℕ) → m * 256 % 256 ≡ 0
    first m = omega arith

    small : (a : ℕ) → a < 256 → a % 256 ≡ a
    small a l = omega (arith, l)
