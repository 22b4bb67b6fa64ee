-- ===== src/Storage/FreePages/Bits.antt =====
-- The bits of a byte, checked value by value.
use Prim.Native.Nat.{bit_and, bit_or}
use franco_db.Prelude.{
  ℕ, zero, suc, ◌-◌, ◌/◌, ◌%◌, ◌^◌, ◌<◌, ◌≡◌, refl, Bool, true, false, ◌&&◌, ◌||◌, not, arith, ltb,
  ◌==◌, if◌then◌else◌,
}
use franco_db.Storage.Memory.{Bytes, write_u8}
use franco_db.Storage.FreePages.{bit, used, mark_used, deallocate_page}

abbrev pub same : Bool → Bool → Bool
same true b = b
same false b = not b

below : ℕ → (ℕ → Bool) → Bool
below zero p = true
below (suc n) p = p n && below n p

below_sound : (n : ℕ) (p : ℕ → Bool) (x : ℕ) → below n p ≡ true → x < n → p x ≡ true
unfolding below
below_sound zero p x h lt = absurd (omega arith)
below_sound (suc n) p x h lt = ground (arith, below_sound n p x)

abbrev set_test : ℕ → ℕ → ℕ → Bool
set_test x b c = same (bit (bit_or x (2 ^ b)) c) (if c == b then true else bit x c)

abbrev clear_test : ℕ → ℕ → ℕ → Bool
clear_test x b c = same (bit (bit_and x (255 - 2 ^ b)) c) (if c == b then false else bit x c)

abbrev full_test : ℕ → Bool
full_test x = x == 255 || not (below 8 (λ b. bit x b))

set_table : below 256 (λ x. below 8 (λ b. below 8 (λ c. set_test x b c))) ≡ true
unfolding below bit
set_table = refl

clear_table : below 256 (λ x. below 8 (λ b. below 8 (λ c. clear_test x b c))) ≡ true
unfolding below bit
clear_table = refl

range_table :
    below 256 (λ x. below 8 (λ b. ltb (bit_or x (2 ^ b)) 256 && ltb (bit_and x (255 - 2 ^ b)) 256))
    ≡ true
unfolding below
range_table = refl

full_table : below 256 (λ x. below 8 (λ b. not (x == 255) || bit x b)) ≡ true
unfolding below bit
full_table = refl

same-eq : (a b : Bool) → same a b ≡ true → a ≡ b
same-eq a b h = ground arith

module _ (x b : ℕ) (hx : x < 256) (hb : b < 8) where
  pub bit-set : (c : ℕ) → c < 8 → bit (bit_or x (2 ^ b)) c ≡ (if c == b then true else bit x c)
  bit-set c hc =
      same-eq _ _ (below_sound 8 _ c (below_sound 8 _ b (below_sound 256 _ x set_table hx) hb) hc)

  pub bit-clear :
      (c : ℕ) → c < 8 → bit (bit_and x (255 - 2 ^ b)) c ≡ (if c == b then false else bit x c)
  bit-clear c hc =
      same-eq _ _ (below_sound 8 _ c (below_sound 8 _ b (below_sound 256 _ x clear_table hx) hb) hc)

  pub byte_range : (bit_or x (2 ^ b) < 256) × (bit_and x (255 - 2 ^ b) < 256)
  byte_range =
      let t : (ltb (bit_or x (2 ^ b)) 256 && ltb (bit_and x (255 - 2 ^ b)) 256) ≡ true =
        below_sound 8 _ b (below_sound 256 _ x range_table hx) hb in
      (ground arith, ground arith)

  pub bit-full : x ≡ 255 → bit x b ≡ true
  bit-full e =
      let t : (not (x == 255) || bit x b) ≡ true =
        below_sound 8 _ b (below_sound 256 _ x full_table hx) hb in
      ground arith

-- A page of bytes.
abbrev pub IsBytes : Bytes → Type 0
IsBytes m = (a : ℕ) → m a < 256

-- To mark a page as used, or as free, changes that page's bit and no other.
pub used-mark_used :
    (m : Bytes) (k j : ℕ) → IsBytes m → used (mark_used m k) j ≡ (if j == k then true else used m j)
unfolding used mark_used write_u8
used-mark_used m k j h =
    ground (arith, bit-set (m (k / 8)) (k % 8) (h (k / 8)) (omega arith) (j % 8) (omega arith))

pub used-deallocate_page :
    (m : Bytes) (k j : ℕ)
    → IsBytes m
    → used (deallocate_page m k) j ≡ (if j == k then false else used m j)
unfolding used deallocate_page write_u8
used-deallocate_page m k j h =
    ground (arith, bit-clear (m (k / 8)) (k % 8) (h (k / 8)) (omega arith) (j % 8) (omega arith))

pub mark_used-IsBytes : (m : Bytes) (k : ℕ) → IsBytes m → IsBytes (mark_used m k)
unfolding mark_used write_u8
mark_used-IsBytes m k h a =
    ground (arith, h a, byte_range (m (k / 8)) (k % 8) (h (k / 8)) (omega arith))

pub deallocate_page-IsBytes : (m : Bytes) (k : ℕ) → IsBytes m → IsBytes (deallocate_page m k)
unfolding deallocate_page write_u8
deallocate_page-IsBytes m k h a =
    ground (arith, h a, byte_range (m (k / 8)) (k % 8) (h (k / 8)) (omega arith))
