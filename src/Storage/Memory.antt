-- ===== src/Storage/Memory.antt =====
-- The bytes of a page, and what `memcpy` of a little-endian 32-bit word or of a byte string does to
-- them (src/storage/table/table_page.cpp reads and writes its header and slots so).
use franco_db.Prelude.{
  ℕ, zero, suc, ◌+◌, ◌-◌, ◌*◌, ◌/◌, ◌%◌, ◌≤◌, ◌<◌, ℤ, pos, negsuc, ◌≡◌, refl, ◌⊎◌, List, [], ◌∷◌,
  arith, length, ltb, ◌==◌, if◌then◌else◌, ◌∙◌,
}
use mathlib.Core.Path.{ap₂}

abbrev pub Bytes : Type 0
Bytes = ℕ → ℕ

-- 2 ^ 32
abbrev pub word : ℕ
word = 4294967296

unfoldable pub read_u32 : Bytes → ℕ → ℕ
read_u32 m o = m o + 256 * m (o + 1) + 65536 * m (o + 2) + 16777216 * m (o + 3)

unfoldable pub write_u32 : Bytes → ℕ → ℕ → Bytes
write_u32 m o v a =
    if a == o
    then v % 256
    else (if a == o + 1
        then v / 256 % 256
        else (if a == o + 2
            then v / 65536 % 256
            else (if a == o + 3 then v / 16777216 % 256 else m a)))

unfoldable pub write_u8 : Bytes → ℕ → ℕ → Bytes
write_u8 m o v a = if a == o then v else m a

-- `memcpy(m + o, bytes, length)`
unfoldable pub copy : Bytes → ℕ → List ℕ → Bytes
copy m o [] a = m a
copy m o (b ∷ bs) a = if a == o then b else copy m (o + 1) bs a

-- The `n` bytes from offset `o` on.
unfoldable pub slice : Bytes → ℕ → ℕ → List ℕ
slice m o zero = []
slice m o (suc n) = m o ∷ slice m (o + 1) n

-- An int32_t as the word that holds it, and back.
unfoldable pub to_word : ℤ → ℕ
to_word (pos n) = n
to_word (negsuc n) = word - 1 - n

unfoldable pub of_word : ℕ → ℤ
of_word w = if ltb w 2147483648 then pos w else negsuc (word - 1 - w)

abbrev pub Int32 : ℤ → Type 0
Int32 (pos n) = n < 2147483648
Int32 (negsuc n) = n < 2147483648

pub of_word-to_word : (x : ℤ) → Int32 x → of_word (to_word x) ≡ x
unfolding of_word to_word
of_word-to_word (pos n) h = ground arith
of_word-to_word (negsuc n) h = ground arith

pub to_word-lt : (x : ℤ) → Int32 x → to_word x < word
unfolding to_word
to_word-lt (pos n) h = omega arith
to_word-lt (negsuc n) h = omega arith

-- Where a write leaves the bytes alone.
pub write_u32-other : (m : Bytes) (o v a : ℕ) → (a < o) ⊎ (o + 4 ≤ a) → write_u32 m o v a ≡ m a
unfolding write_u32
write_u32-other m o v a h = ground arith

pub write_u8-other : (m : Bytes) (o v a : ℕ) → (a < o) ⊎ (o + 1 ≤ a) → write_u8 m o v a ≡ m a
unfolding write_u8
write_u8-other m o v a h = ground arith

pub copy-other :
    (m : Bytes) (o : ℕ) (bs : List ℕ) (a : ℕ) → (a < o) ⊎ (o + length bs ≤ a) → copy m o bs a ≡ m a
unfolding copy
copy-other m o [] a h = refl
copy-other m o (b ∷ bs) a h = ground (arith, copy-other m (o + 1) bs a)

pub read_u32-write_u32 : (m : Bytes) (o v : ℕ) → v < word → read_u32 (write_u32 m o v) o ≡ v
unfolding read_u32 write_u32
read_u32-write_u32 m o v h = ground arith

-- A read sees its four bytes only.
pub read_u32_ext :
    (m m' : Bytes) (o : ℕ)
    → ((a : ℕ) → o ≤ a → a < o + 4 → m' a ≡ m a)
    → read_u32 m' o ≡ read_u32 m o
unfolding read_u32
read_u32_ext m m' o h = omega (
  arith,
  h o (omega arith) (omega arith),
  h (o + 1) (omega arith) (omega arith),
  h (o + 2) (omega arith) (omega arith),
  h (o + 3) (omega arith) (omega arith),
)

pub slice_ext :
    (m m' : Bytes) (o n : ℕ)
    → ((a : ℕ) → o ≤ a → a < o + n → m' a ≡ m a)
    → slice m' o n ≡ slice m o n
unfolding slice
slice_ext m m' o zero h = refl
slice_ext m m' o (suc n) h =
    ap₂ ◌∷◌ (h o (omega arith) (omega arith))
      (slice_ext m m' (o + 1) n (λ a p q. h a (omega arith) (omega arith)))

copy-at : (m : Bytes) (o b : ℕ) (bs : List ℕ) → copy m o (b ∷ bs) o ≡ b
unfolding copy
copy-at m o b bs = ground arith

pub slice-copy : (m : Bytes) (o : ℕ) (bs : List ℕ) → slice (copy m o bs) o (length bs) ≡ bs
unfolding slice
slice-copy m o [] = refl
slice-copy m o (b ∷ bs) = ap₂ ◌∷◌ (copy-at m o b bs) (
    slice_ext (copy m (o + 1) bs) (copy m o (b ∷ bs)) (o + 1) (length bs)
      (λ a p q. unfold copy in ground arith)
    ∙ slice-copy m (o + 1) bs)
