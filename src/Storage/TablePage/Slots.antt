-- ===== src/Storage/TablePage/Slots.antt =====
-- The header and the slot array of a page, as reads and writes that do not disturb one another.
use franco_db.Prelude.{ℕ, ◌+◌, ◌≤◌, ◌<◌, ◌≡◌, ◌≢◌, ◌⊎◌, inl, arith, ◌∙◌}
use franco_db.Storage.Memory.{
  Bytes, word, read_u32, write_u32, write_u8, read_u32_ext, read_u32-write_u32, write_u32-other,
  write_u8-other,
}
use franco_db.Storage.TablePage.{
  Slot, slot_size, slot_offset, get_tuple_count, get_free_space_pointer, read_slot, write_slot,
}

pub write_slot-other :
    (m : Bytes) (i : ℕ) (s : Slot) (a : ℕ)
    → (a < slot_offset i) ⊎ (slot_offset i + slot_size ≤ a)
    → write_slot m i s a ≡ m a
unfolding write_slot
write_slot-other m i s a h = ground (
  arith,
  write_u8-other (write_u32 (write_u32 m (slot_offset i) s.offset) (slot_offset i + 4) s.size)
      (slot_offset i + 8) s.meta a,
  write_u32-other (write_u32 m (slot_offset i) s.offset) (slot_offset i + 4) s.size a,
  write_u32-other m (slot_offset i) s.offset a,
)

-- A page's reads depend on the bytes that they read.
pub read_slot_ext :
    (m m' : Bytes) (i : ℕ)
    → ((a : ℕ) → slot_offset i ≤ a → a < slot_offset i + slot_size → m' a ≡ m a)
    → read_slot m' i ≡ read_slot m i
unfolding read_slot
read_slot_ext m m' i h = λ k. record {
  offset = read_u32_ext m m' (slot_offset i) (λ a p q. h a p (omega arith)) k;
  size = read_u32_ext m m' (slot_offset i + 4) (λ a p q. h a (omega arith) (omega arith)) k;
  meta = h (slot_offset i + 8) (omega arith) (omega arith) k;
}

pub get_tuple_count_ext :
    (m m' : Bytes)
    → ((a : ℕ) → 16 ≤ a → a < 20 → m' a ≡ m a)
    → get_tuple_count m' ≡ get_tuple_count m
unfolding get_tuple_count
get_tuple_count_ext m m' h = rw (read_u32_ext m m' 16 (λ a p q. h a p q))

pub get_free_space_pointer_ext :
    (m m' : Bytes)
    → ((a : ℕ) → 12 ≤ a → a < 16 → m' a ≡ m a)
    → get_free_space_pointer m' ≡ get_free_space_pointer m
unfolding get_free_space_pointer
get_free_space_pointer_ext m m' h = rw (read_u32_ext m m' 12 (λ a p q. h a p q))

-- A slot that was written reads back.
pub read_slot-write_slot :
    (m : Bytes) (i : ℕ) (s : Slot)
    → s.offset < word
    → s.size < word
    → read_slot (write_slot m i s) i ≡ s
unfolding read_slot write_slot
read_slot-write_slot m i s p q = λ k. record {
  offset = (offset_kept ∙ read_u32-write_u32 m o s.offset p) k;
  size = (size_kept ∙ read_u32-write_u32 m₁ (o + 4) s.size q) k;
  meta = meta_kept k;
}
  where
    o : ℕ
    o = slot_offset i

    m₁ : Bytes
    m₁ = write_u32 m o s.offset

    m₂ : Bytes
    m₂ = write_u32 m₁ (o + 4) s.size

    m₃ : Bytes
    m₃ = write_u8 m₂ (o + 8) s.meta

    offset_kept : read_u32 m₃ o ≡ read_u32 m₁ o
    offset_kept = read_u32_ext m₁ m₃ o (λ a l h.
        write_u8-other m₂ (o + 8) s.meta a (inl (omega arith))
        ∙ write_u32-other m₁ (o + 4) s.size a (inl (omega arith)))

    size_kept : read_u32 m₃ (o + 4) ≡ read_u32 m₂ (o + 4)
    size_kept =
        read_u32_ext m₂ m₃ (o + 4) (λ a l h. write_u8-other m₂ (o + 8) s.meta a (inl (omega arith)))

    meta_kept : m₃ (o + 8) ≡ s.meta
    meta_kept = unfold write_u8 in ground arith

-- Two slots do not overlap.
pub read_slot-write_slot_ne :
    (m : Bytes) (i j : ℕ) (s : Slot) → i ≢ j → read_slot (write_slot m i s) j ≡ read_slot m j
read_slot-write_slot_ne m i j s n =
    read_slot_ext m (write_slot m i s) j (λ a p q. write_slot-other m i s a (apart a p q))
  where
    apart :
        (a : ℕ)
        → slot_offset j ≤ a
        → a < slot_offset j + slot_size
        → (a < slot_offset i) ⊎ (slot_offset i + slot_size ≤ a)
    apart a p q = ground arith
