-- ===== src/Storage/TablePage/Insert.antt =====
-- InsertTuple of table_page.cpp: the page stays well formed, the new row reads back, and the other
-- rows are as they were.
pub mod Rows
use franco_db.Prelude.{
  ℕ, suc, ◌+◌, ◌-◌, ◌*◌, ◌%◌, ◌≤◌, ◌<◌, ℤ, ◌≡◌, refl, sym, ◌≢◌, ◌⊎◌, inl, inr, Bool, true, false,
  ◌||◌, Option, none, some, List, arith, length, take, take-length, ltb, leb, ◌==◌, if◌then◌else◌,
  ap, ◌∙◌, Bool-cases,
}
use franco_db.Storage.Memory.{
  Bytes, word, read_u32, write_u32, copy, slice, read_u32_ext, read_u32-write_u32, write_u32-other,
  copy-other, slice_ext, slice-copy,
}
use franco_db.Storage.TablePage.{
  TablePage, Slot, Rid, page_size, size_header, slot_size, slot_offset, get_tuple_count,
  get_free_space_pointer, get_free_space_remaining, read_slot, write_slot, place, insert_tuple,
  readable, get_tuple, deleted,
}
use franco_db.Storage.TablePage.Slots.{
  write_slot-other, read_slot_ext, read_slot-write_slot, read_slot-write_slot_ne,
  get_tuple_count_ext, get_free_space_pointer_ext,
}

-- The slot array ends below the free-space pointer, and each row lies above it, within the page.
pub record IsValid (m : Bytes) : Type 0 where
  pub counted : read_u32 m 16 ≤ 452
  pub pointed : read_u32 m 12 ≤ page_size
  pub room : slot_offset (read_u32 m 16) ≤ read_u32 m 12
  pub rows :
      (i : ℕ)
      → i < read_u32 m 16
      → (read_u32 m 12 ≤ (read_slot m i).offset)
        × ((read_slot m i).offset + (read_slot m i).size ≤ page_size)

pub count_lem : (m : Bytes) → IsValid m → get_tuple_count m ≡ read_u32 m 16
unfolding get_tuple_count
count_lem m v = ground (arith, v.counted)

pub pointer_lem : (m : Bytes) → IsValid m → get_free_space_pointer m ≡ read_u32 m 12
unfolding get_free_space_pointer
pointer_lem m v = ground (arith, v.room, v.pointed)

pub remaining_lem :
    (m : Bytes)
    → IsValid m
    → get_free_space_remaining m + slot_offset (read_u32 m 16) ≡ read_u32 m 12
unfolding get_free_space_remaining
remaining_lem m v = ground (arith, v.room, count_lem m v, pointer_lem m v)

-- `place` with its pointer and its count worked out.
placed : Bytes → List ℕ → ℕ → ℕ → Bytes
placed m tuple ptr count =
    write_u32
      (write_slot (copy (write_u32 m 12 ptr) ptr tuple) count
        (record { offset = ptr; size = length tuple; meta = 0 }))
      16 (count + 1)

module _ (m : Bytes) (tuple : List ℕ) (v : IsValid m)
    (fits : length tuple + slot_size ≤ get_free_space_remaining m) where
  new_ptr : ℕ
  new_ptr = read_u32 m 12 - length tuple

  count : ℕ
  count = read_u32 m 16

  count_eq : read_u32 m 16 ≡ count
  unfolding count
  count_eq = refl

  bounds :
      (slot_offset count + slot_size ≤ new_ptr)
      × (new_ptr + length tuple ≡ read_u32 m 12)
      × (count < 452)
  unfolding new_ptr count
  bounds = (
    omega (arith, remaining_lem m v, v.pointed),
    omega (arith, remaining_lem m v, v.pointed),
    omega (arith, remaining_lem m v, v.pointed),
  )

  data_written : Bytes
  data_written = copy (write_u32 m 12 new_ptr) new_ptr tuple

  slot_written : Bytes
  slot_written =
      write_slot data_written count (record { offset = new_ptr; size = length tuple; meta = 0 })

  after : Bytes
  after = placed m tuple new_ptr count

  data_written-other :
      (a : ℕ) → (a < 12) ⊎ ((16 ≤ a) × (a < new_ptr)) ⊎ (read_u32 m 12 ≤ a) → data_written a ≡ m a
  unfolding data_written
  data_written-other a h = ground (
    arith,
    bounds,
    copy-other (write_u32 m 12 new_ptr) new_ptr tuple a,
    write_u32-other m 12 new_ptr a,
  )

  -- Outside the header's last words, the new slot and the new row no byte changes.
  after-other :
      (a : ℕ)
      → (a < 12) ⊎ ((20 ≤ a) × (a < slot_offset count)) ⊎ (read_u32 m 12 ≤ a)
      → after a ≡ m a
  unfolding after placed slot_written data_written
  after-other a h = ground (
    arith,
    bounds,
    data_written-other a,
    write_slot-other data_written count (record { offset = new_ptr; size = length tuple; meta = 0 })
        a,
    write_u32-other slot_written 16 (count + 1) a,
  )

  after-count : read_u32 after 16 ≡ count + 1
  unfolding after placed slot_written data_written
  after-count = read_u32-write_u32 slot_written 16 (count + 1) (omega (arith, bounds))

  after-pointer : read_u32 after 12 ≡ new_ptr
  unfolding after placed slot_written data_written
  after-pointer =
      read_u32_ext (write_u32 m 12 new_ptr) after 12 (λ a p q.
        write_u32-other slot_written 16 (count + 1) a (inl q)
        ∙ write_slot-other data_written count _ a (inl (omega arith))
        ∙ copy-other (write_u32 m 12 new_ptr) new_ptr tuple a (inl (omega (arith, bounds))))
      ∙ read_u32-write_u32 m 12 new_ptr (omega (arith, bounds, v.pointed))

  after-slot_new :
      read_slot after count ≡ record { offset = new_ptr; size = length tuple; meta = 0 }
  unfolding after placed slot_written data_written
  after-slot_new =
      read_slot_ext slot_written after count
        (λ a p q. write_u32-other slot_written 16 (count + 1) a (inr (omega arith)))
      ∙ read_slot-write_slot data_written count _ (omega (arith, bounds, v.pointed))
          (omega (arith, bounds, v.pointed))

  after-slot_old : (i : ℕ) → i < count → read_slot after i ≡ read_slot m i
  after-slot_old i h =
      read_slot_ext m after i (λ a p q. after-other a (inr (inl (omega arith, omega arith))))

  after-row_new : slice after new_ptr (length tuple) ≡ tuple
  unfolding after placed slot_written data_written
  after-row_new =
      slice_ext data_written after new_ptr (length tuple) (λ a p q.
        write_u32-other slot_written 16 (count + 1) a (inr (omega (arith, bounds)))
        ∙ write_slot-other data_written count _ a (inr (omega (arith, bounds))))
      ∙ slice-copy (write_u32 m 12 new_ptr) new_ptr tuple

  after-row_old : (o n : ℕ) → read_u32 m 12 ≤ o → slice after o n ≡ slice m o n
  after-row_old o n h = slice_ext m after o n (λ a p q. after-other a (inr (inr (omega arith))))

  after-IsValid : IsValid after
  after-IsValid = record {
    counted = omega (arith, bounds, after-count);
    pointed = omega (arith, bounds, after-pointer, v.pointed);
    room = omega (arith, bounds, after-count, after-pointer);
    rows = λ i h. ground (
      arith,
      Bool-cases (i == count),
      ap (λ (s : Slot). s.offset) after-slot_new,
      ap (λ (s : Slot). s.size) after-slot_new,
      after-count,
      after-pointer,
      bounds,
      v.pointed,
      after-slot_old i,
      v.rows i,
      count_eq,
    );
  }

  place-after : place m tuple (length tuple) ≡ after
  unfolding place after placed data_written
  place-after = rw (pointer_worked, take-length tuple, count_worked, step_worked)
    where
      pointer_worked : (get_free_space_pointer m + word - length tuple) % word ≡ new_ptr
      pointer_worked = ground (arith, pointer_lem m v, bounds, v.pointed)

      count_worked : get_tuple_count data_written ≡ count
      count_worked =
          get_tuple_count_ext m data_written
            (λ a p q. data_written-other a (inr (inl (p, omega (arith, bounds)))))
          ∙ count_lem m v
          ∙ count_eq

      step_worked : (count + 1) % word ≡ count + 1
      step_worked = omega (arith, bounds)

  -- What the new page's rows read.
  after-get_new :
      (id : ℤ) (dirty : Bool)
      → 0 < length tuple
      → get_tuple (record { bytes = after; page_id = id; is_dirty = dirty }) count ≡ some tuple
  unfolding get_tuple readable
  after-get_new id dirty h = ground (
    arith,
    count_lem after after-IsValid,
    after-count,
    after-slot_new,
    after-row_new,
    bounds,
    v.pointed,
  )

  after-get_old :
      (p : TablePage) (i : ℕ)
      → p.bytes ≡ m
      → i ≢ count
      → get_tuple (record p { bytes = after; is_dirty = true }) i ≡ get_tuple p i
  unfolding get_tuple readable
  after-get_old p i e n = ground (
    arith,
    count_lem after after-IsValid,
    count_lem m v,
    count_eq,
    after-count,
    after-slot_old i,
    after-row_old (read_slot m i).offset (read_slot m i).size,
    v.rows i,
    bounds,
  )
