-- ===== src/Storage/TablePage/Delete.antt =====
-- MarkDelete and UnmarkDelete of table_page.cpp.
pub mod Undo
use franco_db.Prelude.{
  ℕ, ◌+◌, ◌-◌, ◌*◌, ◌%◌, ◌≤◌, ◌<◌, ◌≡◌, refl, sym, ◌≢◌, ◌⊎◌, inl, inr, Bool, true, false, ◌||◌,
  Option, none, some, List, arith, ltb, leb, ◌==◌, if◌then◌else◌, ap, ◌∙◌, Bool-cases,
}
use native.Mathlib.Decide.{ℕ_discrete}
use franco_db.Storage.Memory.{Bytes, word, read_u32, slice, read_u32_ext, slice_ext}
use franco_db.Storage.TablePage.{
  TablePage, Slot, page_size, size_header, slot_size, slot_offset, get_tuple_count, read_slot,
  write_slot, readable, get_tuple, deleted, mark_delete, unmark_delete,
}
use franco_db.Storage.TablePage.Slots.{
  write_slot-other, read_slot-write_slot, read_slot-write_slot_ne,
}
use franco_db.Storage.TablePage.Insert.{IsValid, count_lem}

-- Only the meta byte of slot `i` changes.
module _ (m : Bytes) (i meta : ℕ) (v : IsValid m) (inside : i < read_u32 m 16) where
  remarked : Bytes
  remarked = write_slot m i (record (read_slot m i) { meta = meta })

  remarked-header : (a : ℕ) → a < 20 → remarked a ≡ m a
  unfolding remarked
  remarked-header a h = write_slot-other m i _ a (inl (omega arith))

  remarked-words : (read_u32 remarked 16 ≡ read_u32 m 16) × (read_u32 remarked 12 ≡ read_u32 m 12)
  remarked-words = (
    read_u32_ext m remarked 16 (λ a p q. remarked-header a (omega arith)),
    read_u32_ext m remarked 12 (λ a p q. remarked-header a (omega arith)),
  )

  row_bounds :
      (read_u32 m 12 ≤ (read_slot m i).offset)
      × ((read_slot m i).offset + (read_slot m i).size ≤ page_size)
  row_bounds = v.rows i inside

  remarked-slot : read_slot remarked i ≡ record (read_slot m i) { meta = meta }
  unfolding remarked
  remarked-slot = read_slot-write_slot m i _ (omega (arith, row_bounds)) (omega (arith, row_bounds))

  remarked-slot_ne : (j : ℕ) → i ≢ j → read_slot remarked j ≡ read_slot m j
  unfolding remarked
  remarked-slot_ne j n = read_slot-write_slot_ne m i j _ n

  remarked-rows : (o n : ℕ) → read_u32 m 12 ≤ o → slice remarked o n ≡ slice m o n
  unfolding remarked
  remarked-rows o n h =
      slice_ext m remarked o n (λ a p q. write_slot-other m i _ a (inr (omega (arith, v.room))))

  remarked-IsValid : IsValid remarked
  remarked-IsValid = record {
    counted = omega (arith, remarked-words, v.counted);
    pointed = omega (arith, remarked-words, v.pointed);
    room = omega (arith, remarked-words, v.room);
    rows = λ j h. ground (
      arith,
      Bool-cases (j == i),
      remarked-words,
      ap (λ (s : Slot). s.offset) remarked-slot,
      ap (λ (s : Slot). s.size) remarked-slot,
      remarked-slot_ne j,
      v.rows j,
    );
  }

abbrev with_bytes : TablePage → Bytes → TablePage
with_bytes p m = record p { bytes = m; is_dirty = true }

-- Reading after the change of one meta byte.
module _ (p : TablePage) (i meta : ℕ) (v : IsValid p.bytes) (inside : i < read_u32 p.bytes 16) where
  changed : TablePage
  changed = with_bytes p (remarked p.bytes i meta v inside)

  get_tuple-changed_ne : (j : ℕ) → i ≢ j → get_tuple changed j ≡ get_tuple p j
  unfolding get_tuple readable changed
  get_tuple-changed_ne j n = ground (
    arith,
    count_lem p.bytes v,
    count_lem (remarked p.bytes i meta v inside) (remarked-IsValid p.bytes i meta v inside),
    remarked-words p.bytes i meta v inside,
    remarked-slot_ne p.bytes i meta v inside j n,
    remarked-rows p.bytes i meta v inside (read_slot p.bytes j).offset (read_slot p.bytes j).size,
    v.rows j,
  )

  get_tuple-changed-deleted : deleted meta ≡ true → get_tuple changed i ≡ none
  unfolding get_tuple readable changed
  get_tuple-changed-deleted d = ground (arith, remarked-slot p.bytes i meta v inside)

  get_tuple-changed_same :
      deleted meta ≡ deleted (read_slot p.bytes i).meta → get_tuple changed i ≡ get_tuple p i
  unfolding get_tuple readable changed
  get_tuple-changed_same d = ground (
    arith,
    count_lem p.bytes v,
    count_lem (remarked p.bytes i meta v inside) (remarked-IsValid p.bytes i meta v inside),
    remarked-words p.bytes i meta v inside,
    remarked-slot p.bytes i meta v inside,
    remarked-rows p.bytes i meta v inside (read_slot p.bytes i).offset (read_slot p.bytes i).size,
    v.rows i,
  )

-- A row that reads has a slot of the array, and is not deleted.
get_tuple-some :
    (p : TablePage) (i : ℕ) (tuple : List ℕ)
    → IsValid p.bytes
    → get_tuple p i ≡ some tuple
    → (i < read_u32 p.bytes 16) × (deleted (read_slot p.bytes i).meta ≡ false)
unfolding get_tuple readable
get_tuple-some p i tuple v e = (ground (arith, count_lem p.bytes v), ground arith)

abbrev set_bit : ℕ → ℕ
set_bit meta = meta - meta % 2 + 1

abbrev clear_bit : ℕ → ℕ
clear_bit meta = meta - meta % 2

module _ (p : TablePage) (i : ℕ) (v : IsValid p.bytes) (inside : i < read_u32 p.bytes 16) where
  marks :
      deleted (read_slot p.bytes i).meta ≡ false
      → mark_delete p i ≡ (true, changed p i (set_bit (read_slot p.bytes i).meta) v inside)
  unfolding mark_delete changed remarked
  marks d = ground (arith, count_lem p.bytes v, v.room, v.pointed)

  unmarks :
      deleted (read_slot p.bytes i).meta ≡ true
      → unmark_delete p i ≡ (true, changed p i (clear_bit (read_slot p.bytes i).meta) v inside)
  unfolding unmark_delete changed remarked
  unmarks d = ground (arith, count_lem p.bytes v, v.room, v.pointed)

-- On a well-formed page, MarkDelete of a slot that reads as a row succeeds: the row is gone,
-- every other slot reads as before, and the page stays well formed.
pub get_tuple-mark_delete :
    (p : TablePage) (i : ℕ) (tuple : List ℕ)
    → IsValid p.bytes
    → get_tuple p i ≡ some tuple
    → ((mark_delete p i).0 ≡ true)
      × (get_tuple (mark_delete p i).1 i ≡ none)
      × ((j : ℕ) → i ≢ j → get_tuple (mark_delete p i).1 j ≡ get_tuple p j)
      × IsValid (mark_delete p i).1.bytes
get_tuple-mark_delete p i tuple v e =
    let (inside, live) = get_tuple-some p i tuple v e in
    rw (marks p i v inside live) (
      refl,
      get_tuple-changed-deleted p i _ v inside (bit (read_slot p.bytes i).meta),
      λ j n. get_tuple-changed_ne p i _ v inside j n,
      valid inside,
    )
  where
    bit : (meta : ℕ) → deleted (set_bit meta) ≡ true
    bit meta = ground arith

    valid :
        (inside : i < read_u32 p.bytes 16)
        → IsValid (changed p i (set_bit (read_slot p.bytes i).meta) v inside).bytes
    valid inside = unfold changed in remarked-IsValid p.bytes i _ v inside
