-- ===== src/Storage/TablePage/Links.antt =====
-- SetNextPageId of src/storage/table/table_page.cpp changes the link and nothing else.
use franco_db.Prelude.{
  ℕ, ◌+◌, ◌-◌, ◌%◌, ◌≤◌, ◌<◌, ℤ, ◌≡◌, refl, inl, inr, true, arith, ap, ◌∙◌, Bool-cases,
}
use franco_db.Storage.Memory.{
  Bytes, Int32, read_u32, to_word, of_word, slice, read_u32_ext, slice_ext, write_u32-other,
  read_u32-write_u32, of_word-to_word, to_word-lt,
}
use franco_db.Storage.TablePage.{
  TablePage, Slot, readable, read_slot, get_tuple, get_tuple_count, get_next_page_id,
  set_next_page_id, mark_delete,
}
use franco_db.Storage.TablePage.Slots.{read_slot_ext, write_slot-other, get_tuple_count_ext}
use franco_db.Storage.TablePage.Insert.{IsValid}

-- The bytes behind the links are the same.
module _ (m m' : Bytes) (same : (a : ℕ) → 12 ≤ a → m' a ≡ m a) where
  same-slot : (i : ℕ) → read_slot m' i ≡ read_slot m i
  same-slot i = read_slot_ext m m' i (λ a p q. same a (omega arith))

  same-word : (o : ℕ) → 12 ≤ o → read_u32 m' o ≡ read_u32 m o
  same-word o h = read_u32_ext m m' o (λ a p q. same a (omega arith))

  IsValid_ext : IsValid m → IsValid m'
  IsValid_ext v = record {
    counted = omega (arith, same-word 16 (omega arith), v.counted);
    pointed = omega (arith, same-word 12 (omega arith), v.pointed);
    room = omega (arith, same-word 16 (omega arith), same-word 12 (omega arith), v.room);
    rows = λ i h.
        rw (same-slot i, same-word 12 (omega arith))
          (v.rows i (rw (same-word 16 (omega arith)) at h));
  }

  readable-offset : (count : ℕ) (s : Slot) → readable count s ≡ true → 20 ≤ s.offset
  unfolding readable
  readable-offset count s h = ground arith

  same-count : get_tuple_count m' ≡ get_tuple_count m
  same-count = get_tuple_count_ext m m' (λ a p q. same a (omega arith))

  same-row :
      (count : ℕ) (s : Slot)
      → readable count s ≡ true
      → slice m' s.offset s.size ≡ slice m s.offset s.size
  same-row count s h =
      slice_ext m m' s.offset s.size (λ a p q. same a (far (readable-offset count s h) p))
    where
      far : {o a : ℕ} → 20 ≤ o → o ≤ a → 12 ≤ a
      far h i = omega arith

  get_tuple_ext :
      (p : TablePage) (i : ℕ)
      → get_tuple (record p { bytes = m' }) i ≡ get_tuple (record p { bytes = m }) i
  unfolding get_tuple
  get_tuple_ext p i =
      rw (same-count, same-slot i)
        (elim (Bool-cases (readable (get_tuple_count m) (read_slot m i))) [
          | inl e ↦ rw (e, same-row (get_tuple_count m) (read_slot m i) e)
          | inr e ↦ rw e refl
        ])

set_next_bytes-other :
    (p : TablePage) (id : ℤ) (a : ℕ) → 12 ≤ a → (set_next_page_id p id).bytes a ≡ p.bytes a
unfolding set_next_page_id
set_next_bytes-other p id a h = write_u32-other p.bytes 8 (to_word id) a (inr (omega arith))

pub set_next_page_id-IsValid :
    (p : TablePage) (id : ℤ) → IsValid p.bytes → IsValid (set_next_page_id p id).bytes
set_next_page_id-IsValid p id v =
    IsValid_ext p.bytes (set_next_page_id p id).bytes (set_next_bytes-other p id) v

pub get_next_page_id-set_next_page_id :
    (p : TablePage) (id : ℤ) → Int32 id → get_next_page_id (set_next_page_id p id) ≡ id
unfolding get_next_page_id set_next_page_id
get_next_page_id-set_next_page_id p id h =
    ap of_word (read_u32-write_u32 p.bytes 8 (to_word id) (to_word-lt id h)) ∙ of_word-to_word id h

pub get_tuple-set_next_page_id :
    (p : TablePage) (id : ℤ) (i : ℕ) → get_tuple (set_next_page_id p id) i ≡ get_tuple p i
unfolding set_next_page_id
get_tuple-set_next_page_id p id i =
    get_tuple_ext p.bytes (set_next_page_id p id).bytes (set_next_bytes-other p id) p i

mark_delete-header : (p : TablePage) (i a : ℕ) → a < 20 → (mark_delete p i).1.bytes a ≡ p.bytes a
unfolding mark_delete
mark_delete-header p i a h = ground (
  arith,
  write_slot-other p.bytes i
      (record (read_slot p.bytes i) {
        meta = (read_slot p.bytes i).meta - (read_slot p.bytes i).meta % 2 + 1;
      })
      a,
)

-- MarkDelete leaves the link and the id.
pub get_next_page_id-mark_delete :
    (p : TablePage) (i : ℕ) → get_next_page_id (mark_delete p i).1 ≡ get_next_page_id p
unfolding get_next_page_id
get_next_page_id-mark_delete p i = ap of_word (
    read_u32_ext p.bytes (mark_delete p i).1.bytes 8
      (λ a k l. mark_delete-header p i a (omega arith)))

pub page_id-mark_delete : (p : TablePage) (i : ℕ) → (mark_delete p i).1.page_id ≡ p.page_id
unfolding mark_delete
page_id-mark_delete p i = ground arith
