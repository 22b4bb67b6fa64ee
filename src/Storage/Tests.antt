-- ===== src/Storage/Tests.antt =====
-- A slotted page and a bitmap of free pages on small inputs.
mod Heap
mod Rows
use franco_db.Prelude.{
  ℕ, zero, suc, ◌+◌, ◌%◌, ◌≤◌, ◌<◌, pos, invalid, ◌≡◌, ◌≢◌, refl, ◌⊎◌, true, false, none, some,
  List, [], ◌∷◌, arith, length, ◌==◌, if◌then◌else◌,
}
use franco_db.Storage.Memory.{Bytes, read_u32, write_u32}
use franco_db.Storage.TablePage.{
  TablePage, Rid, init, slot_size, get_free_space_remaining, insert_tuple, get_tuple, mark_delete,
  unmark_delete, get_free_space_pointer, get_tuple_count,
}
use franco_db.Storage.TablePage.Init.{init-IsValid}
use franco_db.Storage.TablePage.Insert.{IsValid}
use franco_db.Storage.TablePage.Insert.Rows.{
  insert_tuple-IsValid, insert_tuple_room, get_tuple-insert_tuple, get_tuple-insert_tuple_ne,
}
use franco_db.Storage.TablePage.Delete.{get_tuple-mark_delete}
use franco_db.Storage.TablePage.Delete.Undo.{unmark_delete-mark_delete}
use franco_db.Storage.FreePages.{used, bit, allocate_page}
use franco_db.Storage.FreePages.Bits.{IsBytes}
use franco_db.Storage.FreePages.Allocate.{allocate_page_first, allocate_page_full}

abbrev raw : TablePage
raw = record { bytes = λ a. 0; page_id = invalid; is_dirty = false }

-- Page 3, behind page 2.
abbrev new_page : TablePage
new_page = init raw (pos 3) (pos 2) invalid

new_page-IsValid : IsValid new_page.bytes
new_page-IsValid = (init-IsValid raw (pos 3) (pos 2) invalid (omega arith) (omega arith)).0

abbrev row : List ℕ
row = 65 ∷ 66 ∷ 67 ∷ []

insert_tuple_room_example :
    ((get_free_space_remaining new_page.bytes < length row + slot_size)
      × (insert_tuple new_page row ≡ (none, new_page)))
    ⊎ ((rid : Rid) × ((insert_tuple new_page row).0 ≡ some rid)
        × (get_free_space_remaining (insert_tuple new_page row).1.bytes + (length row + slot_size)
            ≡ get_free_space_remaining new_page.bytes))
insert_tuple_room_example = insert_tuple_room new_page row new_page-IsValid (omega arith)

abbrev first : Rid
first = record { page_id = pos 3; slot_num = 0 }

first_place : (insert_tuple new_page row).0 ≡ some first
unfolding insert_tuple get_free_space_remaining get_free_space_pointer read_u32 init write_u32
    get_tuple_count
first_place = refl

abbrev one_row : TablePage
one_row = (insert_tuple new_page row).1

one_row-IsValid : IsValid one_row.bytes
one_row-IsValid = insert_tuple-IsValid new_page row new_page-IsValid (omega arith)

get_tuple-insert_tuple_example : get_tuple one_row 0 ≡ some row
get_tuple-insert_tuple_example =
    get_tuple-insert_tuple new_page row first new_page-IsValid (omega arith) (omega arith)
      first_place

row_stored : get_tuple one_row 0 ≡ some row
row_stored =
    get_tuple-insert_tuple new_page row first new_page-IsValid (omega arith) (omega arith)
      first_place

unmark_delete-mark_delete_example :
    ((unmark_delete (mark_delete one_row 0).1 0).0 ≡ true)
    × (get_tuple (unmark_delete (mark_delete one_row 0).1 0).1 0 ≡ get_tuple one_row 0)
unmark_delete-mark_delete_example =
    unmark_delete-mark_delete one_row 0 0 row one_row-IsValid row_stored

-- Pages 0 to 2 are in use.
abbrev bitmap : Bytes
bitmap zero = 7
bitmap (suc _) = 0

bitmap-IsBytes : IsBytes bitmap
bitmap-IsBytes zero = omega arith
bitmap-IsBytes (suc _) = omega arith

allocate_page_first_example :
    let (id, m) = allocate_page bitmap 10 in
    (id ≤ 5)
    × (used bitmap id ≡ false)
    × ((j : ℕ) → j < id → used bitmap j ≡ true)
    × ((j : ℕ) → used m j ≡ (if j == id then true else used bitmap j))
    × IsBytes m
unfolding used bit
allocate_page_first_example = allocate_page_first bitmap 10 5 bitmap-IsBytes (omega arith) refl

full_bit : (b : ℕ) → b < 8 → bit 255 b ≡ true
unfolding bit
full_bit zero h = refl
full_bit (suc zero) h = refl
full_bit (suc (suc zero)) h = refl
full_bit (suc (suc (suc zero))) h = refl
full_bit (suc (suc (suc (suc zero)))) h = refl
full_bit (suc (suc (suc (suc (suc zero))))) h = refl
full_bit (suc (suc (suc (suc (suc (suc zero)))))) h = refl
full_bit (suc (suc (suc (suc (suc (suc (suc zero))))))) h = refl
full_bit (suc (suc (suc (suc (suc (suc (suc (suc b)))))))) h = absurd (omega (arith, h))

still_free :
    (id : ℕ) (m : Bytes)
    → id ≤ 3
    → used m 6 ≡ (if 6 == id then true else used bitmap 6)
    → used bitmap 6 ≡ false
    → used m 6 ≡ false
still_free id m h e b = ground (arith, h, e, b)

six_free : used (allocate_page bitmap 10).1 6 ≡ false
unfolding used bit
six_free =
    let t = allocate_page_first bitmap 10 3 bitmap-IsBytes (omega arith) refl in
    still_free (allocate_page bitmap 10).0 (allocate_page bitmap 10).1 t.0 (t.3 6) refl

one_used : (j : ℕ) → j < 1 → used bitmap j ≡ true
unfolding used bit
one_used zero h = refl
one_used (suc j) h = absurd (omega (arith, h))
