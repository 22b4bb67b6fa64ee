-- ===== src/Storage/TablePage.antt =====
-- src/storage/table/table_page.cpp, src/include/storage/table/table_page.h: the slotted page, on
-- its bytes. Header: checksum 0, previous page 4, next page 8, free-space pointer 12, tuple count
-- 16; from 20 on slots of 9 bytes (offset, size, meta); tuple data grows down from the page's end.
-- The page is never null here, so that the tests for a null pointer do not appear.
use franco_db.Prelude.{
  ℕ, ◌+◌, ◌-◌, ◌*◌, ◌%◌, ℤ, Bool, true, false, ◌||◌, Option, none, some, List, length, take, ltb,
  leb, ◌==◌, if◌then◌else◌,
}
use franco_db.Storage.Memory.{
  Bytes, word, read_u32, write_u32, write_u8, copy, slice, to_word, of_word,
}
pub mod Slots
pub mod Init
pub mod Insert
pub mod Delete
pub mod Links

abbrev pub page_size : ℕ
page_size = 4096

abbrev pub size_header : ℕ
size_header = 20

-- sizeof(Slot), packed
abbrev pub slot_size : ℕ
slot_size = 9

pub record Slot : Type 0 where
  pub offset : ℕ
  pub size : ℕ
  pub meta : ℕ

pub record TablePage : Type 0 where
  pub bytes : Bytes
  pub page_id : ℤ
  pub is_dirty : Bool

-- A row's place: page and slot number.
pub record Rid : Type 0 where
  pub page_id : ℤ
  pub slot_num : ℕ

-- `memset(data + header_start, 0, header_size)`, then the fields.
unfoldable pub zero_header : Bytes → Bytes
zero_header m a = if ltb a 4 then m a else (if ltb a size_header then 0 else m a)

abbrev pub set_free_space_pointer : Bytes → ℕ → Bytes
set_free_space_pointer m ptr = write_u32 m 12 ptr

abbrev pub set_tuple_count : Bytes → ℕ → Bytes
set_tuple_count m count = write_u32 m 16 count

unfoldable pub init : TablePage → ℤ → ℤ → ℤ → TablePage
init p id prev next = record p {
  page_id = id;
  bytes =
      set_tuple_count
        (set_free_space_pointer
          (write_u32 (write_u32 (zero_header p.bytes) 4 (to_word prev)) 8 (to_word next)) page_size)
        0;
  is_dirty = true;
}

unfoldable pub get_next_page_id : TablePage → ℤ
get_next_page_id p = of_word (read_u32 p.bytes 8)

unfoldable pub set_next_page_id : TablePage → ℤ → TablePage
set_next_page_id p id = record p { bytes = write_u32 p.bytes 8 (to_word id) }

unfoldable pub get_prev_page_id : TablePage → ℤ
get_prev_page_id p = of_word (read_u32 p.bytes 4)

unfoldable pub set_prev_page_id : TablePage → ℤ → TablePage
set_prev_page_id p id = record p { bytes = write_u32 p.bytes 4 (to_word id) }

-- A count that cannot fit, (4096 - 20) / 9 = 452 at most, is read as none.
unfoldable pub get_tuple_count : Bytes → ℕ
get_tuple_count m = let count = read_u32 m 16 in if ltb 452 count then 0 else count

unfoldable pub get_free_space_pointer : Bytes → ℕ
get_free_space_pointer m =
    let ptr = read_u32 m 12 in if ltb ptr size_header || ltb page_size ptr then page_size else ptr

unfoldable pub get_free_space_remaining : Bytes → ℕ
get_free_space_remaining m =
    let header_end = size_header + get_tuple_count m * slot_size in
    let data_start = get_free_space_pointer m in
    if ltb data_start header_end then 0 else data_start - header_end

abbrev pub slot_offset : ℕ → ℕ
slot_offset i = size_header + i * slot_size

unfoldable pub read_slot : Bytes → ℕ → Slot
read_slot m i = record {
  offset = read_u32 m (slot_offset i);
  size = read_u32 m (slot_offset i + 4);
  meta = m (slot_offset i + 8);
}

unfoldable pub write_slot : Bytes → ℕ → Slot → Bytes
write_slot m i s =
    write_u8 (write_u32 (write_u32 m (slot_offset i) s.offset) (slot_offset i + 4) s.size)
      (slot_offset i + 8) s.meta

-- The bytes once there is room: pointer, data, slot, count. Differences are those of uint32_t.
unfoldable pub place : Bytes → List ℕ → ℕ → Bytes
place m tuple size =
    let new_ptr = (get_free_space_pointer m + word - size) % word in
    let m' = copy (set_free_space_pointer m new_ptr) new_ptr (take size tuple) in
    let count = get_tuple_count m' in
    set_tuple_count (write_slot m' count (record { offset = new_ptr; size = size; meta = 0 }))
      ((count + 1) % word)

-- The new row's place, or `none` if the page has no room.
unfoldable pub insert_tuple : TablePage → List ℕ → Option Rid × TablePage
insert_tuple p tuple =
    let size = length tuple % word in
    if ltb (get_free_space_remaining p.bytes) ((size + slot_size) % word) then (none, p) else (
      some (record { page_id = p.page_id; slot_num = get_tuple_count p.bytes }),
      record p { bytes = place p.bytes tuple size; is_dirty = true },
    )

-- `meta & TUPLE_DELETED`: the lowest bit.
abbrev pub deleted : ℕ → Bool
deleted meta = meta % 2 == 1

-- The tests of GetTuple behind the slot number.
unfoldable pub readable : ℕ → Slot → Bool
readable count s =
    if s.size == 0 || deleted s.meta
    then false
    else (if ltb s.offset size_header || leb page_size s.offset
        then false
        else (if ltb page_size s.size || ltb page_size (s.offset + s.size)
            then false
            else (if ltb s.offset (size_header + count * slot_size) then false else true)))

unfoldable pub get_tuple : TablePage → ℕ → Option (List ℕ)
get_tuple p slot_id =
    let s = read_slot p.bytes slot_id in
    if leb (get_tuple_count p.bytes) slot_id
    then none
    else (if ltb page_size (slot_offset slot_id + slot_size)
        then none
        else (if readable (get_tuple_count p.bytes) s
            then some (slice p.bytes s.offset s.size)
            else none))

-- `meta |= TUPLE_DELETED`, of a slot that is not deleted.
unfoldable pub mark_delete : TablePage → ℕ → Bool × TablePage
mark_delete p slot_id =
    let s = read_slot p.bytes slot_id in
    if leb (get_tuple_count p.bytes) slot_id || ltb page_size (slot_offset slot_id + slot_size)
    then (false, p)
    else (if deleted s.meta then (false, p) else (
      true,
      record p {
        bytes = write_slot p.bytes slot_id (record s { meta = s.meta - s.meta % 2 + 1 });
        is_dirty = true;
      },
    ))

-- `meta &= ~TUPLE_DELETED`, of a slot that is deleted.
unfoldable pub unmark_delete : TablePage → ℕ → Bool × TablePage
unmark_delete p slot_id =
    let s = read_slot p.bytes slot_id in
    if leb (get_tuple_count p.bytes) slot_id || ltb page_size (slot_offset slot_id + slot_size)
    then (false, p)
    else (if deleted s.meta
        then (
          true,
          record p {
            bytes = write_slot p.bytes slot_id (record s { meta = s.meta - s.meta % 2 });
            is_dirty = true;
          },
        )
        else (false, p))
