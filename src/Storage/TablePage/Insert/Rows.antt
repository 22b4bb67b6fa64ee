-- ===== src/Storage/TablePage/Insert/Rows.antt =====
-- What InsertTuple of table_page.cpp promises its caller.
use franco_db.Prelude.{
  ℕ, ◌+◌, ◌%◌, ◌≤◌, ◌<◌, ◌≡◌, refl, ◌≢◌, ◌⊎◌, inl, inr, true, Option, none, some, List, arith,
  length, ap, ◌∙◌,
}
use franco_db.Storage.Memory.{word, read_u32_ext, of_word}
use franco_db.Storage.TablePage.{
  TablePage, Rid, slot_size, get_free_space_remaining, insert_tuple, get_tuple, get_next_page_id,
}
use franco_db.Storage.TablePage.Insert.{
  IsValid, count, after, after-IsValid, place-after, after-get_new, after-get_old, count_lem,
  remaining_lem, after-count, after-pointer, bounds, count_eq, after-other,
}

-- A row that a `uint32_t` measures, its slot included.
abbrev pub Measurable : List ℕ → Type 0
Measurable tuple = length tuple + slot_size < word

module _ (p : TablePage) (tuple : List ℕ) (v : IsValid p.bytes) (small : Measurable tuple) where
  size_lem : length tuple % word ≡ length tuple
  size_lem = omega arith

  needed_lem : (length tuple + slot_size) % word ≡ length tuple + slot_size
  needed_lem = omega arith

  pub refused :
      get_free_space_remaining p.bytes < length tuple + slot_size → insert_tuple p tuple ≡ (none, p)
  unfolding insert_tuple
  refused h = rw (size_lem, needed_lem) (ground arith)

  taken :
      (fits : length tuple + slot_size ≤ get_free_space_remaining p.bytes)
      → insert_tuple p tuple ≡ (
        some (record { page_id = p.page_id; slot_num = count p.bytes tuple v fits }),
        record p { bytes = after p.bytes tuple v fits; is_dirty = true },
      )
  unfolding insert_tuple
  taken fits =
      rw (size_lem, needed_lem, place-after p.bytes tuple v fits, count_lem p.bytes v)
        (ground (arith, count_eq p.bytes tuple v fits))

split_room :
    (p : TablePage) (tuple : List ℕ)
    → (get_free_space_remaining p.bytes < length tuple + slot_size)
      ⊎ (length tuple + slot_size ≤ get_free_space_remaining p.bytes)
split_room p tuple = omega arith

-- InsertTuple of a row whose size with a slot fits 32 bits keeps a well-formed page well formed.
pub insert_tuple-IsValid :
    (p : TablePage) (tuple : List ℕ)
    → IsValid p.bytes
    → Measurable tuple
    → IsValid (insert_tuple p tuple).1.bytes
insert_tuple-IsValid p tuple v small = elim (split_room p tuple) [
  | inl h ↦ rw (refused p tuple v small h) v
  | inr h ↦ rw (taken p tuple v small h) (after-IsValid p.bytes tuple v h)
]

-- On a well-formed page, InsertTuple of a row whose size with a slot fits 32 bits refuses it if
-- the free space is less than the row and a slot, and then changes nothing; otherwise it returns
-- a place and the free space shrinks by just that much.
pub insert_tuple_room :
    (p : TablePage) (tuple : List ℕ)
    → IsValid p.bytes
    → Measurable tuple
    → ((get_free_space_remaining p.bytes < length tuple + slot_size)
        × (insert_tuple p tuple ≡ (none, p)))
      ⊎ ((rid : Rid) × ((insert_tuple p tuple).0 ≡ some rid)
          × (get_free_space_remaining (insert_tuple p tuple).1.bytes + (length tuple + slot_size)
              ≡ get_free_space_remaining p.bytes))
insert_tuple_room p tuple v small = elim (split_room p tuple) [
  | inl h ↦ inl (h, refused p tuple v small h)
  | inr h ↦ inr (
    record { page_id = p.page_id; slot_num = count p.bytes tuple v h },
    rw (taken p tuple v small h),
    rw (taken p tuple v small h) (shrunk h),
  )
]
  where
    shrunk :
        (h : length tuple + slot_size ≤ get_free_space_remaining p.bytes)
        → get_free_space_remaining (after p.bytes tuple v h) + (length tuple + slot_size)
          ≡ get_free_space_remaining p.bytes
    shrunk h = omega (
      arith,
      remaining_lem p.bytes v,
      remaining_lem (after p.bytes tuple v h) (after-IsValid p.bytes tuple v h),
      after-count p.bytes tuple v h,
      after-pointer p.bytes tuple v h,
      bounds p.bytes tuple v h,
      count_eq p.bytes tuple v h,
    )

-- On a well-formed page, a row that is not empty, whose size with a slot fits 32 bits and which
-- InsertTuple stored, reads back at the place that it returned.
pub get_tuple-insert_tuple :
    (p : TablePage) (tuple : List ℕ) (rid : Rid)
    → IsValid p.bytes
    → Measurable tuple
    → 0 < length tuple
    → (insert_tuple p tuple).0 ≡ some rid
    → get_tuple (insert_tuple p tuple).1 rid.slot_num ≡ some tuple
get_tuple-insert_tuple p tuple rid v small pos e = elim (split_room p tuple) [
  | inl h ↦ absurd (never (rw (refused p tuple v small h) at e))
  | inr h ↦ rw (taken p tuple v small h) (
      rw (slot_of _ rid (rw (taken p tuple v small h) at e))
        (after-get_new p.bytes tuple v h p.page_id true pos))
]
  where
    never : ◌≡◌ {A = Option Rid} none (some rid) → ⊥
    never q = cc

    slot_of : (r r' : Rid) → ◌≡◌ {A = Option Rid} (some r) (some r') → r'.slot_num ≡ r.slot_num
    slot_of r r' q = ground arith

-- On a well-formed page, after InsertTuple stored a row whose size with a slot fits 32 bits,
-- every other slot number reads as before, a row or none.
pub get_tuple-insert_tuple_ne :
    (p : TablePage) (tuple : List ℕ) (rid : Rid) (i : ℕ)
    → IsValid p.bytes
    → Measurable tuple
    → (insert_tuple p tuple).0 ≡ some rid
    → i ≢ rid.slot_num
    → get_tuple (insert_tuple p tuple).1 i ≡ get_tuple p i
get_tuple-insert_tuple_ne p tuple rid i v small e n = elim (split_room p tuple) [
  | inl h ↦ rw (refused p tuple v small h)
  | inr h ↦ rw (taken p tuple v small h) (
      after-get_old p.bytes tuple v h p i refl
        (λ q. n (q ∙ slot_of _ rid (rw (taken p tuple v small h) at e))))
]
  where
    slot_of : (r r' : Rid) → ◌≡◌ {A = Option Rid} (some r) (some r') → r.slot_num ≡ r'.slot_num
    slot_of r r' q = ground arith

-- InsertTuple leaves the link to the next page, and its place is on its page.
pub get_next_page_id-insert_tuple :
    (p : TablePage) (tuple : List ℕ)
    → IsValid p.bytes
    → Measurable tuple
    → get_next_page_id (insert_tuple p tuple).1 ≡ get_next_page_id p
unfolding get_next_page_id
get_next_page_id-insert_tuple p tuple v small = elim (split_room p tuple) [
  | inl h ↦ rw (refused p tuple v small h)
  | inr h ↦ rw (taken p tuple v small h) (
      ap of_word (
        read_u32_ext p.bytes (after p.bytes tuple v h) 8
          (λ a k l. after-other p.bytes tuple v h a (inl (omega arith)))))
]

pub page_id-insert_tuple :
    (p : TablePage) (tuple : List ℕ) → (insert_tuple p tuple).1.page_id ≡ p.page_id
unfolding insert_tuple
page_id-insert_tuple p tuple = ground arith

pub rid-insert_tuple :
    (p : TablePage) (tuple : List ℕ) (rid : Rid)
    → (insert_tuple p tuple).0 ≡ some rid
    → rid.page_id ≡ p.page_id
unfolding insert_tuple
rid-insert_tuple p tuple rid e = ground arith
