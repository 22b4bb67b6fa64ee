-- ===== src/Storage/TableHeap/Iterator.antt =====
-- TableHeap::Iterator of src/storage/table/table_heap.cpp and its adapter to ITableStorage.
pub mod Rows
pub mod Scan
use franco_db.Prelude.{
  ℕ, zero, suc, ◌-◌, ℤ, invalid, eqb_ℤ, Bool, true, false, not, ◌&&◌, ◌||◌, Option, none, some,
  List, [], ◌∷◌, ◌==◌, if◌then◌else◌,
}
use franco_db.Storage.TablePage.{TablePage, Rid, get_tuple, get_tuple_count, get_next_page_id}
use franco_db.Storage.TableHeap.{Pages, TableHeap}

-- `cached` is the tuple in the cache, if the flag says that there is one.
pub record Iterator : Type 0 where
  pub current_page_id : ℤ
  pub current_slot : ℕ
  pub is_end : Bool
  pub cached : Option (List ℕ)

-- The inner loop of AdvanceToNextValidTuple, `n` slots from `slot` on: the slot it stops at, and its
-- row.
unfoldable pub find_slot : TablePage → ℕ → ℕ → ℕ × Option (List ℕ)
find_slot p slot zero = (slot, none)
find_slot p slot (suc n) = elim (get_tuple p slot) [
  | some t ↦ (slot, some t)
  | none ↦ find_slot p (suc slot) n
]

unfoldable pub ended : Iterator → Iterator
ended it = record it { is_end = true; cached = none }

-- AdvanceToNextValidTuple, on fuel.
unfoldable pub advance : ℕ → Pages → Iterator → Option Iterator
advance zero m it = none
advance (suc fuel) m it = elim (eqb_ℤ it.current_page_id invalid) [
  | true ↦ some (ended it)
  | false ↦ elim (m it.current_page_id) [
    | none ↦ some (ended it)
    | some p ↦
        let r = find_slot p it.current_slot (get_tuple_count p.bytes - it.current_slot) in
        elim r.1 [
          | some t ↦ some (record it { current_slot = r.0; cached = some t })
          | none ↦
              advance fuel m (record it { current_page_id = get_next_page_id p; current_slot = 0 })
        ]
  ]
]

unfoldable pub begin : ℕ → TableHeap → Option Iterator
begin fuel h =
    advance fuel h.pages (record {
      current_page_id = h.first_page_id;
      current_slot = 0;
      is_end = false;
      cached = none;
    })

-- operator++
unfoldable pub next : ℕ → Pages → Iterator → Option Iterator
next fuel m it = advance fuel m (record it { current_slot = suc it.current_slot; cached = none })

-- End()
unfoldable pub end_iterator : Iterator
end_iterator = record { current_page_id = invalid; current_slot = 0; is_end = true; cached = none }

abbrev eqb_bool : Bool → Bool → Bool
eqb_bool true b = b
eqb_bool false b = not b

-- operator!=
unfoldable pub differs : Iterator → Iterator → Bool
differs a b =
    not (eqb_bool a.is_end b.is_end)
    || (not (eqb_ℤ a.current_page_id b.current_page_id) || not (a.current_slot == b.current_slot))

-- IsEnd, GetRID and GetTuple of the adapter; `none` where the source reads the page again, which an
-- iterator with a cached row never does.
unfoldable pub at_end : Iterator → Bool
at_end it = not (differs it end_iterator)

unfoldable pub get_rid : Iterator → Rid
get_rid it = record { page_id = it.current_page_id; slot_num = it.current_slot }
