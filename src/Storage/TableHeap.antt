-- ===== src/Storage/TableHeap.antt =====
-- src/storage/table/table_heap.cpp: the pages of a table as a linked list of slotted pages. A
-- PageGuard is the page that the buffer manager has under the id, or none where the guard is not
-- valid; every operation is one thread's, except that other threads may run while NewPage does.
pub mod Chain
pub mod Inserts
pub mod Loop
pub mod Insert
pub mod Update
pub mod Faults
pub mod Iterator
pub mod Counts
use franco_db.Prelude.{
  ℕ, zero, suc, ◌+◌, ◌-◌, ℤ, invalid, eqb_ℤ, Bool, true, false, ◌||◌, not, Option, none, some, List,
  if◌then◌else◌,
}
use franco_db.Storage.TablePage.{
  TablePage, Rid, init, get_next_page_id, set_next_page_id, get_prev_page_id, get_tuple_count,
  insert_tuple, get_tuple, mark_delete, unmark_delete,
}

abbrev pub Pages : Type 0
Pages = ℤ → Option TablePage

-- NewPage: the id, the frame it placed there, and the pages once it returns.
pub record NewPage : Type 0 where
  pub page_id : ℤ
  pub raw : TablePage
  pub pages : Pages

-- The buffer manager: `none` where NewPage gives a null pointer.
pub record Manager : Type 0 where
  pub new_page : Pages → Option NewPage

pub record TableHeap : Type 0 where
  pub pages : Pages
  pub first_page_id : ℤ
  pub last_page_hint : ℤ

-- What InsertTuple returns, the place it wrote to `rid`, and the heap.
pub record Outcome : Type 0 where
  pub ok : Bool
  pub rid : Option Rid
  pub heap : TableHeap

unfoldable pub put_page : Pages → ℤ → TablePage → Pages
put_page m id p a = if eqb_ℤ a id then some p else m a

unfoldable pub open_heap : Pages → ℤ → TableHeap
open_heap m id = record { pages = m; first_page_id = id; last_page_hint = invalid }

-- The constructor of a new table; `none` is its exception.
unfoldable pub create_heap : Manager → Pages → Option TableHeap
create_heap bpm m = elim (bpm.new_page m) [
  | none ↦ none
  | some a ↦ some (record {
    pages = put_page a.pages a.page_id (init a.raw a.page_id invalid invalid);
    first_page_id = a.page_id;
    last_page_hint = a.page_id;
  })
]

unfoldable pub forget_hint : TableHeap → TableHeap
forget_hint h = record h { last_page_hint = invalid }

-- The check of the hint: where to start, and the hint that is kept.
unfoldable pub start_page : TableHeap → ℤ × TableHeap
start_page h =
    if eqb_ℤ h.last_page_hint invalid || eqb_ℤ h.last_page_hint h.first_page_id
    then (h.first_page_id, h)
    else (elim (h.pages h.last_page_hint) [
      | none ↦ (h.first_page_id, forget_hint h)
      | some p ↦
          if eqb_ℤ (get_prev_page_id p) invalid
          then (h.first_page_id, forget_hint h)
          else (h.last_page_hint, h)
    ])

unfoldable pub failed : TableHeap → Outcome
failed h = record { ok = false; rid = none; heap = h }

-- The page took the row.
unfoldable pub stored : TableHeap → ℤ → Rid → TablePage → Outcome
stored h curr rid p = record {
  ok = true;
  rid = some rid;
  heap = record h { pages = put_page h.pages curr p; last_page_hint = curr };
}

-- The current page is linked to the new one, and the row goes there; what the new page says of the
-- row is not looked at.
unfoldable pub link : TableHeap → ℤ → TablePage → NewPage → List ℕ → Outcome
link h curr p a tuple =
    let fresh = init a.raw a.page_id curr invalid in
    let r = insert_tuple fresh tuple in
    record {
      ok = true;
      rid = r.0;
      heap = record h {
        pages =
            put_page
              (put_page a.pages curr (record (set_next_page_id p a.page_id) { is_dirty = true }))
              a.page_id r.1;
        last_page_hint = a.page_id;
      };
    }

module _ (bpm : Manager) (tuple : List ℕ) where
  -- The loop of InsertTuple, on fuel.
  unfoldable pub insert_from : ℕ → TableHeap → ℤ → Option Outcome
  insert_from zero h curr = none
  insert_from (suc fuel) h curr = elim (h.pages curr) [
    | none ↦ elim (eqb_ℤ curr h.first_page_id) [
      | true ↦ some (failed h)
      | false ↦ insert_from fuel (forget_hint h) h.first_page_id
    ]
    | some p ↦ elim (insert_tuple p tuple).0 [
      | some rid ↦ some (stored h curr rid (insert_tuple p tuple).1)
      | none ↦ elim (eqb_ℤ (get_next_page_id p) invalid) [
        | false ↦ insert_from fuel h (get_next_page_id p)
        | true ↦ elim (bpm.new_page h.pages) [
          | none ↦ some (failed h)
          | some a ↦ elim (a.pages curr) [
            | none ↦ some (failed (record h { pages = a.pages }))
            | some q ↦ elim (eqb_ℤ (get_next_page_id q) invalid) [
              | true ↦ some (link h curr q a tuple)
              | false ↦ insert_from fuel (record h { pages = a.pages }) (get_next_page_id q)
            ]
          ]
        ]
      ]
    ]
  ]

  unfoldable pub insert_row : ℕ → TableHeap → Option Outcome
  insert_row fuel h =
      let s = start_page h in
      elim (eqb_ℤ h.first_page_id invalid) [
        | true ↦ some (failed h)
        | false ↦ insert_from fuel s.1 s.0
      ]

unfoldable pub read_row : TableHeap → Rid → Option (List ℕ)
read_row h rid = elim (h.pages rid.page_id) [ none ↦ none | some p ↦ get_tuple p rid.slot_num ]

-- Both marks: the page's operation, under a guard.
unfoldable pub on_page : (TablePage → ℕ → Bool × TablePage) → TableHeap → Rid → Bool × TableHeap
on_page change h rid = elim (h.pages rid.page_id) [
  | none ↦ (false, h)
  | some p ↦
      let r = change p rid.slot_num in (r.0, record h { pages = put_page h.pages rid.page_id r.1 })
]

unfoldable pub mark_delete_row : TableHeap → Rid → Bool × TableHeap
mark_delete_row h rid = on_page mark_delete h rid

unfoldable pub unmark_delete_row : TableHeap → Rid → Bool × TableHeap
unmark_delete_row h rid = on_page unmark_delete h rid

-- UpdateTuple: the old row is marked before the new one is inserted.
unfoldable pub update_row : Manager → ℕ → TableHeap → List ℕ → Rid → Option Outcome
update_row bpm fuel h tuple rid =
    let r = mark_delete_row h rid in
    elim r.0 [ true ↦ insert_row bpm tuple fuel r.1 | false ↦ some (failed r.1) ]

unfoldable pub one : Option (List ℕ) → ℕ
one none = 0
one (some t) = 1

-- The inner loop of CountAllTuples: slots from `i` on, `n` of them.
unfoldable pub count_slots : TablePage → ℕ → ℕ → ℕ
unfolding one
count_slots p i zero = 0
count_slots p i (suc n) = one (get_tuple p i) + count_slots p (suc i) n

-- The loops of CountAllTuples and CountPages, on fuel.
unfoldable pub count_tuples_from : ℕ → Pages → ℤ → Option ℕ
count_tuples_from zero m curr = none
count_tuples_from (suc fuel) m curr = elim (eqb_ℤ curr invalid) [
  | true ↦ some 0
  | false ↦ elim (m curr) [
    | none ↦ some 0
    | some p ↦ elim (count_tuples_from fuel m (get_next_page_id p)) [
      | none ↦ none
      | some total ↦ some (count_slots p 0 (get_tuple_count p.bytes) + total)
    ]
  ]
]

unfoldable pub count_pages_from : ℕ → Pages → ℤ → Option ℕ
count_pages_from zero m curr = none
count_pages_from (suc fuel) m curr = elim (eqb_ℤ curr invalid) [
  | true ↦ some 0
  | false ↦ elim (m curr) [
    | none ↦ some 0
    | some p ↦ elim (count_pages_from fuel m (get_next_page_id p)) [
      | none ↦ none
      | some count ↦ some (suc count)
    ]
  ]
]

unfoldable pub count_all_tuples : ℕ → TableHeap → Option ℕ
count_all_tuples fuel h = count_tuples_from fuel h.pages h.first_page_id

unfoldable pub count_pages : ℕ → TableHeap → Option ℕ
count_pages fuel h = count_pages_from fuel h.pages h.first_page_id
