-- ===== src/Storage/Tests/Heap.antt =====
-- A table of one page.
use mathlib.Core.Path.{subst}
use franco_db.Prelude.{
  ℕ, zero, suc, ◌<◌, ℤ, pos, invalid, eqb_ℤ, ◌≡◌, ◌≢◌, refl, sym, ap, ◌∙◌, ◌⊎◌, true, none, some,
  List, [], ◌∷◌, length, replicate, arith, Option-cases, inl, inr, if◌then◌else◌,
}
use franco_db.Storage.TablePage.{TablePage, Rid, init, get_next_page_id}
use franco_db.Storage.TablePage.Init.{init-IsValid}
use franco_db.Storage.TablePage.Insert.Rows.{get_next_page_id-insert_tuple, page_id-insert_tuple}
use franco_db.Storage.TableHeap.{
  Pages, NewPage, Manager, TableHeap, Outcome, insert_from, insert_row, read_row, update_row,
}
use franco_db.Storage.TableHeap.Chain.{Well, has, Chain, nil, cons}
use franco_db.Storage.TableHeap.Inserts.{Fresh, IsTable, Stored, read_row_at}
use franco_db.Storage.TableHeap.Loop.{Refused}
use franco_db.Storage.TableHeap.Insert.{insert_row-stores}
use franco_db.Storage.TableHeap.Update.{Marked, update_row-marks}
use franco_db.Storage.TableHeap.Faults.{insert_from_too_large}
use franco_db.Storage.TableHeap.Iterator.{begin}
use franco_db.Storage.TableHeap.Iterator.Rows.{collect, table_rows}
use franco_db.Storage.TableHeap.Iterator.Scan.{collect-begin}
use franco_db.Storage.Tests.{
  raw, new_page, new_page-IsValid, row, first, one_row, one_row-IsValid, row_stored,
}

-- A buffer manager with page 4 to give.
abbrev manager : Manager
manager = record {
  new_page = λ m. elim (m (pos 4)) [
    | none ↦ some (record { page_id = pos 4; raw = raw; pages = m })
    | some p ↦ none
  ];
}

manager-Fresh : (m : Pages) (a : NewPage) → manager.new_page m ≡ some a → Fresh m a
unfolding eqb_ℤ
manager-Fresh m a e = elim (Option-cases (m (pos 4))) [
  | inl n ↦ subst (Fresh m) (given (rw n at e)) (fresh n)
  | inr (p, n) ↦ absurd (clash (rw n at e))
]
  where
    given : {b : NewPage} → some b ≡ some a → b ≡ a
    given h = cc

    clash : none ≢ some a
    clash h = cc

    fresh : m (pos 4) ≡ none → Fresh m (record { page_id = pos 4; raw = raw; pages = m })
    fresh n = record { same = refl; unused = n; small = omega arith; real = refl }

abbrev heap : TableHeap
heap = record {
  pages = λ a. if eqb_ℤ a (pos 3) then some one_row else none;
  first_page_id = pos 3;
  last_page_hint = invalid;
}

abbrev ids : List ℤ
ids = pos 3 ∷ []

one_row-Well : Well (pos 3) one_row
unfolding init eqb_ℤ
one_row-Well = record {
  formed = one_row-IsValid;
  named = page_id-insert_tuple new_page row;
  small = omega arith;
  real = refl;
}

one_row_next : get_next_page_id one_row ≡ invalid
one_row_next =
    get_next_page_id-insert_tuple new_page row new_page-IsValid (omega arith)
    ∙ (init-IsValid raw (pos 3) (pos 2) invalid (omega arith) (omega arith)).2

heap-IsTable : IsTable heap ids
unfolding eqb_ℤ has
heap-IsTable = record {
  chain =
      cons (pos 3) one_row [] refl one_row-Well refl
        (subst (λ z. Chain heap.pages z []) (sym one_row_next) nil);
  open_first = refl;
  hinted = refl;
}

heap_row : read_row heap first ≡ some row
unfolding eqb_ℤ
heap_row = read_row_at heap first one_row refl ∙ row_stored

first_inside : has (pos 3) ids ≡ true
unfolding has eqb_ℤ
first_inside = refl

insert_row-stores_example :
    (o : Outcome) × (insert_row manager row 5 heap ≡ some o)
    × (Stored heap row o ⊎ Refused manager heap o)
insert_row-stores_example =
    insert_row-stores manager row heap ids 5 (omega arith, omega arith) heap-IsTable
      (manager-Fresh heap.pages) (omega arith)

update_row-marks_example :
    (g : TableHeap) × Marked heap ids first g
    × ((o : Outcome) × (update_row manager 5 heap (9 ∷ 9 ∷ []) first ≡ some o)
        × (Stored g (9 ∷ 9 ∷ []) o ⊎ Refused manager g o))
update_row-marks_example =
    update_row-marks manager (9 ∷ 9 ∷ []) row heap ids first 5 (omega arith, omega arith)
      heap-IsTable first_inside heap_row manager-Fresh (omega arith)

-- 5000 bytes.
abbrev large : List ℕ
large = replicate 5000 7

length-large : (n a : ℕ) → length (replicate n a) ≡ n
length-large zero a = refl
length-large (suc n) a = ap suc (length-large n a)

page_four : NewPage
page_four = record { page_id = pos 4; raw = raw; pages = heap.pages }

page_four-Fresh : Fresh heap.pages page_four
unfolding page_four eqb_ℤ
page_four-Fresh = record { same = refl; unused = refl; small = omega arith; real = refl }

page_four_given : manager.new_page heap.pages ≡ some page_four
unfolding page_four eqb_ℤ
page_four_given = refl

one_there : heap.pages (pos 3) ≡ some one_row
unfolding eqb_ℤ
one_there = refl

one_last : eqb_ℤ (get_next_page_id one_row) invalid ≡ true
unfolding eqb_ℤ
one_last = rw one_row_next refl

insert_from_too_large_example :
    (o : Outcome) × (insert_from manager large 1 heap (pos 3) ≡ some o)
    × (o.ok ≡ true)
    × (o.rid ≡ none)
    × ((r : Rid) → read_row o.heap r ≡ read_row heap r)
    × (o.heap.last_page_hint ≡ page_four.page_id)
    × ((q : TablePage) × (o.heap.pages (pos 3) ≡ some q) × (get_next_page_id q ≡ page_four.page_id))
    × (o.heap.pages page_four.page_id ≡ some (init page_four.raw page_four.page_id (pos 3) invalid))
insert_from_too_large_example =
    insert_from_too_large manager large heap 0 (pos 3) one_row page_four one_there one_row-Well
      (omega (arith, length-large 5000 7)) (omega (arith, length-large 5000 7)) one_last
      page_four_given page_four-Fresh

heap_chain : Chain heap.pages (pos 3) ids
heap_chain = heap-IsTable.chain

abbrev enough : ℕ
enough = suc (length (table_rows heap.pages ids))

below : (n : ℕ) → n < suc n
below n = omega arith

collect-begin_example :
    collect enough 2 heap.pages (begin 2 heap) ≡ some (table_rows heap.pages ids)
collect-begin_example =
    collect-begin heap ids enough 2 heap_chain heap-IsTable.open_first (omega arith)
      (below (length (table_rows heap.pages ids)))
