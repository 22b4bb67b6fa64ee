-- ===== src/Storage/TableHeap/Iterator/Rows.antt =====
-- The rows of a table, and what the inner loop of AdvanceToNextValidTuple, in
-- src/storage/table/table_heap.cpp, finds of them.
use franco_db.Prelude.{
  ℕ, zero, suc, ◌+◌, ◌-◌, ◌<◌, ℤ, ◌≡◌, refl, ap, ◌∙◌, ◌⊎◌, inl, inr, true, false, Option, none,
  some, List, [], ◌∷◌, ◌++◌, arith, Option-cases,
}
use franco_db.Storage.TablePage.{TablePage, Rid, get_tuple, get_tuple_count}
use franco_db.Storage.TableHeap.{Pages}
use franco_db.Storage.TableHeap.Iterator.{Iterator, find_slot, next, at_end, get_rid}

abbrev pub Rows : Type 0
Rows = List (Rid × List ℕ)

abbrev pub place : ℤ → ℕ → Rid
place id i = record { page_id = id; slot_num = i }

-- The rows of a page: its readable slots in order, `n` of them from `i` on.
unfoldable pub slot_rows : TablePage → ℤ → ℕ → ℕ → Rows
slot_rows p id i zero = []
slot_rows p id i (suc n) = elim (get_tuple p i) [
  | some t ↦ (place id i, t) ∷ slot_rows p id (suc i) n
  | none ↦ slot_rows p id (suc i) n
]

unfoldable pub page_rows : Pages → ℤ → ℕ → Rows
page_rows m id i = elim (m id) [
  | none ↦ []
  | some p ↦ slot_rows p id i (get_tuple_count p.bytes - i)
]

-- The rows of a table's pages.
unfoldable pub table_rows : Pages → List ℤ → Rows
table_rows m [] = []
table_rows m (id ∷ ids) = page_rows m id 0 ++ table_rows m ids

-- The client's loop: while the iterator is not at the end, take its row and move on. An iterator
-- without a row in its cache would read it again, and stops the loop here.
unfoldable pub collect : ℕ → ℕ → Pages → Option Iterator → Option Rows
collect zero steps m o = none
collect (suc fuel) steps m none = none
collect (suc fuel) steps m (some it) = elim (at_end it) [
  | true ↦ some []
  | false ↦ elim it.cached [
    | none ↦ none
    | some t ↦ elim (collect fuel steps m (next steps m it)) [
      | none ↦ none
      | some rows ↦ some ((get_rid it, t) ∷ rows)
    ]
  ]
]

module _ (p : TablePage) (id : ℤ) (i n : ℕ) where
  find_slot-skip : get_tuple p i ≡ none → find_slot p i (suc n) ≡ find_slot p (suc i) n
  unfolding find_slot
  find_slot-skip e = rw (e, find_slot) refl

  find_slot-hit : (t : List ℕ) → get_tuple p i ≡ some t → find_slot p i (suc n) ≡ (i, some t)
  unfolding find_slot
  find_slot-hit t e = rw (e, find_slot) refl

  slot_rows-skip : get_tuple p i ≡ none → slot_rows p id i (suc n) ≡ slot_rows p id (suc i) n
  unfolding slot_rows
  slot_rows-skip e = rw (e, slot_rows) refl

  slot_rows-hit :
      (t : List ℕ)
      → get_tuple p i ≡ some t
      → slot_rows p id i (suc n) ≡ (place id i, t) ∷ slot_rows p id (suc i) n
  unfolding slot_rows
  slot_rows-hit t e = rw (e, slot_rows) refl

-- What the inner loop finds: no row, or the first one.
abbrev pub Nothing : TablePage → ℤ → ℕ → ℕ → Type 0
Nothing p id i n = ((find_slot p i n).1 ≡ none) × (slot_rows p id i n ≡ [])

abbrev pub Hit : TablePage → ℤ → ℕ → ℕ → Type 0
Hit p id i n =
    (j : ℕ) × (t : List ℕ) × (0 < n)
    × (find_slot p i n ≡ (j, some t))
    × (slot_rows p id i n ≡ (place id j, t) ∷ slot_rows p id (suc j) (i + n - suc j))

pub find_slot-finds : (p : TablePage) (id : ℤ) (i n : ℕ) → Nothing p id i n ⊎ Hit p id i n
unfolding find_slot slot_rows
find_slot-finds p id i zero = inl (refl, refl)
find_slot-finds p id i (suc n) = elim (Option-cases (get_tuple p i)) [
  | inl e ↦ elim (find_slot-finds p id (suc i) n) [
    | inl h ↦ inl (ap (λ r. r.1) (find_slot-skip p id i n e) ∙ h.0, slot_rows-skip p id i n e ∙ h.1)
    | inr (j, t, b, f, r) ↦ inr (
      j,
      t,
      positive n,
      find_slot-skip p id i n e ∙ f,
      slot_rows-skip p id i n e
          ∙ r
          ∙ ap (λ k. (place id j, t) ∷ slot_rows p id (suc j) (k - suc j)) (shift i n),
    )
  ]
  | inr (t, e) ↦ inr (
    i,
    t,
    positive n,
    find_slot-hit p id i n t e,
    slot_rows-hit p id i n t e ∙ ap (λ k. (place id i, t) ∷ slot_rows p id (suc i) k) (left i n),
  )
]
  where
    positive : (n : ℕ) → 0 < suc n
    positive n = omega arith

    shift : (i n : ℕ) → suc i + n ≡ i + suc n
    shift i n = omega arith

    left : (i n : ℕ) → n ≡ i + suc n - suc i
    left i n = omega arith

abbrev pub rows_from : Pages → List ℤ → ℕ → Rows
rows_from m [] i = []
rows_from m (id ∷ ids) i = page_rows m id i ++ table_rows m ids
