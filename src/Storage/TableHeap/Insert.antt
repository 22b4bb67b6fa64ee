-- ===== src/Storage/TableHeap/Insert.antt =====
-- InsertTuple and UpdateTuple of src/storage/table/table_heap.cpp, from the hint on.
use mathlib.Core.Path.{subst}
use franco_db.Prelude.{
  ℕ, ◌≤◌, ℤ, invalid, eqb_ℤ, eqb_ℤ_refl, ◌≡◌, refl, sym, ap, ◌∙◌, ◌⊎◌, inl, inr, Bool, true, false,
  ◌||◌, some, List, length, arith, Bool-cases, Option-cases,
}
use franco_db.Storage.TablePage.{get_prev_page_id}
use franco_db.Storage.TableHeap.{
  NewPage, Manager, TableHeap, Outcome, forget_hint, start_page, insert_from, insert_row,
}
use franco_db.Storage.TableHeap.Chain.{has, has-start, has-real, suffix}
use franco_db.Storage.TableHeap.Inserts.{Fits, Fresh, IsTable, Stored, read_row_same}
use franco_db.Storage.TableHeap.Loop.{Refused, Done, from_page}

-- Where the search starts: at a page of the table, with the pages as they were.
record Starts (h : TableHeap) (ids : List ℤ) (s : ℤ × TableHeap) : Type 0 where
  table : IsTable s.1 ids
  pages : s.1.pages ≡ h.pages
  first : s.1.first_page_id ≡ h.first_page_id
  inside : has s.0 ids ≡ true

module _ (h : TableHeap) (ids : List ℤ) (t : IsTable h ids) where
  at_first : Starts h ids (h.first_page_id, h)
  at_first = record {
    table = t;
    pages = refl;
    first = refl;
    inside = has-start h.pages h.first_page_id ids t.chain t.open_first;
  }

  forgotten : Starts h ids (h.first_page_id, forget_hint h)
  unfolding forget_hint
  forgotten = record {
    table = record {
      chain = t.chain;
      open_first = t.open_first;
      hinted = rw (eqb_ℤ_refl invalid) refl;
    };
    pages = refl;
    first = refl;
    inside = has-start h.pages h.first_page_id ids t.chain t.open_first;
  }

  at_hint : eqb_ℤ h.last_page_hint invalid ≡ false → Starts h ids (h.last_page_hint, h)
  at_hint n = record { table = t; pages = refl; first = refl; inside = second n t.hinted }
    where
      second : {b c : Bool} → b ≡ false → (b || c) ≡ true → c ≡ true
      second k h = ground arith

  start_page-Starts : Starts h ids (start_page h)
  unfolding start_page
  start_page-Starts =
      elim (Bool-cases (eqb_ℤ h.last_page_hint invalid || eqb_ℤ h.last_page_hint h.first_page_id)) [
        | inl k ↦ rw (start_page, k) at_first
        | inr k ↦ elim (Option-cases (h.pages h.last_page_hint)) [
          | inl n ↦ rw (start_page, k, n) forgotten
          | inr (p, n) ↦ elim (Bool-cases (eqb_ℤ (get_prev_page_id p) invalid)) [
            | inl j ↦ rw (start_page, k, n, j) forgotten
            | inr j ↦
                rw (start_page, k, n, j)
                  (at_hint (
                    first_false (eqb_ℤ h.last_page_hint invalid)
                      (eqb_ℤ h.last_page_hint h.first_page_id) k))
          ]
        ]
      ]
    where
      first_false : (b c : Bool) → (b || c) ≡ false → b ≡ false
      first_false b c h = ground arith

-- The same, for a heap with the same pages.
Stored-same :
    (h g : TableHeap) (tuple : List ℕ) (o : Outcome)
    → g.pages ≡ h.pages
    → Stored g tuple o
    → Stored h tuple o
Stored-same h g tuple o e s = record {
  place = s.place;
  succeeds = s.succeeds;
  returns = s.returns;
  reads = s.reads;
  spares = λ r n. s.spares r n ∙ read_row_same g h r (ap (λ m. m r.page_id) e);
  pages = s.pages;
  table = s.table;
}

Refused-same :
    (bpm : Manager) (h g : TableHeap) (o : Outcome)
    → g.pages ≡ h.pages
    → Refused bpm g o
    → Refused bpm h o
Refused-same bpm h g o e s = record {
  none_left = ap bpm.new_page (sym e) ∙ s.none_left;
  fails = s.fails;
  keeps = λ r. s.keeps r ∙ read_row_same g h r (ap (λ m. m r.page_id) e);
}

module _ (bpm : Manager) (tuple : List ℕ) (h : TableHeap) (ids : List ℤ) (fuel : ℕ) (f : Fits tuple)
    (t : IsTable h ids) (fr : (a : NewPage) → bpm.new_page h.pages ≡ some a → Fresh h.pages a)
    (enough : length ids ≤ fuel) where
  from_start :
      (s : ℤ × TableHeap)
      → Starts h ids s
      → Done bpm tuple f h ids t fr (insert_from bpm tuple fuel s.1 s.0)
  from_start s st =
      let (tail, c, l, sub) = suffix s.1.pages s.1.first_page_id s.0 ids st.table.chain st.inside in
      let (o, e, r) =
        from_page bpm tuple f s.1 ids st.table
          (λ a n. subst (λ m. Fresh m a) (sym st.pages) (fr a (ap bpm.new_page (sym st.pages) ∙ n)))
          fuel s.0 tail c sub
          (has-real s.1.pages s.1.first_page_id s.0 ids st.table.chain st.inside)
          (shorter l enough) in
      (
        o,
        e,
        elim r [
          | inl x ↦ inl (Stored-same h s.1 tuple o st.pages x)
          | inr x ↦ inr (Refused-same bpm h s.1 o st.pages x)
        ],
      )
    where
      shorter : {a b c : ℕ} → a ≤ b → b ≤ c → a ≤ c
      shorter l m = omega arith

  insert_row-from_page :
      (o : Outcome) × (insert_row bpm tuple fuel h ≡ some o) × (Stored h tuple o ⊎ Refused bpm h o)
  unfolding insert_row
  insert_row-from_page =
      rw (t.open_first, insert_row) (from_start (start_page h) (start_page-Starts h ids t))

-- InsertTuple of a row that is not empty and fits an empty page ends, on a table whose pages are
-- linked and well formed, with fuel for each of its pages and a buffer manager whose NewPage gives
-- an unused page and changes no other. Either it returns true and a place where the row then reads
-- back, every other place reads as before, and the pages are again such a table; or NewPage gave
-- no page, it returns false, and every place reads as before.
pub insert_row-stores :
    (bpm : Manager) (tuple : List ℕ) (h : TableHeap) (ids : List ℤ) (fuel : ℕ)
    → Fits tuple
    → IsTable h ids
    → ((a : NewPage) → bpm.new_page h.pages ≡ some a → Fresh h.pages a)
    → length ids ≤ fuel
    → (o : Outcome) × (insert_row bpm tuple fuel h ≡ some o) × (Stored h tuple o ⊎ Refused bpm h o)
insert_row-stores bpm tuple h ids fuel f t fr enough =
    insert_row-from_page bpm tuple h ids fuel f t fr enough
