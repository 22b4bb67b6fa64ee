-- ===== src/Storage/TableHeap/Update.antt =====
-- MarkDelete and UpdateTuple of src/storage/table/table_heap.cpp on a table.
use mathlib.Core.Path.{subst}
use franco_db.Prelude.{
  ℕ, ◌≤◌, ℤ, eqb_ℤ, eqb_ℤ-eq, eqb_ℤ_refl, ◌≡◌, ◌≢◌, refl, sym, ap, ◌∙◌, ◌⊎◌, inl, inr, Bool, true,
  false, none, some, List, length, Bool-cases, Option-cases,
}
use franco_db.Storage.TablePage.{TablePage, Rid, get_tuple, mark_delete}
use franco_db.Storage.TablePage.Insert.{IsValid}
use franco_db.Storage.TablePage.Delete.{get_tuple-mark_delete}
use franco_db.Storage.TablePage.Links.{get_next_page_id-mark_delete, page_id-mark_delete}
use franco_db.Storage.TableHeap.{
  Pages, NewPage, Manager, TableHeap, Outcome, put_page, insert_row, read_row, on_page,
  mark_delete_row, update_row,
}
use franco_db.Storage.TableHeap.Chain.{
  Well, has, put_page_hit, put_page_ne, replace-Chain, has-Well,
}
use franco_db.Storage.TableHeap.Inserts.{
  Fits, Fresh, IsTable, Stored, same_place, read_row_at, read_row_same, slot_ne,
}
use franco_db.Storage.TableHeap.Loop.{Refused}
use franco_db.Storage.TableHeap.Insert.{insert_row-stores}

-- A row that reads is on a page of the buffer manager.
page_of-read_row :
    (h : TableHeap) (r : Rid) (tuple : List ℕ)
    → read_row h r ≡ some tuple
    → (p : TablePage) × (h.pages r.page_id ≡ some p)
unfolding read_row
page_of-read_row h r tuple e = elim (Option-cases (h.pages r.page_id)) [
  | inl n ↦ absurd (clash (sym (rw (n, read_row) refl) ∙ e))
  | inr x ↦ x
]
  where
    clash : none ≢ some tuple
    clash h = cc

-- The row is gone, every other place reads as before, and the pages are still the table's.
pub record Marked (h : TableHeap) (ids : List ℤ) (r : Rid) (g : TableHeap) : Type 0 where
  pub gone : read_row g r ≡ none
  pub spares : (s : Rid) → same_place s r ≡ false → read_row g s ≡ read_row h s
  pub table : IsTable g ids

on_page-some :
    (change : TablePage → ℕ → Bool × TablePage) (h : TableHeap) (r : Rid) (p : TablePage)
    → h.pages r.page_id ≡ some p
    → on_page change h r ≡ (
      (change p r.slot_num).0,
      record h { pages = put_page h.pages r.page_id (change p r.slot_num).1 },
    )
unfolding on_page
on_page-some change h r p f = rw (f, on_page) refl

update_row_marked :
    (bpm : Manager) (tuple : List ℕ) (h : TableHeap) (r : Rid) (fuel : ℕ)
    → (mark_delete_row h r).0 ≡ true
    → update_row bpm fuel h tuple r ≡ insert_row bpm tuple fuel (mark_delete_row h r).1
unfolding update_row
update_row_marked bpm tuple h r fuel b = rw (b, update_row) refl

-- The page's operation took effect.
module _ (h : TableHeap) (ids : List ℤ) (r : Rid) (tuple : List ℕ) (p : TablePage)
    (t : IsTable h ids) (i : has r.page_id ids ≡ true) (f : h.pages r.page_id ≡ some p)
    (e : get_tuple p r.slot_num ≡ some tuple) where
  q : TablePage
  q = (mark_delete p r.slot_num).1

  after : TableHeap
  after = record h { pages = put_page h.pages r.page_id q }

  mark_delete_row-after : mark_delete_row h r ≡ ((mark_delete p r.slot_num).0, after)
  unfolding mark_delete_row after q
  mark_delete_row-after = on_page-some mark_delete h r p f

  w : Well r.page_id p
  w = has-Well h.pages h.first_page_id r.page_id ids p t.chain i f

  marked :
      (IsValid q.bytes) × ((mark_delete p r.slot_num).0 ≡ true) × (get_tuple q r.slot_num ≡ none)
  unfolding q
  marked = let m = get_tuple-mark_delete p r.slot_num tuple w.formed e in (m.3, m.0, m.1)

  q-Well : Well r.page_id q
  unfolding q
  q-Well = record {
    formed = marked.0;
    named = page_id-mark_delete p r.slot_num ∙ w.named;
    small = w.small;
    real = w.real;
  }

  after_here :
      (s : Rid) → eqb_ℤ s.page_id r.page_id ≡ true → read_row after s ≡ get_tuple q s.slot_num
  unfolding after
  after_here s k = read_row_at after s q (put_page_hit h.pages r.page_id s.page_id q k)

  after-Marked : Marked h ids r after
  unfolding after q
  after-Marked = record {
    gone = after_here r (eqb_ℤ_refl r.page_id) ∙ marked.2;
    spares = λ s n. elim (Bool-cases (eqb_ℤ s.page_id r.page_id)) [
      | inl k ↦
          after_here s k
          ∙ (get_tuple-mark_delete p r.slot_num tuple w.formed e).2 s.slot_num
              (λ m. slot_ne s.page_id r.page_id s r refl k n (sym m))
          ∙ sym (read_row_at h s p (ap h.pages (eqb_ℤ-eq s.page_id r.page_id k) ∙ f))
      | inr k ↦ read_row_same after h s (put_page_ne h.pages r.page_id s.page_id q k)
    ];
    table = record {
      chain =
          replace-Chain h.pages r.page_id p q h.first_page_id ids f q-Well
            (get_next_page_id-mark_delete p r.slot_num) t.chain;
      open_first = t.open_first;
      hinted = t.hinted;
    };
  }

  mark_delete_row-page : ((mark_delete_row h r).0 ≡ true) × Marked h ids r (mark_delete_row h r).1
  mark_delete_row-page = (
    ap (λ z. z.0) mark_delete_row-after ∙ marked.1,
    subst (λ z. Marked h ids r z.1) (sym mark_delete_row-after) after-Marked,
  )

-- MarkDelete of a row that reads, on a page of the table, returns true; the row no longer reads,
-- every other place reads as before, and the pages are still a table.
pub mark_delete_row-marks :
    (h : TableHeap) (ids : List ℤ) (r : Rid) (tuple : List ℕ)
    → IsTable h ids
    → has r.page_id ids ≡ true
    → read_row h r ≡ some tuple
    → ((mark_delete_row h r).0 ≡ true) × Marked h ids r (mark_delete_row h r).1
mark_delete_row-marks h ids r tuple t i e =
    let (p, f) = page_of-read_row h r tuple e in
    mark_delete_row-page h ids r tuple p t i f (sym (read_row_at h r p f) ∙ e)

-- UpdateTuple of a row that reads, on a page of the table, with a row that is not empty and fits an
-- empty page, ends with fuel for each page of the table and a NewPage that gives an unused page
-- and changes no other. With the old row marked, it inserts the new one: either this is stored, or
-- NewPage gave no page, and UpdateTuple returns false with the old row gone.
pub update_row-marks :
    (bpm : Manager) (tuple old : List ℕ) (h : TableHeap) (ids : List ℤ) (r : Rid) (fuel : ℕ)
    → Fits tuple
    → IsTable h ids
    → has r.page_id ids ≡ true
    → read_row h r ≡ some old
    → ((m : Pages) (a : NewPage) → bpm.new_page m ≡ some a → Fresh m a)
    → length ids ≤ fuel
    → (g : TableHeap) × Marked h ids r g
      × ((o : Outcome) × (update_row bpm fuel h tuple r ≡ some o)
          × (Stored g tuple o ⊎ Refused bpm g o))
update_row-marks bpm tuple old h ids r fuel f t i e fr enough =
    let (b, m) = mark_delete_row-marks h ids r old t i e in
    let s =
      insert_row-stores bpm tuple (mark_delete_row h r).1 ids fuel f m.table
        (fr (mark_delete_row h r).1.pages) enough in
    ((mark_delete_row h r).1, m, (s.0, update_row_marked bpm tuple h r fuel b ∙ s.1, s.2))
