-- ===== src/Storage/TableHeap/Faults.antt =====
-- What InsertTuple of src/storage/table/table_heap.cpp does with a row that fits no page.
use franco_db.Prelude.{
  ℕ, suc, ◌+◌, ◌-◌, ◌<◌, ℤ, invalid, eqb_ℤ, eqb_ℤ_refl, eqb_ℤ_ne, ◌≡◌, ◌≢◌, refl, sym, ap, ◌∙◌,
  true, none, some, List, length, arith,
}
use franco_db.Storage.TablePage.{
  TablePage, Rid, page_size, size_header, slot_size, init, insert_tuple, get_tuple,
  get_next_page_id, set_next_page_id,
}
use franco_db.Storage.TablePage.Init.{init-IsValid}
use franco_db.Storage.TablePage.Insert.{IsValid, remaining_lem}
use franco_db.Storage.TablePage.Insert.Rows.{Measurable, refused}
use franco_db.Storage.TablePage.Links.{
  get_next_page_id-set_next_page_id, get_tuple-set_next_page_id,
}
use franco_db.Storage.TableHeap.{
  NewPage, Manager, TableHeap, Outcome, put_page, link, insert_from, read_row,
}
use franco_db.Storage.TableHeap.Chain.{Well}
use franco_db.Storage.TableHeap.Inserts.{Fresh, read_row-two}
use franco_db.Storage.TableHeap.Loop.{links}

too_large :
    (p : TablePage) (tuple : List ℕ)
    → IsValid p.bytes
    → Measurable tuple
    → page_size - size_header < length tuple + slot_size
    → insert_tuple p tuple ≡ (none, p)
too_large p tuple v small big =
    refused p tuple v small (omega (arith, remaining_lem p.bytes v, v.pointed))

module _ (h : TableHeap) (tuple : List ℕ) (curr : ℤ) (p : TablePage) (a : NewPage) (w : Well curr p)
    (small : Measurable tuple) (big : page_size - size_header < length tuple + slot_size)
    (e : h.pages curr ≡ some p) (u : Fresh h.pages a) where
  fresh : TablePage
  fresh = init a.raw a.page_id curr invalid

  fresh_empty : insert_tuple fresh tuple ≡ (none, fresh)
  unfolding fresh
  fresh_empty =
      too_large fresh tuple (init-IsValid a.raw a.page_id curr invalid w.small (omega arith)).0
        small big

  linked : TablePage
  linked = record (set_next_page_id p a.page_id) { is_dirty = true }

  get_tuple-linked : (i : ℕ) → get_tuple linked i ≡ get_tuple p i
  unfolding linked get_tuple set_next_page_id
  get_tuple-linked i = get_tuple-set_next_page_id p a.page_id i

  lost : (r : Rid) → read_row (link h curr p a tuple).heap r ≡ read_row h r
  unfolding link fresh linked
  lost r =
      read_row-two h (link h curr p a tuple).heap curr a.page_id p linked fresh r
        (ap (λ m. put_page (put_page m curr linked) a.page_id (insert_tuple fresh tuple).1) u.same
          ∙ ap (λ z. put_page (put_page h.pages curr linked) a.page_id z.1) fresh_empty)
        e u.unused (get_tuple-linked r.slot_num)
        (λ j. (init-IsValid a.raw a.page_id curr invalid w.small (omega arith)).4 r.slot_num)

  no_place : (link h curr p a tuple).rid ≡ none
  unfolding link fresh
  no_place = ap (λ z. z.0) fresh_empty

  succeeds :
      ((link h curr p a tuple).ok ≡ true)
      × ((link h curr p a tuple).heap.last_page_hint ≡ a.page_id)
  unfolding link
  succeeds = (refl, refl)

  put_fresh : (link h curr p a tuple).heap.pages a.page_id ≡ some fresh
  unfolding link fresh put_page
  put_fresh = rw (eqb_ℤ_refl a.page_id) (ap some (ap (λ z. z.1) fresh_empty))

  put_linked : (link h curr p a tuple).heap.pages curr ≡ some linked
  unfolding link linked put_page
  put_linked = rw (eqb_ℤ_ne curr a.page_id apart, eqb_ℤ_refl curr) refl
    where
      clash : none ≡ some p → ⊥
      clash k = ground arith

      apart : curr ≢ a.page_id
      apart k = clash (sym u.unused ∙ ap h.pages (sym k) ∙ e)

  get_next-linked : get_next_page_id linked ≡ a.page_id
  unfolding linked get_next_page_id set_next_page_id
  get_next-linked = get_next_page_id-set_next_page_id p a.page_id u.small

-- InsertTuple at the last page of a table, of a row too large for an empty page, whose size with a
-- slot fits 32 bits, returns true whenever NewPage gives an unused page and changes no other: the
-- page that was last is linked to the new one, which is empty and becomes the hint, every place reads
-- as before, and the row has no place.
pub insert_from_too_large :
    (bpm : Manager) (tuple : List ℕ) (h : TableHeap) (fuel : ℕ) (curr : ℤ) (p : TablePage)
    (a : NewPage)
    → h.pages curr ≡ some p
    → Well curr p
    → page_size - size_header < length tuple + slot_size
    → Measurable tuple
    → eqb_ℤ (get_next_page_id p) invalid ≡ true
    → bpm.new_page h.pages ≡ some a
    → Fresh h.pages a
    → (o : Outcome) × (insert_from bpm tuple (suc fuel) h curr ≡ some o)
      × (o.ok ≡ true)
      × (o.rid ≡ none)
      × ((r : Rid) → read_row o.heap r ≡ read_row h r)
      × (o.heap.last_page_hint ≡ a.page_id)
      × ((q : TablePage) × (o.heap.pages curr ≡ some q) × (get_next_page_id q ≡ a.page_id))
      × (o.heap.pages a.page_id ≡ some (init a.raw a.page_id curr invalid))
unfolding init fresh
insert_from_too_large bpm tuple h fuel curr p a e w big small l n u = (
  link h curr p a tuple,
  links bpm tuple h fuel curr p e (ap (λ z. z.0) (too_large p tuple w.formed small big)) l a n
      u.same,
  (succeeds h tuple curr p a w small big e u).0,
  no_place h tuple curr p a w small big e u,
  lost h tuple curr p a w small big e u,
  (succeeds h tuple curr p a w small big e u).1,
  (
    linked h tuple curr p a w small big e u,
    put_linked h tuple curr p a w small big e u,
    get_next-linked h tuple curr p a w small big e u,
  ),
  put_fresh h tuple curr p a w small big e u,
)
