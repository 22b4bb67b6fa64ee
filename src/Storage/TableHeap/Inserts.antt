-- ===== src/Storage/TableHeap/Inserts.antt =====
-- What InsertTuple of src/storage/table/table_heap.cpp promises while no other thread changes the
-- table's pages.
use mathlib.Core.Path.{subst}
use franco_db.Prelude.{
  ℕ, ◌+◌, ◌-◌, ◌≤◌, ◌<◌, ℤ, invalid, eqb_ℤ, eqb_ℤ-eq, eqb_ℤ_refl, ◌≡◌, ◌≢◌, refl, sym, ap, ◌∙◌, inl,
  inr, Bool, true, false, ◌&&◌, ◌||◌, none, some, List, [], ◌∷◌, ◌++◌, length, arith, ◌==◌, ==_refl,
  Bool-cases,
}
use franco_db.Storage.Memory.{Int32}
use franco_db.Storage.TablePage.{
  TablePage, Rid, page_size, size_header, slot_size, init, get_next_page_id, set_next_page_id,
  insert_tuple, get_tuple,
}
use franco_db.Storage.TablePage.Init.{init-IsValid}
use franco_db.Storage.TablePage.Insert.Rows.{
  Measurable, insert_tuple-IsValid, insert_tuple_room, get_tuple-insert_tuple,
  get_tuple-insert_tuple_ne, get_next_page_id-insert_tuple, page_id-insert_tuple, rid-insert_tuple,
}
use franco_db.Storage.TablePage.Links.{
  set_next_page_id-IsValid, get_next_page_id-set_next_page_id, get_tuple-set_next_page_id,
}
use franco_db.Storage.TableHeap.{
  Pages, NewPage, TableHeap, Outcome, put_page, stored, link, read_row,
}
use franco_db.Storage.TableHeap.Chain.{
  Well, has, Chain, put_page_hit, put_page_ne, replace-Chain, snoc-Chain, some_inj,
}

-- A row that is not empty and fits an empty page.
abbrev pub Fits : List ℕ → Type 0
Fits tuple = (0 < length tuple) × (length tuple + slot_size ≤ page_size - size_header)

-- NewPage changes no other page, and gives an id that is not in use.
pub record Fresh (m : Pages) (a : NewPage) : Type 0 where
  pub same : a.pages ≡ m
  pub unused : m a.page_id ≡ none
  pub small : Int32 a.page_id
  pub real : eqb_ℤ a.page_id invalid ≡ false

pub record IsTable (h : TableHeap) (ids : List ℤ) : Type 0 where
  pub chain : Chain h.pages h.first_page_id ids
  pub open_first : eqb_ℤ h.first_page_id invalid ≡ false
  pub hinted : (eqb_ℤ h.last_page_hint invalid || has h.last_page_hint ids) ≡ true

abbrev pub same_place : Rid → Rid → Bool
same_place r s = eqb_ℤ r.page_id s.page_id && (r.slot_num == s.slot_num)

-- The row is stored at the place that is returned, every other row is as it was, and the pages are
-- a table again.
pub record Stored (h : TableHeap) (tuple : List ℕ) (o : Outcome) : Type 0 where
  pub place : Rid
  pub succeeds : o.ok ≡ true
  pub returns : o.rid ≡ some place
  pub reads : read_row o.heap place ≡ some tuple
  pub spares : (r : Rid) → same_place r place ≡ false → read_row o.heap r ≡ read_row h r
  pub pages : List ℤ
  pub table : IsTable o.heap pages

pub read_row_at :
    (h : TableHeap) (r : Rid) (p : TablePage)
    → h.pages r.page_id ≡ some p
    → read_row h r ≡ get_tuple p r.slot_num
unfolding read_row
read_row_at h r p e = rw (e, read_row) refl

pub read_row_same :
    (h g : TableHeap) (r : Rid)
    → h.pages r.page_id ≡ g.pages r.page_id
    → read_row h r ≡ read_row g r
unfolding read_row
read_row_same h g r e = rw (e, read_row) refl

Fits-Measurable : (tuple : List ℕ) → Fits tuple → Measurable tuple
Fits-Measurable tuple f = omega (arith, f.1)

pub slot_ne :
    (a b : ℤ) (r s : Rid)
    → s.page_id ≡ b
    → eqb_ℤ r.page_id b ≡ true
    → same_place r s ≡ false
    → r.slot_num ≢ s.slot_num
slot_ne a b r s e k h n = clash k (rw (e, n, ==_refl s.slot_num) at h)
  where
    clash : {b : Bool} → b ≡ true → (b && true) ≡ false → ⊥
    clash k h = ground arith

pub eqb_ℤ_of : (a b : ℤ) → a ≡ b → eqb_ℤ a b ≡ true
eqb_ℤ_of a b e = rw (e, eqb_ℤ_refl b) refl

insert_tuple-Well :
    (curr : ℤ) (p : TablePage) (tuple : List ℕ)
    → Fits tuple
    → Well curr p
    → Well curr (insert_tuple p tuple).1
insert_tuple-Well curr p tuple f w = record {
  formed = insert_tuple-IsValid p tuple w.formed (Fits-Measurable tuple f);
  named = page_id-insert_tuple p tuple ∙ w.named;
  small = w.small;
  real = w.real;
}

or_true : (b : Bool) → (b || true) ≡ true
or_true b = ground arith

-- The page took the row.
pub stored-Stored :
    (h : TableHeap) (ids : List ℤ) (tuple : List ℕ) (curr : ℤ) (p : TablePage) (rid : Rid)
    → IsTable h ids
    → Fits tuple
    → has curr ids ≡ true
    → h.pages curr ≡ some p
    → Well curr p
    → (insert_tuple p tuple).0 ≡ some rid
    → Stored h tuple (stored h curr rid (insert_tuple p tuple).1)
unfolding stored
stored-Stored h ids tuple curr p rid t f i e w k = record {
  place = rid;
  succeeds = refl;
  returns = refl;
  reads =
      read_row_at (after.heap) rid q
        (put_page_hit h.pages curr rid.page_id q (eqb_ℤ_of rid.page_id curr here))
      ∙ get_tuple-insert_tuple p tuple rid w.formed (Fits-Measurable tuple f) f.0 k;
  spares = λ r n. elim (Bool-cases (eqb_ℤ r.page_id curr)) [
    | inl j ↦
        read_row_at after.heap r q (put_page_hit h.pages curr r.page_id q j)
        ∙ get_tuple-insert_tuple_ne p tuple rid r.slot_num w.formed (Fits-Measurable tuple f) k
            (slot_ne r.page_id curr r rid here j n)
        ∙ sym (read_row_at h r p (ap h.pages (eqb_ℤ-eq r.page_id curr j) ∙ e))
    | inr j ↦ read_row_same after.heap h r (put_page_ne h.pages curr r.page_id q j)
  ];
  pages = ids;
  table = record {
    chain =
        replace-Chain h.pages curr p q h.first_page_id ids e (insert_tuple-Well curr p tuple f w)
          (get_next_page_id-insert_tuple p tuple w.formed (Fits-Measurable tuple f)) t.chain;
    open_first = t.open_first;
    hinted = rw i (or_true (eqb_ℤ curr invalid));
  };
}
  where
    q : TablePage
    q = (insert_tuple p tuple).1

    after : Outcome
    after = stored h curr rid q

    here : rid.page_id ≡ curr
    here = rid-insert_tuple p tuple rid k ∙ w.named

pub read_row-none : (h : TableHeap) (r : Rid) → h.pages r.page_id ≡ none → read_row h r ≡ none
unfolding read_row
read_row-none h r e = rw (e, read_row) refl

-- Two pages change: one keeps its rows, the other was not there.
pub read_row-two :
    (h g : TableHeap) (curr id : ℤ) (p q fl : TablePage) (r : Rid)
    → g.pages ≡ put_page (put_page h.pages curr q) id fl
    → h.pages curr ≡ some p
    → h.pages id ≡ none
    → get_tuple q r.slot_num ≡ get_tuple p r.slot_num
    → (eqb_ℤ r.page_id id ≡ true → get_tuple fl r.slot_num ≡ none)
    → read_row g r ≡ read_row h r
read_row-two h g curr id p q fl r e f n same empty = elim (Bool-cases (eqb_ℤ r.page_id id)) [
  | inl j ↦
      read_row_at g r fl
        (ap (λ m. m r.page_id) e ∙ put_page_hit (put_page h.pages curr q) id r.page_id fl j)
      ∙ empty j
      ∙ sym (read_row-none h r (ap h.pages (eqb_ℤ-eq r.page_id id j) ∙ n))
  | inr j ↦
      let old = ap (λ m. m r.page_id) e ∙ put_page_ne (put_page h.pages curr q) id r.page_id fl j in
      elim (Bool-cases (eqb_ℤ r.page_id curr)) [
        | inl k ↦
            read_row_at g r q (old ∙ put_page_hit h.pages curr r.page_id q k)
            ∙ same
            ∙ sym (read_row_at h r p (ap h.pages (eqb_ℤ-eq r.page_id curr k) ∙ f))
        | inr k ↦ read_row_same g h r (old ∙ put_page_ne h.pages curr r.page_id q k)
      ]
]

has-snoc_self : (a : ℤ) (ids : List ℤ) → has a (ids ++ a ∷ []) ≡ true
unfolding has
has-snoc_self a [] = rw (eqb_ℤ_refl a) refl
has-snoc_self a (b ∷ ids) = rw (has-snoc_self a ids) (or_true (eqb_ℤ a b))

-- The page was the last one, and a new page takes the row.
module _ (h : TableHeap) (ids : List ℤ) (tuple : List ℕ) (curr : ℤ) (p : TablePage) (a : NewPage)
    (t : IsTable h ids) (f : Fits tuple) (i : has curr ids ≡ true) (e : h.pages curr ≡ some p)
    (w : Well curr p) (l : eqb_ℤ (get_next_page_id p) invalid ≡ true) (u : Fresh h.pages a) where
  fresh : TablePage
  fresh = init a.raw a.page_id curr invalid

  linked : TablePage
  linked = record (set_next_page_id p a.page_id) { is_dirty = true }

  filled : TablePage
  filled = (insert_tuple fresh tuple).1

  result : TableHeap
  result = (link h curr p a tuple).heap

  fresh-Well : Well a.page_id fresh
  unfolding fresh init
  fresh-Well = record {
    formed = (init-IsValid a.raw a.page_id curr invalid w.small (omega arith)).0;
    named = refl;
    small = u.small;
    real = u.real;
  }

  linked-Well : Well curr linked
  unfolding linked set_next_page_id
  linked-Well = record {
    formed = set_next_page_id-IsValid p a.page_id w.formed;
    named = w.named;
    small = w.small;
    real = w.real;
  }

  get_tuple-linked : (i : ℕ) → get_tuple linked i ≡ get_tuple p i
  unfolding linked get_tuple set_next_page_id
  get_tuple-linked i = get_tuple-set_next_page_id p a.page_id i

  get_next-linked : get_next_page_id linked ≡ a.page_id
  unfolding linked get_next_page_id set_next_page_id
  get_next-linked = get_next_page_id-set_next_page_id p a.page_id u.small

  fresh_place : (rid : Rid) × ((insert_tuple fresh tuple).0 ≡ some rid)
  unfolding fresh
  fresh_place = elim (insert_tuple_room fresh tuple fresh-Well.formed (Fits-Measurable tuple f)) [
    | inl n ↦ absurd (
        omega
          (arith, n.0, f.1, (init-IsValid a.raw a.page_id curr invalid w.small (omega arith)).3))
    | inr n ↦ (n.0, n.1)
  ]

  result_pages : result.pages ≡ put_page (put_page h.pages curr linked) a.page_id filled
  unfolding result link linked filled fresh
  result_pages = ap (λ m. put_page (put_page m curr linked) a.page_id filled) u.same

  result_new : (b : ℤ) → eqb_ℤ b a.page_id ≡ true → result.pages b ≡ some filled
  result_new b j =
      ap (λ m. m b) result_pages ∙ put_page_hit (put_page h.pages curr linked) a.page_id b filled j

  rid_here : fresh_place.0.page_id ≡ a.page_id
  rid_here = rid-insert_tuple fresh tuple fresh_place.0 fresh_place.1 ∙ fresh-Well.named

  get_next-filled : get_next_page_id filled ≡ invalid
  unfolding filled fresh
  get_next-filled =
      get_next_page_id-insert_tuple fresh tuple fresh-Well.formed (Fits-Measurable tuple f)
      ∙ (init-IsValid a.raw a.page_id curr invalid w.small (omega arith)).2

  link_spares : (r : Rid) → same_place r fresh_place.0 ≡ false → read_row result r ≡ read_row h r
  unfolding filled fresh
  link_spares r n =
      read_row-two h result curr a.page_id p linked filled r result_pages e u.unused
        (get_tuple-linked r.slot_num)
        (λ j.
          get_tuple-insert_tuple_ne fresh tuple fresh_place.0 r.slot_num fresh-Well.formed
            (Fits-Measurable tuple f) fresh_place.1
            (slot_ne r.page_id a.page_id r fresh_place.0 rid_here j n)
          ∙ (init-IsValid a.raw a.page_id curr invalid w.small (omega arith)).4 r.slot_num)

  link_chain : Chain result.pages h.first_page_id (ids ++ a.page_id ∷ [])
  unfolding filled
  link_chain =
      subst (λ m. Chain m h.first_page_id (ids ++ a.page_id ∷ [])) (sym result_pages)
        (snoc-Chain h.pages curr a.page_id linked filled h.first_page_id ids i
          (λ q k. subst (λ z. eqb_ℤ (get_next_page_id z) invalid ≡ true) (some_inj (sym e ∙ k)) l)
          u.unused linked-Well get_next-linked
          (insert_tuple-Well a.page_id fresh tuple f fresh-Well) get_next-filled t.chain)

  pub link-Stored : Stored h tuple (link h curr p a tuple)
  unfolding link result filled fresh
  link-Stored = record {
    place = fresh_place.0;
    succeeds = refl;
    returns = fresh_place.1;
    reads =
        read_row_at result fresh_place.0 filled
          (result_new fresh_place.0.page_id (eqb_ℤ_of fresh_place.0.page_id a.page_id rid_here))
        ∙ get_tuple-insert_tuple fresh tuple fresh_place.0 fresh-Well.formed
            (Fits-Measurable tuple f) f.0 fresh_place.1;
    spares = link_spares;
    pages = ids ++ a.page_id ∷ [];
    table = record {
      chain = link_chain;
      open_first = t.open_first;
      hinted = rw (has-snoc_self a.page_id ids) (or_true (eqb_ℤ a.page_id invalid));
    };
  }
