-- ===== src/Storage/TableHeap/Iterator/Scan.antt =====
-- A loop from Begin to End, over TableHeap::Iterator of src/storage/table/table_heap.cpp, visits the
-- rows of the table in order.
use mathlib.Core.Path.{subst}
use franco_db.Prelude.{
  ℕ, zero, suc, ◌+◌, ◌-◌, ◌≤◌, ◌<◌, ℤ, invalid, eqb_ℤ, eqb_ℤ_refl, ◌≡◌, refl, sym, ap, ◌∙◌, ◌⊎◌,
  inl, inr, Bool, true, false, Option, none, some, List, [], ◌∷◌, ◌++◌, length, arith,
}
use franco_db.Storage.TablePage.{TablePage, get_tuple_count, get_next_page_id}
use franco_db.Storage.TableHeap.{Pages, TableHeap}
use franco_db.Storage.TableHeap.Chain.{Chain, nil, cons}
use franco_db.Storage.TableHeap.Iterator.{
  Iterator, find_slot, ended, advance, begin, next, end_iterator, differs, at_end, get_rid,
}
use franco_db.Storage.TableHeap.Iterator.Rows.{
  Rows, place, slot_rows, page_rows, table_rows, collect, find_slot-finds, rows_from,
}

-- The iterator stands on a row, and the rest of the rows is behind it; or it is at the end.
record OnRow (m : Pages) (rows : Rows) (bound : ℕ) (it : Iterator) : Type 0 where
  ids : List ℤ
  chain : Chain m it.current_page_id ids
  short : length ids ≤ bound
  real : eqb_ℤ it.current_page_id invalid ≡ false
  text : List ℕ
  cache : it.cached ≡ some text
  going : it.is_end ≡ false
  split : rows ≡ (get_rid it, text) ∷ rows_from m ids (suc it.current_slot)

abbrev Lands : Pages → Rows → ℕ → Option Iterator → Type 0
Lands m rows bound o =
    (it : Iterator) × (o ≡ some it) × (((rows ≡ []) × (it ≡ end_iterator)) ⊎ OnRow m rows bound it)

abbrev standing : ℤ → ℕ → Option (List ℕ) → Iterator
standing id i c = record { current_page_id = id; current_slot = i; is_end = false; cached = c }

module _ (m : Pages) (fuel i : ℕ) (c : Option (List ℕ)) (id : ℤ) where
  advance-end :
      eqb_ℤ id invalid ≡ true
      → advance (suc fuel) m (standing id i c) ≡ some (ended (standing id i c))
  unfolding advance
  advance-end h = rw (h, advance) refl

  module _ (p : TablePage) (real : eqb_ℤ id invalid ≡ false) (e : m id ≡ some p) where
    advance-hit :
        (j : ℕ) (t : List ℕ)
        → find_slot p i (get_tuple_count p.bytes - i) ≡ (j, some t)
        → advance (suc fuel) m (standing id i c) ≡ some (standing id j (some t))
    unfolding advance
    advance-hit j t h = rw (real, advance) (rw e (ap land h))
      where
        land : ℕ × Option (List ℕ) → Option Iterator
        land r = elim r.1 [
          | some t ↦ some (standing id r.0 (some t))
          | none ↦ advance fuel m (standing (get_next_page_id p) 0 c)
        ]

    advance-skip :
        (find_slot p i (get_tuple_count p.bytes - i)).1 ≡ none
        → advance (suc fuel) m (standing id i c)
          ≡ advance fuel m (standing (get_next_page_id p) 0 c)
    unfolding advance
    advance-skip h = rw (real, advance) (rw (e, h) refl)

page_rows-page :
    (m : Pages) (id : ℤ) (i : ℕ) (p : TablePage)
    → m id ≡ some p
    → page_rows m id i ≡ slot_rows p id i (get_tuple_count p.bytes - i)
unfolding page_rows
page_rows-page m id i p e = rw (e, page_rows) refl

rows_from-zero : (m : Pages) (ids : List ℤ) → rows_from m ids 0 ≡ table_rows m ids
unfolding table_rows
rows_from-zero m [] = refl
rows_from-zero m (id ∷ ids) = refl

advance-Lands :
    (m : Pages) (fuel bound i : ℕ) (c : Option (List ℕ)) (id : ℤ) (ids : List ℤ)
    → Chain m id ids
    → length ids ≤ bound
    → length ids < fuel
    → (eqb_ℤ id invalid ≡ true → i ≡ 0)
    → Lands m (rows_from m ids i) bound (advance fuel m (standing id i c))
unfolding ended end_iterator table_rows get_rid
advance-Lands m zero bound i c id ids ch s l z = absurd (omega arith)
advance-Lands m (suc fuel) bound i c id ids nil s l z = (
  end_iterator,
  advance-end m fuel i c invalid (eqb_ℤ_refl invalid)
      ∙ ap (λ k. some (ended (standing invalid k c))) (z (eqb_ℤ_refl invalid)),
  inl (refl, refl),
)
advance-Lands m (suc fuel) bound i c start ids (cons id p rest e w fresh ch) s l z =
    elim (find_slot-finds p id i (get_tuple_count p.bytes - i)) [
      | inl h ↦
          subst (λ r. Lands m r bound (advance (suc fuel) m (standing id i c)))
            (rows_from-zero m rest
              ∙ sym (ap (λ r. r ++ table_rows m rest) (page_rows-page m id i p e ∙ h.1)))
            (subst (Lands m (rows_from m rest 0) bound)
              (sym (advance-skip m fuel i c id p w.real e h.0))
              (advance-Lands m fuel bound 0 c (get_next_page_id p) rest ch (less s) (lower l)
                (λ q. refl)))
      | inr (j, t, b, f, r) ↦ (
        standing id j (some t),
        advance-hit m fuel i c id p w.real e j t f,
        inr (record {
          ids = id ∷ rest;
          chain = cons id p rest e w fresh ch;
          short = s;
          real = w.real;
          text = t;
          cache = refl;
          going = refl;
          split =
              ap (λ q. q ++ table_rows m rest) (page_rows-page m id i p e ∙ r)
              ∙ ap (λ q. (place id j, t) ∷ (q ++ table_rows m rest))
                  (ap (λ k. slot_rows p id (suc j) (k - suc j))
                      (whole i (get_tuple_count p.bytes) b)
                    ∙ sym (page_rows-page m id (suc j) p e));
        }),
      )
    ]
  where
    less : {a b : ℕ} → suc a ≤ b → a ≤ b
    less h = omega arith

    lower : {a b : ℕ} → suc a < suc b → a < b
    lower h = omega arith

    whole : (i n : ℕ) → 0 < n - i → i + (n - i) ≡ n
    whole i n h = omega arith

-- An iterator is at the end, or on a row.
at_end-end : at_end end_iterator ≡ true
unfolding at_end differs end_iterator eqb_ℤ
at_end-end = refl

at_end-going : (it : Iterator) → it.is_end ≡ false → at_end it ≡ false
unfolding at_end differs end_iterator
at_end-going it h = rw h refl

standing-eq :
    (it : Iterator)
    → it.is_end ≡ false
    → record it { current_slot = suc it.current_slot; cached = none }
      ≡ standing it.current_page_id (suc it.current_slot) none
standing-eq it h =
    ap (λ b. record it { current_slot = suc it.current_slot; cached = none; is_end = b }) h

module _ (fuel steps : ℕ) (m : Pages) where
  collect-end : collect (suc fuel) steps m (some end_iterator) ≡ some []
  unfolding collect
  collect-end = rw (at_end-end, collect) refl

  collect-row :
      (it : Iterator) (t : List ℕ) (rows : Rows)
      → it.is_end ≡ false
      → it.cached ≡ some t
      → collect fuel steps m (next steps m it) ≡ some rows
      → collect (suc fuel) steps m (some it) ≡ some ((get_rid it, t) ∷ rows)
  unfolding collect get_rid
  collect-row it t rows g c h = rw (at_end-going it g, collect) (rw (c, h) refl)

-- The loop from an iterator that landed, with fuel for its rows and the end.
collect-Lands :
    (m : Pages) (rows : Rows) (bound steps fuel : ℕ) (o : Option Iterator)
    → bound < steps
    → length rows < fuel
    → Lands m rows bound o
    → collect fuel steps m o ≡ some rows
unfolding next
collect-Lands m rows bound steps zero o b l h = absurd (omega arith)
collect-Lands m rows bound steps (suc fuel) o b l (it, e, inl (r, i)) =
    ap (collect (suc fuel) steps m) (e ∙ ap some i) ∙ collect-end fuel steps m ∙ ap some (sym r)
collect-Lands m rows bound steps (suc fuel) o b l (it, e, inr x) =
    ap (collect (suc fuel) steps m) e
    ∙ collect-row fuel steps m it x.text (rows_from m x.ids (suc it.current_slot)) x.going x.cache (
        collect-Lands m (rows_from m x.ids (suc it.current_slot)) bound steps fuel (next steps m it)
          b (fewer (ap length x.split) l)
          (subst (Lands m (rows_from m x.ids (suc it.current_slot)) bound) (sym moved) (
            advance-Lands m steps bound (suc it.current_slot) none it.current_page_id x.ids x.chain
              x.short (under x.short b) (λ q. absurd (clash q x.real)))))
    ∙ ap some (sym x.split)
  where
    moved :
        next steps m it ≡ advance steps m (standing it.current_page_id (suc it.current_slot) none)
    moved = ap (advance steps m) (standing-eq it x.going)

    fewer : {k n : ℕ} → k ≡ suc n → k < suc fuel → n < fuel
    fewer e l = omega arith

    under : {a : ℕ} → a ≤ bound → bound < steps → a < steps
    under h k = omega arith

    clash : {b : Bool} → b ≡ true → b ≡ false → ⊥
    clash h k = ground arith

-- A loop from Begin to End over a table whose links lead from its first page through the well-formed
-- pages of a list takes each row that can be read exactly once, in the order of the pages and of the
-- slots, with steps for one page more than there are and fuel for one row more.
pub collect-begin :
    (h : TableHeap) (ids : List ℤ) (fuel steps : ℕ)
    → Chain h.pages h.first_page_id ids
    → eqb_ℤ h.first_page_id invalid ≡ false
    → length ids < steps
    → length (table_rows h.pages ids) < fuel
    → collect fuel steps h.pages (begin steps h) ≡ some (table_rows h.pages ids)
unfolding begin
collect-begin h ids fuel steps ch real b l =
    collect-Lands h.pages (table_rows h.pages ids) (length ids) steps fuel (begin steps h) b l (
      subst (λ r. Lands h.pages r (length ids) (begin steps h)) (rows_from-zero h.pages ids)
        (advance-Lands h.pages steps (length ids) 0 none h.first_page_id ids ch
          (le_refl (length ids)) b (λ q. refl)))
  where
    le_refl : (n : ℕ) → n ≤ n
    le_refl n = omega arith
