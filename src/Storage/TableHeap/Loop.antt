-- ===== src/Storage/TableHeap/Loop.antt =====
-- The loop of InsertTuple of src/storage/table/table_heap.cpp ends, with the row stored or refused.
use mathlib.Core.Path.{subst}
use franco_db.Prelude.{
  ℕ, zero, suc, ◌≤◌, ℤ, invalid, eqb_ℤ, eqb_ℤ_refl, ◌≡◌, refl, sym, ap, ◌⊎◌, inl, inr, Bool, true,
  false, ◌||◌, Option, none, some, List, ◌∷◌, length, arith, Bool-cases, Option-cases,
}
use franco_db.Storage.TablePage.{TablePage, Rid, get_next_page_id, insert_tuple}
use franco_db.Storage.TableHeap.{
  NewPage, Manager, TableHeap, Outcome, failed, stored, link, insert_from, read_row,
}
use franco_db.Storage.TableHeap.Chain.{Well, has, Chain, nil, cons}
use franco_db.Storage.TableHeap.Inserts.{Fits, Fresh, IsTable, Stored, stored-Stored, link-Stored}

-- InsertTuple could not get a new page: it reports this and leaves every row as it was.
pub record Refused (bpm : Manager) (h : TableHeap) (o : Outcome) : Type 0 where
  pub none_left : bpm.new_page h.pages ≡ none
  pub fails : o.ok ≡ false
  pub keeps : (r : Rid) → read_row o.heap r ≡ read_row h r

module _ (bpm : Manager) (tuple : List ℕ) (h : TableHeap) (fuel : ℕ) (curr : ℤ) (p : TablePage)
    (e : h.pages curr ≡ some p) where
  took :
      (rid : Rid)
      → (insert_tuple p tuple).0 ≡ some rid
      → insert_from bpm tuple (suc fuel) h curr ≡ some (stored h curr rid (insert_tuple p tuple).1)
  unfolding insert_from
  took rid k = rw (e, insert_from) (rw k refl)

  module _ (k : (insert_tuple p tuple).0 ≡ none) where
    moves_on :
        eqb_ℤ (get_next_page_id p) invalid ≡ false
        → insert_from bpm tuple (suc fuel) h curr
          ≡ insert_from bpm tuple fuel h (get_next_page_id p)
    unfolding insert_from
    moves_on l = rw (e, insert_from) (rw (k, l) refl)

    module _ (l : eqb_ℤ (get_next_page_id p) invalid ≡ true) where
      refuses :
          bpm.new_page h.pages ≡ none → insert_from bpm tuple (suc fuel) h curr ≡ some (failed h)
      unfolding insert_from
      refuses n = rw (e, insert_from) (rw (k, l, n) refl)

      pub links :
          (a : NewPage)
          → bpm.new_page h.pages ≡ some a
          → a.pages ≡ h.pages
          → insert_from bpm tuple (suc fuel) h curr ≡ some (link h curr p a tuple)
      unfolding insert_from
      links a n u = rw (e, insert_from) (rw (k, l, n, ap (λ m. m curr) u, e, l) refl)

failed-Refused :
    (bpm : Manager) (h : TableHeap) → bpm.new_page h.pages ≡ none → Refused bpm h (failed h)
unfolding failed
failed-Refused bpm h n = record { none_left = n; fails = refl; keeps = λ r. refl }

module _ (bpm : Manager) (tuple : List ℕ) (f : Fits tuple) (h : TableHeap) (ids : List ℤ)
    (t : IsTable h ids) (fr : (a : NewPage) → bpm.new_page h.pages ≡ some a → Fresh h.pages a) where
  abbrev pub Done : Option Outcome → Type 0
  Done r = (o : Outcome) × (r ≡ some o) × (Stored h tuple o ⊎ Refused bpm h o)

  -- The last page has no room.
  at_end :
      (fuel : ℕ) (curr : ℤ) (p : TablePage)
      → has curr ids ≡ true
      → h.pages curr ≡ some p
      → Well curr p
      → (insert_tuple p tuple).0 ≡ none
      → eqb_ℤ (get_next_page_id p) invalid ≡ true
      → Done (insert_from bpm tuple (suc fuel) h curr)
  at_end fuel curr p i e w k l = elim (Option-cases (bpm.new_page h.pages)) [
    | inl n ↦ (failed h, refuses bpm tuple h fuel curr p e k l n, inr (failed-Refused bpm h n))
    | inr (a, n) ↦ (
      link h curr p a tuple,
      links bpm tuple h fuel curr p e k l a n (fr a n).same,
      inl (link-Stored h ids tuple curr p a t f i e w l (fr a n)),
    )
  ]

  pub from_page :
      (fuel : ℕ) (curr : ℤ) (tail : List ℤ)
      → Chain h.pages curr tail
      → ((b : ℤ) → has b tail ≡ true → has b ids ≡ true)
      → eqb_ℤ curr invalid ≡ false
      → length tail ≤ fuel
      → Done (insert_from bpm tuple fuel h curr)
  unfolding has
  from_page fuel curr tail nil sub r l = absurd (clash r)
    where
      clash : eqb_ℤ invalid invalid ≡ false → ⊥
      clash h = ground (arith, eqb_ℤ_refl invalid)
  from_page zero curr tail (cons id p rest e w fresh c) sub r l = absurd (omega arith)
  from_page (suc fuel) curr tail (cons id p rest e w fresh c) sub r l =
      elim (Option-cases (insert_tuple p tuple).0) [
        | inr (rid, k) ↦ (
          stored h id rid (insert_tuple p tuple).1,
          took bpm tuple h fuel id p e rid k,
          inl (stored-Stored h ids tuple id p rid t f (sub id (head id rest)) e w k),
        )
        | inl k ↦ elim (Bool-cases (eqb_ℤ (get_next_page_id p) invalid)) [
          | inl j ↦ at_end fuel id p (sub id (head id rest)) e w k j
          | inr j ↦ subst Done (sym (moves_on bpm tuple h fuel id p e k j)) (
              from_page fuel (get_next_page_id p) rest c (λ b i. sub b (later (eqb_ℤ b id) i)) j
                (less l))
        ]
      ]
    where
      head : (id : ℤ) (rest : List ℤ) → has id (id ∷ rest) ≡ true
      head id rest = rw (eqb_ℤ_refl id) refl

      later : (b : Bool) {c : Bool} → c ≡ true → (b || c) ≡ true
      later b h = ground arith

      less : {n : ℕ} → suc n ≤ suc fuel → n ≤ fuel
      less l = omega arith
