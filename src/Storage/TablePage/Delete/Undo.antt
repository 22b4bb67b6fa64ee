-- ===== src/Storage/TablePage/Delete/Undo.antt =====
-- UnmarkDelete of table_page.cpp after a MarkDelete.
use franco_db.Prelude.{ℕ, ◌≤◌, ◌<◌, ◌≡◌, refl, ◌≢◌, Bool, true, false, some, List, arith, ap, ◌∙◌}
use native.Mathlib.Decide.{ℕ_discrete}
use franco_db.Storage.Memory.{read_u32, slice}
use franco_db.Storage.TablePage.{
  TablePage, Slot, read_slot, readable, get_tuple, deleted, mark_delete, unmark_delete,
}
use franco_db.Storage.TablePage.Insert.{IsValid, count_lem}
use franco_db.Storage.TablePage.Delete.{
  set_bit, clear_bit, changed, remarked, remarked-IsValid, remarked-words, remarked-slot,
  remarked-rows, get_tuple-changed_ne, get_tuple-some, marks, unmarks,
}

-- The slot after both changes of its meta byte.
module _ (p : TablePage) (i : ℕ) (v : IsValid p.bytes) (inside : i < read_u32 p.bytes 16) where
  marked : TablePage
  marked = changed p i (set_bit (read_slot p.bytes i).meta) v inside

  marked-IsValid : IsValid marked.bytes
  unfolding marked changed
  marked-IsValid = remarked-IsValid p.bytes i (set_bit (read_slot p.bytes i).meta) v inside

  marked-inside : i < read_u32 marked.bytes 16
  unfolding marked changed
  marked-inside =
      omega (arith, remarked-words p.bytes i (set_bit (read_slot p.bytes i).meta) v inside)

  marked-slot :
      read_slot marked.bytes i
      ≡ record (read_slot p.bytes i) { meta = set_bit (read_slot p.bytes i).meta }
  unfolding marked changed
  marked-slot = remarked-slot p.bytes i (set_bit (read_slot p.bytes i).meta) v inside

  marked-rows : (o n : ℕ) → read_u32 p.bytes 12 ≤ o → slice marked.bytes o n ≡ slice p.bytes o n
  unfolding marked changed
  marked-rows o n h = remarked-rows p.bytes i (set_bit (read_slot p.bytes i).meta) v inside o n h

  marked-words :
      (read_u32 marked.bytes 16 ≡ read_u32 p.bytes 16)
      × (read_u32 marked.bytes 12 ≡ read_u32 p.bytes 12)
  unfolding marked changed
  marked-words = remarked-words p.bytes i (set_bit (read_slot p.bytes i).meta) v inside

  restored : TablePage
  restored =
      changed marked i (clear_bit (read_slot marked.bytes i).meta) marked-IsValid marked-inside

  restored_self : deleted (read_slot p.bytes i).meta ≡ false → get_tuple restored i ≡ get_tuple p i
  unfolding get_tuple readable restored changed
  restored_self d = ground (
    arith,
    count_lem p.bytes v,
    count_lem (remarked marked.bytes i b w k) (remarked-IsValid marked.bytes i b w k),
    remarked-words marked.bytes i b w k,
    marked-words,
    remarked-slot marked.bytes i b w k,
    ap (λ (s : Slot). s.offset) marked-slot,
    ap (λ (s : Slot). s.size) marked-slot,
    ap (λ (s : Slot). s.meta) marked-slot,
    remarked-rows marked.bytes i b w k (read_slot p.bytes i).offset (read_slot p.bytes i).size,
    marked-rows (read_slot p.bytes i).offset (read_slot p.bytes i).size,
    v.rows i,
  )
    where
      b : ℕ
      b = clear_bit (read_slot marked.bytes i).meta

      w : IsValid marked.bytes
      w = marked-IsValid

      k : i < read_u32 marked.bytes 16
      k = marked-inside

  restored_ne : (j : ℕ) → i ≢ j → get_tuple restored j ≡ get_tuple p j
  unfolding restored marked
  restored_ne j n =
      get_tuple-changed_ne marked i _ marked-IsValid marked-inside j n
      ∙ get_tuple-changed_ne p i _ v inside j n

  unmarks_marked : unmark_delete marked i ≡ (true, restored)
  unfolding restored
  unmarks_marked =
      unmarks marked i marked-IsValid marked-inside
        (rw marked-slot (bit (read_slot p.bytes i).meta))
    where
      bit : (meta : ℕ) → deleted (set_bit meta) ≡ true
      bit meta = ground arith

-- On a well-formed page, UnmarkDelete takes the MarkDelete of a row back: it succeeds, and every
-- slot reads as it did before.
pub unmark_delete-mark_delete :
    (p : TablePage) (i j : ℕ) (tuple : List ℕ)
    → IsValid p.bytes
    → get_tuple p i ≡ some tuple
    → ((unmark_delete (mark_delete p i).1 i).0 ≡ true)
      × (get_tuple (unmark_delete (mark_delete p i).1 i).1 j ≡ get_tuple p j)
unmark_delete-mark_delete p i j tuple v e =
    let (inside, live) = get_tuple-some p i tuple v e in
    rw (both inside live) (
      refl,
      elim (ℕ_discrete i j) [
        | yes q ↦ rw (← q) (restored_self p i v inside live)
        | no n ↦ restored_ne p i v inside j n
      ],
    )
  where
    both :
        (inside : i < read_u32 p.bytes 16)
        → deleted (read_slot p.bytes i).meta ≡ false
        → unmark_delete (mark_delete p i).1 i ≡ (true, restored p i v inside)
    both inside live =
        ap (λ (r : Bool × TablePage). unmark_delete r.1 i) (marks p i v inside live)
        ∙ unfold marked in unmarks_marked p i v inside
