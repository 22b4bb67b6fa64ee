-- ===== src/Buffer/PageTable.antt =====
-- `std::unordered_map<page_id_t, frame_id_t> page_table_` of the buffer pool, as an association
-- list in the order in which an iteration meets the entries.
use franco_db.Prelude.{
  ℕ, ℤ, eqb_ℤ, eqb_ℤ-eq, eqb_ℤ_refl, ◌≡◌, Option, none, some, List, [], ◌∷◌, arith, if◌then◌else◌,
}

abbrev pub PageTable : Type 0
PageTable = List (ℤ × ℕ)

unfoldable pub find : ℤ → PageTable → Option ℕ
find p [] = none
find p ((q, f) ∷ t) = if eqb_ℤ p q then some f else find p t

unfoldable pub erase : ℤ → PageTable → PageTable
erase p [] = []
erase p ((q, f) ∷ t) = if eqb_ℤ p q then erase p t else (q, f) ∷ erase p t

-- `page_table_[p] = f`
unfoldable pub insert : ℤ → ℕ → PageTable → PageTable
unfolding erase
insert p f t = (p, f) ∷ erase p t

pub find-erase :
    (p q : ℤ) (t : PageTable) → find q (erase p t) ≡ (if eqb_ℤ q p then none else find q t)
unfolding find erase
find-erase p q [] = ground arith
find-erase p q ((r, f) ∷ t) =
    ground (
      arith,
      eqb_ℤ-eq q p,
      eqb_ℤ-eq p r,
      eqb_ℤ-eq q r,
      eqb_ℤ_refl p,
      eqb_ℤ_refl q,
      find-erase p q t,
    )

pub find-insert :
    (p q : ℤ) (f : ℕ) (t : PageTable)
    → find q (insert p f t) ≡ (if eqb_ℤ q p then some f else find q t)
unfolding find insert
find-insert p q f t = ground (arith, find-erase p q t)
