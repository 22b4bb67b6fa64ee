-- ===== src/Buffer/Lru.antt =====
-- src/buffer/lru_replacer.cpp, src/include/buffer/lru_replacer.h: the frames that may be evicted,
-- least recently unpinned first. Every method holds the latch for its whole body, so a method is
-- one step. `lru_map_` maps a frame to the list node that holds it; the model keeps the map's keys,
-- and to erase through the stored iterator is to erase the node with that frame.
use franco_db.Prelude.{
  ℕ, ◌+◌, Bool, true, false, Option, none, some, List, [], ◌∷◌, ◌++◌, length, elem, remove, leb,
  if◌then◌else◌, ◌==◌,
}
pub mod Validity
pub mod Order

pub record Lru : Type 0 where
  pub lru_list : List ℕ
  pub lru_map : List ℕ
  pub capacity : ℕ

-- The list node that the iterator of frame `f` names is unlinked.
unfoldable pub erase_node : ℕ → List ℕ → List ℕ
erase_node f [] = []
erase_node f (x ∷ xs) = if f == x then xs else x ∷ erase_node f xs

unfoldable pub init : ℕ → Lru
init num_pages = record { lru_list = []; lru_map = []; capacity = num_pages }

-- The victim, if there is one, beside the new state.
unfoldable pub victim : Lru → Option ℕ × Lru
victim s = elim s.lru_list [
  | [] ↦ (none, s)
  | f ∷ rest ↦ (some f, record s { lru_list = rest; lru_map = remove f s.lru_map })
]

unfoldable pub pin : Lru → ℕ → Lru
unfolding erase_node
pin s f =
    if elem f s.lru_map
    then record s { lru_list = erase_node f s.lru_list; lru_map = remove f s.lru_map }
    else s

-- First any old position goes; then a full list drops the frame without a word.
unfoldable pub unpin : Lru → ℕ → Lru
unpin s f =
    let s' = pin s f in
    if leb s'.capacity (length s'.lru_list)
    then s'
    else record s' { lru_list = s'.lru_list ++ f ∷ []; lru_map = f ∷ s'.lru_map }

unfoldable pub size : Lru → ℕ
size s = length s.lru_list
