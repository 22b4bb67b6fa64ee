-- ===== src/Index/Node.antt =====
-- src/storage/page/b_plus_tree_page.cpp, b_plus_tree_internal_page.cpp and b_plus_tree_leaf_page.cpp:
-- a node of the B+ tree. The array of entries is a function of which only the indices below the
-- size are meant; an int is an integer. The comparator is a parameter, as in the source.
use franco_db.Prelude.{
  ℕ, zero, suc, ◌+◌, ◌-◌, ◌/◌, ℤ, pos, negsuc, invalid, eqb_ℤ, leb_ℤ, is_negative, Bool, true,
  false, not, ◌&&◌, ◌||◌, ◌==◌, Option, none, some, if◌then◌else◌,
}
pub mod Lookup

pub data IndexPageType : Type 0 where
  invalid_index_page : IndexPageType
  leaf_page : IndexPageType
  internal_page : IndexPageType

pub record Node (K V : Type 0) : Type 0 where
  pub page_type : IndexPageType
  pub size : ℤ
  pub max_size : ℤ
  pub parent_page_id : ℤ
  pub page_id : ℤ
  pub next_page_id : ℤ
  pub array : ℕ → K × V

-- An int divided by two, towards zero.
abbrev pub negate : ℕ → ℤ
negate zero = pos 0
negate (suc n) = negsuc n

abbrev pub half : ℤ → ℤ
half (pos n) = pos (n / 2)
half (negsuc n) = negate ((n + 1) / 2)

abbrev pub is_leaf : IndexPageType → Bool
is_leaf leaf_page = true
is_leaf _ = false

-- A loop `for (i = 0; i < size; ...)` runs no round for a negative size.
abbrev pub rounds : ℤ → ℕ
rounds (pos n) = n
rounds (negsuc n) = 0

module _ {K V : Type 0} where
  unfoldable pub is_leaf_page : Node K V → Bool
  is_leaf_page n = is_leaf n.page_type

  unfoldable pub is_root_page : Node K V → Bool
  unfolding eqb_ℤ
  is_root_page n = eqb_ℤ n.parent_page_id invalid

  unfoldable pub get_min_size : Node K V → ℤ
  unfolding is_leaf_page is_root_page
  get_min_size n =
      if is_root_page n then (if is_leaf_page n then pos 1 else pos 2) else half n.max_size

  unfoldable pub set_page_type : Node K V → IndexPageType → Node K V
  set_page_type n t = record n { page_type = t }

  unfoldable pub set_size : Node K V → ℤ → Node K V
  set_size n size = record n { size = size }

  unfoldable pub set_max_size : Node K V → ℤ → Node K V
  set_max_size n max = record n { max_size = max }

  unfoldable pub set_parent_page_id : Node K V → ℤ → Node K V
  set_parent_page_id n id = record n { parent_page_id = id }

  unfoldable pub set_page_id : Node K V → ℤ → Node K V
  set_page_id n id = record n { page_id = id }

  unfoldable pub set_next_page_id : Node K V → ℤ → Node K V
  set_next_page_id n id = record n { next_page_id = id }

  -- BPlusTreeInternalPage::Init
  unfoldable pub init_internal : Node K V → ℤ → ℤ → ℤ → Node K V
  unfolding set_page_type set_size set_max_size set_parent_page_id set_page_id
  init_internal n page parent max =
      set_size
        (set_max_size (set_parent_page_id (set_page_id (set_page_type n internal_page) page) parent)
          max)
        (pos 0)

  -- BPlusTreeLeafPage::Init
  unfoldable pub init_leaf : Node K V → ℤ → ℤ → ℤ → Node K V
  unfolding set_page_type set_size set_max_size set_parent_page_id set_page_id set_next_page_id
  init_leaf n page parent max =
      set_next_page_id
        (set_size
          (set_max_size (set_parent_page_id (set_page_id (set_page_type n leaf_page) page) parent)
            max)
          (pos 0))
        invalid

  unfoldable pub key_at : Node K V → ℕ → K
  key_at n i = (n.array i).0

  unfoldable pub value_at : Node K V → ℕ → V
  value_at n i = (n.array i).1

  unfoldable pub set_key_at : Node K V → ℕ → K → Node K V
  set_key_at n i k = record n { array = λ j. if i == j then (k, (n.array j).1) else n.array j }

  unfoldable pub set_value_at : Node K V → ℕ → V → Node K V
  set_value_at n i v = record n { array = λ j. if i == j then ((n.array j).0, v) else n.array j }

  -- A leaf's or an internal page's size that is negative, or above the maximum: a page written before
  -- there was a maximum has 0 there, and takes the default.
  unfoldable pub fits : Node K V → ℤ → Bool
  fits n default_max =
      if leb_ℤ n.max_size (pos 0) then leb_ℤ n.size default_max else leb_ℤ n.size n.max_size

  -- The loop over the next `k` entries from entry `i` on.
  unfoldable pub key_from : (K → K → ℤ) → K → (ℕ → K × V) → ℕ → ℕ → Option ℕ
  unfolding eqb_ℤ
  key_from compare key array zero i = none
  key_from compare key array (suc k) i =
      let rest = key_from compare key array k (i + 1) in
      if eqb_ℤ (compare (array i).0 key) (pos 0) then some i else rest

  -- BPlusTreeLeafPage::KeyIndex
  unfoldable pub key_index : (K → K → ℤ) → Node K V → K → ℤ
  unfolding key_from
  key_index compare n key = elim (key_from compare key n.array (rounds n.size) 0) [
    | none ↦ invalid
    | some i ↦ pos i
  ]

  abbrev pub value_of : (ℕ → K × V) → Option ℕ → Option V
  value_of array none = none
  value_of array (some i) = some (array i).1

  -- BPlusTreeLeafPage::Lookup; the default is (4096 - 28) / (8 + 8).
  unfoldable pub lookup_leaf : (K → K → ℤ) → Node K V → K → Option V
  unfolding fits key_from
  lookup_leaf compare n key =
      if is_negative n.size || not (fits n (pos 254))
      then none
      else value_of n.array (key_from compare key n.array (rounds n.size) 0)

  -- The loop over the next `k` keys from entry `i` on: the entry whose page is taken.
  unfoldable pub child_from : (K → K → ℤ) → K → (ℕ → K × V) → ℕ → ℕ → ℕ
  child_from compare key array zero i = i - 1
  child_from compare key array (suc k) i =
      let rest = child_from compare key array k (i + 1) in
      if is_negative (compare key (array i).0) then i - 1 else rest

  -- BPlusTreeInternalPage::Lookup; the default is (4096 - 32) / (8 + 4).
  unfoldable pub lookup_internal : (K → K → ℤ) → Node K V → K → V → V
  unfolding fits child_from
  lookup_internal compare n key none_found =
      if leb_ℤ n.size (pos 0) || not (fits n (pos 338))
      then none_found
      else (n.array (child_from compare key n.array (rounds n.size - 1) 1)).1
