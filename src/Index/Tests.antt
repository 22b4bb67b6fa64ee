-- ===== src/Index/Tests.antt =====
-- Nodes and keys on small inputs.
use franco_db.Prelude.{
  ℕ, ◌+◌, ◌*◌, ◌≤◌, ◌<◌, ℤ, pos, negsuc, invalid, is_negative, ◌≡◌, refl, true, false, Option, ltb,
  ◌==◌, if◌then◌else◌,
}
use franco_db.Index.Node.{Node, leaf_page, fits, lookup_internal}
use franco_db.Index.Node.Lookup.{lookup_leaf-key_index, lookup_internal_child, Answers}

abbrev compare : ℕ → ℕ → ℤ
compare a b = if ltb a b then negsuc 0 else (if a == b then pos 0 else pos 1)

-- Key 10 * i stands with value i.
abbrev node : Node ℕ ℕ
node = record {
  page_type = leaf_page;
  size = pos 3;
  max_size = pos 4;
  parent_page_id = invalid;
  page_id = pos 9;
  next_page_id = invalid;
  array = λ i. (10 * i, i);
}

lookup_leaf-key_index_example : (o : Option ℕ) × Answers compare node 20 3 o
unfolding fits
lookup_leaf-key_index_example = lookup_leaf-key_index compare node 20 3 refl refl

lookup_internal_child_example :
    (c : ℕ) × (c < 3)
    × (lookup_internal compare node 15 99 ≡ c)
    × ((j : ℕ) → 1 ≤ j → j ≤ c → is_negative (compare 15 (10 * j)) ≡ false)
    × (c + 1 < 3 → is_negative (compare 15 (10 * (c + 1))) ≡ true)
unfolding fits
lookup_internal_child_example = lookup_internal_child compare node 15 2 99 refl refl
