-- ===== src/Execution/Predicate/Comparison.antt =====
-- The comparison operators against each other.
use franco_db.Prelude.{◌≡◌, ◌⊎◌, inl, inr, Bool, true, false, some, [], arith}
use franco_db.Execution.Predicate.{
  bigint, timestamp, Value, Doubles, equal, greater_than, less_than, eqb_string, ltb_string,
  get_as_string, values_equal, compare_greater, compare_less, compare_values,
}

-- Exactly one of three tests.
abbrev OneOf : Bool → Bool → Bool → Type 0
OneOf e g l =
    ((e ≡ true) × (g ≡ false) × (l ≡ false))
    ⊎ (((e ≡ false) × (g ≡ true) × (l ≡ false)) ⊎ ((e ≡ false) × (g ≡ false) × (l ≡ true)))

module _ {D : Type 0} where
  -- Two values of type BIGINT or TIMESTAMP that were made from integers, whose strings are empty,
  -- compare as equal whatever the integers are: `=` holds between them, `<` and `>` do not.
  pub compare_values_wide :
      (d : Doubles D) (left right : Value D)
      → (left.type_id ≡ bigint) ⊎ (left.type_id ≡ timestamp)
      → right.type_id ≡ left.type_id
      → left.string_val ≡ []
      → right.string_val ≡ []
      → (compare_values d left right equal ≡ some true)
        × (compare_values d left right less_than ≡ some false)
        × (compare_values d left right greater_than ≡ some false)
  unfolding compare_values values_equal compare_greater compare_less get_as_string eqb_string
      ltb_string
  compare_values_wide d left right (inl e) r x y = ground (arith, e, r, x, y)
  compare_values_wide d left right (inr e) r x y = ground (arith, e, r, x, y)
