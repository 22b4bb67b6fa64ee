-- ===== src/Execution/Predicate.antt =====
-- PredicateEvaluator of src/include/execution/predicate_evaluator.h, on the values of
-- src/include/common/value.h. The numbers of type double and their comparisons are parameters. A
-- tuple is what GetValue reads from it, and a schema the names of its columns. Only LIKE can be
-- `none`, where the model of EvaluateLike runs out of fuel.
use franco_db.Prelude.{
  ℕ, zero, suc, ◌+◌, Bool, true, false, not, ◌&&◌, ◌||◌, Option, none, some, List, [], ◌∷◌, ◌==◌,
  ltb, if◌then◌else◌, ℤ, pos, negsuc, eqb_ℤ, leb_ℤ,
}
use franco_db.Execution.Like.{evaluate_like}
pub mod Comparison
pub mod Chain

pub data TypeId : Type 0 where
  invalid_type : TypeId
  boolean : TypeId
  integer : TypeId
  bigint : TypeId
  decimal : TypeId
  varchar : TypeId
  timestamp : TypeId
  -- An int cast to the enum that is none of these.
  unnamed : ℕ → TypeId

-- What the getters of a Value read; `D` is the type double.
pub record Value (D : Type 0) : Type 0 where
  pub type_id : TypeId
  pub integer_val : ℤ
  pub decimal_val : D
  pub string_val : List ℕ

-- The tests on doubles: >, < and a distance below 0.0001.
pub record Doubles (D : Type 0) : Type 0 where
  pub greater : D → D → Bool
  pub less : D → D → Bool
  pub near : D → D → Bool

pub data LogicType : Type 0 where
  no_logic : LogicType
  and_logic : LogicType
  or_logic : LogicType

-- The operators that CompareValues and Evaluate know, and any other word.
pub data Op : Type 0 where
  is_in : Op
  equal : Op
  not_equal : Op
  greater_than : Op
  less_than : Op
  at_least : Op
  at_most : Op
  like : Op
  unknown : Op

-- std::string's == and <.
unfoldable pub eqb_string : List ℕ → List ℕ → Bool
eqb_string [] [] = true
eqb_string (a ∷ x) (b ∷ y) = a == b && eqb_string x y
eqb_string _ _ = false

unfoldable pub ltb_string : List ℕ → List ℕ → Bool
ltb_string x [] = false
ltb_string [] (b ∷ y) = true
ltb_string (a ∷ x) (b ∷ y) = ltb a b || (a == b && ltb_string x y)

-- "true" and "false"
abbrev pub true_text : List ℕ
true_text = 116 ∷ 114 ∷ 117 ∷ 101 ∷ []

abbrev pub false_text : List ℕ
false_text = 102 ∷ 97 ∷ 108 ∷ 115 ∷ 101 ∷ []

-- GetColIdx
unfoldable pub get_col_idx : List (List ℕ) → List ℕ → ℕ → ℤ
unfolding eqb_string
get_col_idx [] column i = negsuc 0
get_col_idx (name ∷ names) column i =
    if eqb_string name column then pos i else get_col_idx names column (i + 1)

module _ {D : Type 0} where
  unfoldable pub get_as_string : Value D → List ℕ
  get_as_string v = elim v.type_id [
    | boolean ↦ if eqb_ℤ v.integer_val (pos 0) then false_text else true_text
    | _ ↦ v.string_val
  ]

  unfoldable pub values_equal : Doubles D → Value D → Value D → Bool
  unfolding get_as_string eqb_string eqb_ℤ
  values_equal d left right = elim left.type_id [
    | integer ↦ eqb_ℤ left.integer_val right.integer_val
    | decimal ↦ d.near left.decimal_val right.decimal_val
    | _ ↦ eqb_string (get_as_string left) (get_as_string right)
  ]

  unfoldable pub compare_greater : Doubles D → Value D → Value D → Bool
  unfolding get_as_string ltb_string
  compare_greater d left right = elim left.type_id [
    | integer ↦ not (leb_ℤ left.integer_val right.integer_val)
    | decimal ↦ d.greater left.decimal_val right.decimal_val
    | _ ↦ ltb_string (get_as_string right) (get_as_string left)
  ]

  unfoldable pub compare_less : Doubles D → Value D → Value D → Bool
  unfolding get_as_string ltb_string
  compare_less d left right = elim left.type_id [
    | integer ↦ not (leb_ℤ right.integer_val left.integer_val)
    | decimal ↦ d.less left.decimal_val right.decimal_val
    | _ ↦ ltb_string (get_as_string left) (get_as_string right)
  ]

  unfoldable pub compare_values : Doubles D → Value D → Value D → Op → Option Bool
  unfolding values_equal compare_greater compare_less get_as_string evaluate_like
  compare_values d left right equal = some (values_equal d left right)
  compare_values d left right not_equal = some (not (values_equal d left right))
  compare_values d left right greater_than = some (compare_greater d left right)
  compare_values d left right less_than = some (compare_less d left right)
  compare_values d left right at_least =
      some (compare_greater d left right || values_equal d left right)
  compare_values d left right at_most =
      some (compare_less d left right || values_equal d left right)
  compare_values d left right like = evaluate_like (get_as_string left) (get_as_string right)
  compare_values d left right _ = some false

  unfoldable pub evaluate_in : Doubles D → Value D → List (Value D) → Bool
  unfolding values_equal
  evaluate_in d v [] = false
  evaluate_in d v (w ∷ ws) = if values_equal d v w then true else evaluate_in d v ws

pub record Condition (D : Type 0) : Type 0 where
  pub column : List ℕ
  pub op : Op
  pub value : Value D
  pub in_values : List (Value D)
  pub next_logic : LogicType

-- The result so far with the next match, by the logic that the last condition names.
unfoldable pub chain : LogicType → Bool → Bool → Bool
chain and_logic result match' = result && match'
chain or_logic result match' = result || match'
chain no_logic result match' = result

abbrev pub chain_match : LogicType → Bool → Option Bool → Option Bool
unfolding chain
chain_match logic result none = none
chain_match logic result (some m) = some (chain logic result m)

module _ {D : Type 0} where
  unfoldable pub evaluate_condition : Doubles D → Value D → Condition D → Option Bool
  unfolding evaluate_in compare_values
  evaluate_condition d v c = elim c.op [
    | is_in ↦ some (evaluate_in d v c.in_values)
    | _ ↦ compare_values d v c.value c.op
  ]

  -- A condition on the tuple; `none` for a column that the schema has not.
  unfoldable pub match_column :
      Doubles D → List (List ℕ) → (ℕ → Value D) → Condition D → Option (Option Bool)
  unfolding get_col_idx evaluate_condition
  match_column d schema tuple c = elim (get_col_idx schema c.column 0) [
    | pos i ↦ some (evaluate_condition d (tuple i) c)
    | negsuc _ ↦ none
  ]

  -- Evaluate's loop from the second condition on.
  unfoldable pub evaluate_rest :
      Doubles D
      → List (List ℕ)
      → (ℕ → Value D)
      → LogicType
      → Bool
      → List (Condition D)
      → Option Bool
  unfolding match_column
  evaluate_rest d schema tuple logic result [] = some result
  evaluate_rest d schema tuple logic result (c ∷ cs) = elim (match_column d schema tuple c) [
    | none ↦ some false
    | some m ↦ elim (chain_match logic result m) [
      | none ↦ none
      | some b ↦ evaluate_rest d schema tuple c.next_logic b cs
    ]
  ]

  -- Evaluate
  unfoldable pub evaluate :
      Doubles D → List (List ℕ) → (ℕ → Value D) → List (Condition D) → Option Bool
  unfolding match_column evaluate_rest
  evaluate d schema tuple [] = some true
  evaluate d schema tuple (c ∷ cs) = elim (match_column d schema tuple c) [
    | none ↦ some false
    | some none ↦ none
    | some (some b) ↦ evaluate_rest d schema tuple c.next_logic b cs
  ]
