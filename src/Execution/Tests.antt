-- ===== src/Execution/Tests.antt =====
-- WHERE clauses on small inputs.
use franco_db.Prelude.{ℕ, pos, ◌≡◌, refl, ◌↔◌, Bool, true, some, List, [], ◌∷◌, arith, ltb, ◌==◌}
use franco_db.Execution.Like.{percent, evaluate_like}
use franco_db.Execution.Like.Spec.{Like}
use franco_db.Execution.Like.Decides.{evaluate_like-Like}
use franco_db.Execution.Predicate.{
  Value, Doubles, Condition, TypeId, integer, equal, LogicType, and_logic, no_logic, evaluate,
}
use franco_db.Execution.Predicate.Chain.{evaluate-AllHold, AllHold}

-- "ab" and "a%"
abbrev text : List ℕ
text = 97 ∷ 98 ∷ []

abbrev starred : List ℕ
starred = 97 ∷ percent ∷ []

evaluate_like-Like_example :
    (b : Bool) × (evaluate_like text starred ≡ some b) × ((b ≡ true) ↔ Like starred text)
evaluate_like-Like_example = evaluate_like-Like text starred (ground arith)

-- Doubles as whole numbers.
abbrev whole : Doubles ℕ
whole = record { greater = λ a b. ltb b a; less = ltb; near = λ a b. a == b }

abbrev number : TypeId → ℕ → Value ℕ
number t n = record { type_id = t; integer_val = pos n; decimal_val = 0; string_val = [] }

-- A schema of one column "a", a row that holds 4 there, and the condition that it is `n`.
abbrev schema : List (List ℕ)
schema = (97 ∷ []) ∷ []

abbrev row : ℕ → Value ℕ
row i = number integer 4

abbrev is : ℕ → LogicType → Condition ℕ
is n l = record {
  column = 97 ∷ [];
  op = equal;
  value = number integer n;
  in_values = [];
  next_logic = l;
}

evaluate-AllHold_example :
    (evaluate whole schema row (is 4 and_logic ∷ is 5 no_logic ∷ []) ≡ some true)
    ↔ AllHold whole schema row (is 4 and_logic ∷ is 5 no_logic ∷ [])
evaluate-AllHold_example =
    evaluate-AllHold whole schema row (is 4 and_logic ∷ is 5 no_logic ∷ []) (refl, tt)
