-- ===== src/Storage/Tests/Rows.antt =====
-- A row of four columns.
use franco_db.Prelude.{ℕ, ◌+◌, ◌<◌, ℤ, pos, negsuc, ◌≡◌, refl, none, some, List, [], ◌∷◌, arith}
use franco_db.Execution.Predicate.{TypeId, boolean, bigint, varchar, Value, get_as_string}
use franco_db.Recovery.Value.{Runtime}
use franco_db.Storage.Tuple.{DoubleBytes, column_size, new_schema, new_tuple, get_value}
use franco_db.Storage.Tuple.Fields.{kept}
use franco_db.Storage.Tuple.Writes.{extra}
use franco_db.Storage.Tuple.Loop.{sizes, extras, AllMatch}
use franco_db.Storage.Tuple.RoundTrip.{get_value-new_tuple}

abbrev runtime : Runtime Unit
runtime = record {
  stoi = λ s. none;
  stod = λ s. none;
  print_int = λ i. [];
  print_double = λ d. [];
  zero_double = tt;
  any_int = pos 0;
  any_double = tt;
}

abbrev no_doubles : DoubleBytes Unit
no_doubles = record { low = λ d. 0; high = λ d. 0; of_halves = λ a b. tt }

abbrev value : TypeId → ℤ → List ℕ → Value Unit
value t i s = record { type_id = t; integer_val = i; decimal_val = tt; string_val = s }

abbrev types : List TypeId
types = varchar ∷ bigint ∷ boolean ∷ varchar ∷ []

abbrev values : List (Value Unit)
values =
    value varchar (pos 0) (72 ∷ 105 ∷ [])
    ∷ value bigint (negsuc 6) []
    ∷ value boolean (pos 9) []
    ∷ value varchar (pos 0) (33 ∷ [])
    ∷ []

values-AllMatch : AllMatch runtime no_doubles types values
values-AllMatch = (refl, ((refl, omega arith), (refl, (refl, tt))))

values_small : sizes types + extras runtime no_doubles types values < 4294967296
unfolding sizes extras extra column_size get_as_string
values_small = omega arith

get_value-new_tuple_example :
    get_value runtime no_doubles
      (new_tuple runtime no_doubles values (new_schema types))
      (new_schema types)
      1
    ≡ some (kept runtime no_doubles bigint (value bigint (negsuc 6) []))
get_value-new_tuple_example =
    get_value-new_tuple runtime no_doubles types values 1 bigint (value bigint (negsuc 6) [])
      values-AllMatch values_small refl refl
