-- ===== src/Recovery/Value.antt =====
-- The values that a log record carries: src/common/value.cpp (constructors, CopyFrom, operator<<),
-- WriteValue of src/recovery/log_manager.cpp and ReadValue of src/recovery/recovery_manager.cpp.
use franco_db.Prelude.{
  ℕ, ◌≤◌, ◌<◌, ℤ, pos, ◌≡◌, refl, ap, ◌∙◌, arith, Option, none, some, List, [], ◌∷◌, ◌++◌, length,
  append_assoc, get_elem?, get_elem?_beyond,
}
use franco_db.Execution.Predicate.{
  TypeId, invalid_type, boolean, integer, bigint, decimal, varchar, timestamp, unnamed, Value,
}
use franco_db.Recovery.Codec.{
  bytes_of, read_word, write_string, read_string, max_length, read_word-bytes_of,
  read_string-write_string,
}

-- The standard library's conversions (`none` is an exception), the double 0.0, and what a number
-- that was never assigned happens to hold.
pub record Runtime (D : Type 0) : Type 0 where
  pub stoi : List ℕ → Option ℤ
  pub stod : List ℕ → Option D
  pub print_int : ℤ → List ℕ
  pub print_double : D → List ℕ
  pub zero_double : D
  pub any_int : ℤ
  pub any_double : D

-- The integer under the enum, as a 32-bit word.
unfoldable pub type_number : TypeId → ℕ
type_number invalid_type = 0
type_number boolean = 1
type_number integer = 2
type_number bigint = 3
type_number decimal = 4
type_number varchar = 5
type_number timestamp = 6
type_number (unnamed n) = n

-- static_cast<TypeId>
abbrev type_ids : List TypeId
type_ids = invalid_type ∷ boolean ∷ integer ∷ bigint ∷ decimal ∷ varchar ∷ timestamp ∷ []

unfoldable pub type_of : ℕ → TypeId
type_of n = elim (get_elem? type_ids n) [ some t ↦ t | none ↦ unnamed n ]

-- "<NULL>" and "<UNKNOWN>"
abbrev pub null_text : List ℕ
null_text = 60 ∷ 78 ∷ 85 ∷ 76 ∷ 76 ∷ 62 ∷ []

abbrev pub unknown_text : List ℕ
unknown_text = 60 ∷ 85 ∷ 78 ∷ 75 ∷ 78 ∷ 79 ∷ 87 ∷ 78 ∷ 62 ∷ []

module _ {D : Type 0} where
  unfoldable pub from_nothing : Runtime D → Value D
  from_nothing rt = record {
    type_id = invalid_type;
    integer_val = pos 0;
    decimal_val = rt.any_double;
    string_val = [];
  }

  unfoldable pub from_int : Runtime D → TypeId → ℤ → Value D
  from_int rt t i = record {
    type_id = t;
    integer_val = i;
    decimal_val = rt.any_double;
    string_val = [];
  }

  unfoldable pub from_double : Runtime D → TypeId → D → Value D
  from_double rt t d = record {
    type_id = t;
    integer_val = rt.any_int;
    decimal_val = d;
    string_val = [];
  }

  -- The union is left unassigned.
  unfoldable pub from_string : Runtime D → TypeId → List ℕ → Value D
  from_string rt t str = record {
    type_id = t;
    integer_val = rt.any_int;
    decimal_val = rt.any_double;
    string_val = str;
  }

  -- CopyFrom: the type, and the one field that the type names.
  unfoldable pub copy_from : Value D → Value D → Value D
  copy_from old v = elim v.type_id [
    | varchar ↦ record old { type_id = v.type_id; string_val = v.string_val }
    | decimal ↦ record old { type_id = v.type_id; decimal_val = v.decimal_val }
    | _ ↦ record old { type_id = v.type_id; integer_val = v.integer_val }
  ]

  -- operator<< and ToString
  unfoldable pub to_string : Runtime D → Value D → List ℕ
  to_string rt v = elim v.type_id [
    | varchar ↦ v.string_val
    | decimal ↦ rt.print_double v.decimal_val
    | invalid_type ↦ null_text
    | unnamed n ↦ unknown_text
    | _ ↦ rt.print_int v.integer_val
  ]

  unfoldable pub write_value : Runtime D → Value D → List ℕ
  write_value rt v = bytes_of 4 (type_number v.type_id) ++ write_string (to_string rt v)

  unfoldable pub int_or_zero : Runtime D → TypeId → Option ℤ → Value D
  int_or_zero rt t (some i) = from_int rt t i
  int_or_zero rt t none = from_int rt t (pos 0)

  unfoldable pub double_or_zero : Runtime D → TypeId → Option D → Value D
  double_or_zero rt t (some d) = from_double rt t d
  double_or_zero rt t none = from_double rt t rt.zero_double

  -- The value that ReadValue builds from the type and the text.
  unfoldable pub value_of : Runtime D → TypeId → List ℕ → Value D
  value_of rt t str = elim t [
    | integer ↦ int_or_zero rt integer (rt.stoi str)
    | decimal ↦ double_or_zero rt decimal (rt.stod str)
    | other ↦ from_string rt other str
  ]

  unfoldable pub read_value : Runtime D → List ℕ → Value D × List ℕ
  read_value rt s =
      let t = read_word 4 0 s in
      let str = read_string t.1 in (value_of rt (type_of t.0) str.0, str.1)

-- A type that is the cast of its own number.
abbrev pub IsType : TypeId → Type 0
IsType (unnamed n) = (7 ≤ n) × (n < 4294967296)
IsType _ = Unit

type_number-lt : (t : TypeId) → IsType t → type_number t < 4294967296
unfolding type_number
type_number-lt invalid_type h = omega arith
type_number-lt boolean h = omega arith
type_number-lt integer h = omega arith
type_number-lt bigint h = omega arith
type_number-lt decimal h = omega arith
type_number-lt varchar h = omega arith
type_number-lt timestamp h = omega arith
type_number-lt (unnamed n) h = h.1

type_of_large : (n : ℕ) → 7 ≤ n → type_of n ≡ unnamed n
unfolding type_of
type_of_large n h = rw (get_elem?_beyond type_ids n h) refl

pub type_of-type_number : (t : TypeId) → IsType t → type_of (type_number t) ≡ t
unfolding type_of type_number
type_of-type_number invalid_type h = refl
type_of-type_number boolean h = refl
type_of-type_number integer h = refl
type_of-type_number bigint h = refl
type_of-type_number decimal h = refl
type_of-type_number varchar h = refl
type_of-type_number timestamp h = refl
type_of-type_number (unnamed n) h = type_of_large n h.0

module _ {D : Type 0} (rt : Runtime D) where
  -- What ReadValue gives for a value that was written.
  unfoldable pub reread : Value D → Value D
  reread v = value_of rt v.type_id (to_string rt v)

  abbrev pub FitsValue : Value D → Type 0
  FitsValue v = IsType v.type_id × (length (to_string rt v) ≤ max_length)

  pub read_value-write_value :
      (v : Value D) (s : List ℕ)
      → FitsValue v
      → read_value rt (write_value rt v ++ s) ≡ (reread v, s)
  unfolding read_value write_value reread
  read_value-write_value v s h =
      ap (λ u. after (read_word 4 0 u))
        (append_assoc (bytes_of 4 (type_number v.type_id)) (write_string (to_string rt v)) s)
      ∙ ap after (
          read_word-bytes_of 4 0 (type_number v.type_id) (write_string (to_string rt v) ++ s)
            (type_number-lt v.type_id h.0))
      ∙ ap (λ str. (value_of rt (type_of (type_number v.type_id)) str.0, str.1))
          (read_string-write_string (to_string rt v) s h.1)
      ∙ ap (λ t. (value_of rt t (to_string rt v), s)) (type_of-type_number v.type_id h.0)
    where
      after : ℕ × List ℕ → Value D × List ℕ
      after t = let str = read_string t.1 in (value_of rt (type_of t.0) str.0, str.1)
