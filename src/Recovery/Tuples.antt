-- ===== src/Recovery/Tuples.antt =====
-- The text of a row in a log record: SerializeTupleBinary, DeserializeTupleBinary and
-- ParseTupleStringSafe of src/recovery/recovery_manager.cpp. A schema is the list of its columns'
-- types. `pos` and `data.size()` of the source are what is left of the data.
use franco_db.Prelude.{
  ℕ, zero, suc, ◌+◌, ◌%◌, ◌^◌, ◌≤◌, ◌<◌, pos, Bool, true, false, List, [], ◌∷◌, ◌++◌, length, ltb,
  ◌==◌, if◌then◌else◌,
}
use franco_db.Execution.Predicate.{TypeId, integer, decimal, Value}
use franco_db.Recovery.Codec.{bytes_of, read_word, read_bytes, write_string}
use franco_db.Recovery.Value.{Runtime, to_string, value_of, from_int, from_double, from_string}
use franco_db.Recovery.LogManager.{is_empty}
pub mod RoundTrip

module _ {D : Type 0} (rt : Runtime D) where
  unfoldable pub write_fields : List (Value D) → List ℕ
  write_fields [] = []
  write_fields (v ∷ vs) = write_string (to_string rt v) ++ write_fields vs

  unfoldable pub serialize_tuple_binary : List (Value D) → List ℕ
  serialize_tuple_binary vs = 2 ∷ (bytes_of 4 (length vs % 2 ^ 32) ++ write_fields vs)

-- The fields until one is cut off.
unfoldable pub read_fields : ℕ → List ℕ → List (List ℕ)
read_fields zero s = []
read_fields (suc n) s =
    let len = read_word 4 0 s in
    let field = read_bytes len.0 len.1 in
    let rest = read_fields n field.1 in
    if ltb (length s) 4 then [] else (if ltb (length len.1) len.0 then [] else field.0 ∷ rest)

unfoldable pub read_counted : List ℕ → List (List ℕ)
read_counted s =
    let count = read_word 4 0 s in
    if ltb (length s) 4 then [] else (if ltb 1000 count.0 then [] else read_fields count.0 count.1)

unfoldable pub deserialize_tuple_binary : List ℕ → List (List ℕ)
deserialize_tuple_binary [] = []
deserialize_tuple_binary (magic ∷ s) = if magic == 2 then read_counted s else []

-- What std::getline gives at '|' (124) until it fails; `item` is what stands before.
unfoldable pub pipe_items : List ℕ → List ℕ → List (List ℕ)
pipe_items item [] = if is_empty item then [] else item ∷ []
pipe_items item (c ∷ s) = if c == 124 then item ∷ pipe_items [] s else pipe_items (item ++ c ∷ []) s

unfoldable pub fields_of : List ℕ → List (List ℕ)
fields_of text =
    let fields = deserialize_tuple_binary text in
    if is_empty fields then pipe_items [] text else fields

module _ {D : Type 0} (rt : Runtime D) where
  -- As many fields as there are columns, by the types of the columns.
  unfoldable pub convert : List TypeId → List (List ℕ) → List (Value D)
  convert [] fields = []
  convert (t ∷ ts) [] = []
  convert (t ∷ ts) (f ∷ fields) = value_of rt t f ∷ convert ts fields

  unfoldable pub default_value : TypeId → Value D
  default_value t = elim t [
    | integer ↦ from_int rt integer (pos 0)
    | decimal ↦ from_double rt decimal rt.zero_double
    | other ↦ from_string rt other []
  ]

  -- The columns without a field.
  unfoldable pub pad : List TypeId → List (List ℕ) → List (Value D)
  pad [] fields = []
  pad (t ∷ ts) [] = default_value t ∷ pad ts []
  pad (t ∷ ts) (f ∷ fields) = pad ts fields

  unfoldable pub parse_tuple_string_safe : List TypeId → List ℕ → List (Value D)
  parse_tuple_string_safe ts text =
      if is_empty text then [] else convert ts (fields_of text) ++ pad ts (fields_of text)
