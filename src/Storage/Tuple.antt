-- ===== src/Storage/Tuple.antt =====
-- A row's bytes: the constructor and GetValue of src/storage/table/tuple.cpp, the constructor of
-- src/storage/table/schema.cpp, SerializeTo and DeserializeFrom of src/common/value.cpp. Positions
-- are uint32_t. The bytes of a double are a parameter.
pub mod Writes
pub mod Fields
pub mod Loop
pub mod RoundTrip
use franco_db.Prelude.{
  ℕ, zero, suc, ◌+◌, ◌-◌, ◌%◌, ℤ, pos, eqb_ℤ, is_negative, Bool, true, false, ◌||◌, Option, none,
  some, List, [], ◌∷◌, length, get_elem?, ltb, leb, ◌==◌, if◌then◌else◌,
}
use franco_db.Storage.Memory.{
  Bytes, word, read_u32, write_u32, write_u8, copy, slice, to_word, of_word,
}
use franco_db.Execution.Predicate.{
  TypeId, boolean, integer, bigint, decimal, varchar, timestamp, Value, get_as_string,
}
use franco_db.Recovery.Value.{Runtime, from_nothing, from_int, from_double, from_string}

pub record Column : Type 0 where
  pub type_id : TypeId
  pub column_offset : ℕ

pub record Schema : Type 0 where
  pub columns : List Column
  pub schema_length : ℕ

pub record Tuple : Type 0 where
  pub size : ℕ
  pub bytes : Bytes

-- The two 32-bit halves of a double, low half first, and back.
pub record DoubleBytes (D : Type 0) : Type 0 where
  pub low : D → ℕ
  pub high : D → ℕ
  pub of_halves : ℕ → ℕ → D

unfoldable pub column_size : TypeId → ℕ
column_size varchar = 8
column_size decimal = 8
column_size bigint = 8
column_size timestamp = 8
column_size _ = 4

-- The loop of the schema's constructor: the columns, and the offset it ends with.
unfoldable pub place : ℕ → List TypeId → List Column
place offset [] = []
place offset (t ∷ ts) =
    record { type_id = t; column_offset = offset } ∷ place ((offset + column_size t) % word) ts

unfoldable pub end_offset : ℕ → List TypeId → ℕ
end_offset offset [] = offset
end_offset offset (t ∷ ts) = end_offset ((offset + column_size t) % word) ts

unfoldable pub new_schema : List TypeId → Schema
new_schema ts = record { columns = place 0 ts; schema_length = end_offset 0 ts }

-- `max_fixed_end`
unfoldable pub fixed_end : ℕ → List Column → ℕ
fixed_end best [] = best
fixed_end best (c ∷ cs) =
    let end_pos = (c.column_offset + column_size c.type_id) % word in
    fixed_end (if ltb best end_pos then end_pos else best) cs

unfoldable pub max : ℕ → ℕ → ℕ
max a b = if ltb a b then b else a

unfoldable pub read_u8 : Bytes → ℕ → ℕ
read_u8 m o = m o

-- The high half of an int64_t that an int32_t was cast to.
unfoldable pub sign_half : ℤ → ℕ
sign_half i = if is_negative i then word - 1 else 0

-- Two 32-bit words, one behind the other.
unfoldable pub write_halves : Bytes → ℕ → ℕ → ℕ → Bytes
write_halves m o low high = write_u32 (write_u32 m o low) (o + 4) high

module _ {D : Type 0} (rt : Runtime D) (db : DoubleBytes D) where
  unfoldable pub var_length : ℕ → List (Value D) → ℕ
  var_length total [] = total
  var_length total (v ∷ vs) = elim v.type_id [
    | varchar ↦ var_length ((total + length (get_as_string v)) % word) vs
    | _ ↦ var_length total vs
  ]

  unfoldable pub serialize_to : Value D → Bytes → ℕ → Bytes
  serialize_to v m dest = elim v.type_id [
    | integer ↦ write_u32 m dest (to_word v.integer_val)
    | boolean ↦ write_u8 m dest (if eqb_ℤ v.integer_val (pos 0) then 0 else 1)
    | bigint ↦ write_halves m dest (to_word v.integer_val) (sign_half v.integer_val)
    | timestamp ↦ write_halves m dest (to_word v.integer_val) (sign_half v.integer_val)
    | decimal ↦ write_halves m dest (db.low v.decimal_val) (db.high v.decimal_val)
    | varchar ↦ copy m dest v.string_val
    | _ ↦ m
  ]

  -- An int64_t is cut to its low half.
  unfoldable pub deserialize_from : Bytes → ℕ → TypeId → ℕ → Value D
  deserialize_from m src t n = elim t [
    | integer ↦ from_int rt integer (of_word (read_u32 m src))
    | boolean ↦ from_int rt boolean (pos (read_u8 m src))
    | bigint ↦ from_int rt bigint (of_word (read_u32 m src))
    | timestamp ↦ from_int rt timestamp (of_word (read_u32 m src))
    | decimal ↦ from_double rt decimal (db.of_halves (read_u32 m src) (read_u32 m (src + 4)))
    | varchar ↦ from_string rt varchar (if ltb 0 n then slice m src n else [])
    | _ ↦ from_nothing rt
  ]

  -- The metadata of a text, and the text.
  unfoldable pub write_text : ℕ → Bytes → ℕ → ℕ → List ℕ → Bytes
  write_text total m offset var_offset str =
      let meta =
        if leb ((offset + 8) % word) total
        then write_halves m offset var_offset (length str)
        else m in
      if ltb 0 (length str)
      then (if leb ((var_offset + length str) % word) total then copy meta var_offset str else meta)
      else meta

  -- The loop of the constructor.
  unfoldable pub write_values : ℕ → List Column → List (Value D) → ℕ → Bytes → Bytes
  write_values total (c ∷ cs) (v ∷ vs) var_offset m = elim (leb total c.column_offset) [
    | true ↦ write_values total cs vs var_offset m
    | false ↦ elim c.type_id [
      | varchar ↦
          write_values total cs vs ((var_offset + length (get_as_string v)) % word)
            (write_text total m c.column_offset var_offset (get_as_string v))
      | _ ↦ write_values total cs vs var_offset (serialize_to v m c.column_offset)
    ]
  ]
  write_values total _ _ var_offset m = m

  unfoldable pub fixed_length : Schema → ℕ
  fixed_length schema = max (fixed_end 0 schema.columns) schema.schema_length

  -- With another number of values than of columns the row stays empty.
  unfoldable pub new_tuple : List (Value D) → Schema → Tuple
  new_tuple values schema =
      let fixed = fixed_length schema in
      let total = (fixed + var_length 0 values) % word in
      if length values == length schema.columns
      then record { size = total; bytes = write_values total schema.columns values fixed (λ a. 0) }
      else record { size = 0; bytes = λ a. 0 }

  unfoldable pub read_text : Tuple → ℕ → Value D
  read_text row offset =
      let var_offset = read_u32 row.bytes offset in
      let var_len = read_u32 row.bytes (offset + 4) in
      if ltb row.size ((offset + 8) % word)
      then from_string rt varchar []
      else (if leb row.size var_offset || ltb row.size ((var_offset + var_len) % word)
          then from_string rt varchar []
          else deserialize_from row.bytes var_offset varchar var_len)

  unfoldable pub read_column : Tuple → Column → Value D
  read_column row c =
      if leb row.size c.column_offset then from_int rt integer (pos 0) else (elim c.type_id [
        | varchar ↦ read_text row c.column_offset
        | other ↦ deserialize_from row.bytes c.column_offset other 0
      ])

  -- `none` is the exception for a column out of range.
  unfoldable pub get_value : Tuple → Schema → ℕ → Option (Value D)
  get_value row schema column_idx = elim (get_elem? schema.columns column_idx) [
    | none ↦ none
    | some c ↦ some (if row.size == 0 then from_int rt integer (pos 0) else read_column row c)
  ]
