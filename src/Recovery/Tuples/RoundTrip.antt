-- ===== src/Recovery/Tuples/RoundTrip.antt =====
-- A row read back from its text in the log (src/recovery/recovery_manager.cpp).
use franco_db.Prelude.{
  ℕ, suc, ◌%◌, ◌^◌, ◌≤◌, ◌<◌, ◌≡◌, refl, ap, ◌∙◌, true, false, List, [], ◌∷◌, ◌++◌, length, ltb,
  if◌then◌else◌, arith, append_assoc, map, length-append,
}
use franco_db.Execution.Predicate.{TypeId, Value}
use franco_db.Recovery.Codec.{
  bytes_of, write_string, read_word-bytes_of, not_short, read_bytes-append,
}
use franco_db.Recovery.Value.{Runtime, to_string, value_of}
use franco_db.Recovery.LogManager.{is_empty}
use franco_db.Recovery.Tuples.{
  write_fields, serialize_tuple_binary, read_fields, read_counted, deserialize_tuple_binary,
  fields_of, convert, pad, parse_tuple_string_safe, default_value,
}

whole_field : (n : ℕ) (str s : List ℕ) → n ≡ length str → ltb (length (str ++ s)) n ≡ false
whole_field n str s e = ground (arith, length-append str s)

-- One field in front.
read_fields_step :
    (n : ℕ) (str s : List ℕ)
    → length str < 2 ^ 32
    → read_fields (suc n) (write_string str ++ s) ≡ str ∷ read_fields n s
unfolding read_fields write_string
read_fields_step n str s h =
    rw
      (
        append_assoc (bytes_of 4 (length str % 2 ^ 32)) str s,
        not_short (length str % 2 ^ 32) (str ++ s),
        read_word-bytes_of 4 0 (length str % 2 ^ 32) (str ++ s) (omega arith),
        whole_field (length str % 2 ^ 32) str s (omega arith),
        whole_length str h,
        read_bytes-append str s,
      )
      refl
  where
    whole_length : (str : List ℕ) → length str < 2 ^ 32 → length str % 2 ^ 32 ≡ length str
    whole_length str h = omega arith

module _ {D : Type 0} (rt : Runtime D) where
  -- Every field's text has a length that fits in a uint32_t.
  abbrev pub FitFields : List (Value D) → Type 0
  FitFields [] = Unit
  FitFields (v ∷ vs) = (length (to_string rt v) < 2 ^ 32) × FitFields vs

  read_fields-write_fields :
      (vs : List (Value D))
      → FitFields vs
      → read_fields (length vs) (write_fields rt vs) ≡ map (to_string rt) vs
  unfolding read_fields write_fields
  read_fields-write_fields [] h = refl
  read_fields-write_fields (v ∷ vs) h =
      read_fields_step (length vs) (to_string rt v) (write_fields rt vs) h.0
      ∙ ap (◌∷◌ (to_string rt v)) (read_fields-write_fields vs h.1)

  counted :
      (vs : List (Value D))
      → length vs < 2 ^ 32
      → read_counted (bytes_of 4 (length vs % 2 ^ 32) ++ write_fields rt vs)
        ≡ (if ltb 1000 (length vs) then [] else read_fields (length vs) (write_fields rt vs))
  unfolding read_counted
  counted vs h =
      rw
        (
          not_short (length vs % 2 ^ 32) (write_fields rt vs),
          read_word-bytes_of 4 0 (length vs % 2 ^ 32) (write_fields rt vs) (omega arith),
          whole_count vs h,
        )
        refl
    where
      whole_count : (vs : List (Value D)) → length vs < 2 ^ 32 → length vs % 2 ^ 32 ≡ length vs
      whole_count vs h = omega arith

  -- The texts of up to 1000 values, each shorter than 2^32, come back from the binary text in order.
  pub deserialize_tuple_binary-serialize_tuple_binary :
      (vs : List (Value D))
      → FitFields vs
      → length vs ≤ 1000
      → deserialize_tuple_binary (serialize_tuple_binary rt vs) ≡ map (to_string rt) vs
  unfolding deserialize_tuple_binary serialize_tuple_binary
  deserialize_tuple_binary-serialize_tuple_binary vs h b =
      counted vs (omega arith)
      ∙ ap (λ c. if c then [] else read_fields (length vs) (write_fields rt vs)) (few (length vs) b)
      ∙ read_fields-write_fields vs h
    where
      few : (n : ℕ) → n ≤ 1000 → ltb 1000 n ≡ false
      few n h = ground arith

  -- More than 1000 values are written and not read.
  pub deserialize_tuple_binary_wide :
      (vs : List (Value D))
      → 1000 < length vs
      → length vs < 2 ^ 32
      → deserialize_tuple_binary (serialize_tuple_binary rt vs) ≡ []
  unfolding deserialize_tuple_binary serialize_tuple_binary
  deserialize_tuple_binary_wide vs b h =
      counted vs h
      ∙ ap (λ c. if c then [] else read_fields (length vs) (write_fields rt vs))
          (many (length vs) b)
    where
      many : (n : ℕ) → 1000 < n → ltb 1000 n ≡ true
      many n h = ground arith

  length-pad : (ts : List TypeId) → length (pad rt ts []) ≡ length ts
  unfolding pad
  length-pad [] = refl
  length-pad (t ∷ ts) = ap suc (length-pad ts)

  length_columns :
      (ts : List TypeId) (fields : List (List ℕ))
      → length (convert rt ts fields ++ pad rt ts fields) ≡ length ts
  unfolding convert pad
  length_columns [] fields = refl
  length_columns (t ∷ ts) (f ∷ fields) = ap suc (length_columns ts fields)
  length_columns (t ∷ ts) [] = ap suc (length-pad ts)

  -- A row parsed from any text that is not empty has a value for every column of the schema and no
  -- more, whatever the text's format and however many fields it has.
  pub length-parse_tuple_string_safe :
      (ts : List TypeId) (text : List ℕ)
      → is_empty text ≡ false
      → length (parse_tuple_string_safe rt ts text) ≡ length ts
  unfolding parse_tuple_string_safe
  length-parse_tuple_string_safe ts text e = rw e (length_columns ts (fields_of text))

  serialize_tuple_binary_not_empty :
      (vs : List (Value D)) → is_empty (serialize_tuple_binary rt vs) ≡ false
  unfolding serialize_tuple_binary is_empty
  serialize_tuple_binary_not_empty vs = refl

  -- Each column's value from the text of the value at its place, or the default.
  unfoldable pub reparsed : List TypeId → List (Value D) → List (Value D)
  reparsed [] vs = []
  reparsed (t ∷ ts) [] = default_value rt t ∷ reparsed ts []
  reparsed (t ∷ ts) (v ∷ vs) = value_of rt t (to_string rt v) ∷ reparsed ts vs

  pad_lem : (ts : List TypeId) → pad rt ts [] ≡ reparsed ts []
  unfolding pad reparsed
  pad_lem [] = refl
  pad_lem (t ∷ ts) = ap (◌∷◌ (default_value rt t)) (pad_lem ts)

  convert-pad :
      (ts : List TypeId) (vs : List (Value D))
      → convert rt ts (map (to_string rt) vs) ++ pad rt ts (map (to_string rt) vs) ≡ reparsed ts vs
  unfolding convert pad reparsed
  convert-pad [] [] = refl
  convert-pad [] (v ∷ vs) = refl
  convert-pad (t ∷ ts) [] = ap (◌∷◌ (default_value rt t)) (pad_lem ts)
  convert-pad (t ∷ ts) (v ∷ vs) = ap (◌∷◌ (value_of rt t (to_string rt v))) (convert-pad ts vs)

  -- The text of a row of 1 to 1000 values is parsed by the schema's types to the values' texts read
  -- by those types, in order, with the default in each column without a value.
  pub parse_tuple_string_safe-serialize_tuple_binary :
      (ts : List TypeId) (v : Value D) (vs : List (Value D))
      → FitFields (v ∷ vs)
      → length (v ∷ vs) ≤ 1000
      → parse_tuple_string_safe rt ts (serialize_tuple_binary rt (v ∷ vs)) ≡ reparsed ts (v ∷ vs)
  unfolding parse_tuple_string_safe fields_of is_empty
  parse_tuple_string_safe-serialize_tuple_binary ts v vs h b =
      rw
        (
          serialize_tuple_binary_not_empty (v ∷ vs),
          deserialize_tuple_binary-serialize_tuple_binary (v ∷ vs) h b,
        )
        (convert-pad ts (v ∷ vs))
