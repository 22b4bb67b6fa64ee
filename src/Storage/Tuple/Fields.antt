-- ===== src/Storage/Tuple/Fields.antt =====
-- One field of a row in src/storage/table/tuple.cpp: what was written reads back.
use franco_db.Prelude.{
  ℕ, suc, ◌+◌, ◌%◌, ◌≤◌, ◌<◌, pos, eqb_ℤ, ◌≡◌, ap, ◌∙◌, inl, Bool, false, ◌||◌, List, [], ◌∷◌,
  length, arith, ltb, leb, if◌then◌else◌,
}
use franco_db.Storage.Memory.{
  Bytes, Int32, word, read_u32, write_u32, write_u8, copy, to_word, of_word, of_word-to_word,
  to_word-lt, read_u32-write_u32, read_u32_ext, slice_ext, slice-copy, write_u32-other, copy-other,
}
use franco_db.Execution.Predicate.{
  TypeId, invalid_type, boolean, integer, bigint, decimal, varchar, timestamp, unnamed, Value,
  get_as_string,
}
use franco_db.Recovery.Value.{Runtime, from_int, from_double, from_string}
use franco_db.Storage.Tuple.{
  Column, Tuple, DoubleBytes, column_size, read_u8, sign_half, write_halves, serialize_to,
  deserialize_from, read_text, read_column,
}
use franco_db.Storage.Tuple.Writes.{
  positive, Matches, extra, write_one, string_of, write_text_room, integer_bytes, boolean_bytes,
  bigint_bytes, timestamp_bytes, decimal_bytes,
}

read_low : (m : Bytes) (o low high : ℕ) → low < word → read_u32 (write_halves m o low high) o ≡ low
unfolding write_halves
read_low m o low high h =
    read_u32_ext (write_u32 m o low) (write_halves m o low high) o
      (λ a k l. write_u32-other (write_u32 m o low) (o + 4) high a (inl (omega arith)))
    ∙ read_u32-write_u32 m o low h

read_high :
    (m : Bytes) (o low high : ℕ) → high < word → read_u32 (write_halves m o low high) (o + 4) ≡ high
unfolding write_halves
read_high m o low high h = read_u32-write_u32 (write_u32 m o low) (o + 4) high h

in_row : (total o k w n : ℕ) → 0 < k → o + k ≤ w → w + n ≤ total → leb total o ≡ false
in_row total o k w n p h i = ground arith

either {ℓ} : {A : Type ℓ} (b c : Bool) (x : A) → (if b then x else (if c then x else x)) ≡ x
either b c x = ground arith

-- The tests of GetValue on a text of at least one character.
module _ (total : ℕ) where
  reaches :
      (o w n : ℕ)
      → o + 8 ≤ w
      → w + suc n ≤ total
      → total < word
      → ltb total ((o + 8) % word) ≡ false
  reaches o w n h i l = ground arith

  holds : (w n : ℕ) → w + suc n ≤ total → total < word → leb total w ≡ false
  holds w n i l = ground arith

  ends : (w n : ℕ) → w + suc n ≤ total → total < word → ltb total ((w + suc n) % word) ≡ false
  ends w n i l = ground arith

module _ {D : Type 0} (rt : Runtime D) (db : DoubleBytes D) where
  -- The value that a field holds: its type's part of the value, a BOOLEAN as 0 or 1.
  unfoldable pub kept : TypeId → Value D → Value D
  kept t v = elim t [
    | decimal ↦ from_double rt decimal v.decimal_val
    | varchar ↦ from_string rt varchar v.string_val
    | boolean ↦ from_int rt boolean (if eqb_ℤ v.integer_val (pos 0) then pos 0 else pos 1)
    | other ↦ from_int rt other v.integer_val
  ]

  abbrev pub column : TypeId → ℕ → Column
  column t o = record { type_id = t; column_offset = o }

  module _ (m : Bytes) (o : ℕ) (v : Value D) where
    number_kept :
        (m' : Bytes)
        → Int32 v.integer_val
        → ((a : ℕ) → o ≤ a → a < o + 4 → m' a ≡ write_u32 m o (to_word v.integer_val) a)
        → of_word (read_u32 m' o) ≡ v.integer_val
    number_kept m' h f =
        ap of_word (
          read_u32_ext (write_u32 m o (to_word v.integer_val)) m' o f
          ∙ read_u32-write_u32 m o (to_word v.integer_val) (to_word-lt v.integer_val h))
        ∙ of_word-to_word v.integer_val h

    long_kept :
        (m' : Bytes)
        → Int32 v.integer_val
        → ((a : ℕ)
            → o ≤ a
            → a < o + 8
            → m' a ≡ write_halves m o (to_word v.integer_val) (sign_half v.integer_val) a)
        → of_word (read_u32 m' o) ≡ v.integer_val
    long_kept m' h f =
        ap of_word (
          read_u32_ext (write_halves m o (to_word v.integer_val) (sign_half v.integer_val)) m' o
            (λ a k l. f a k (omega arith))
          ∙ read_low m o (to_word v.integer_val) (sign_half v.integer_val)
              (to_word-lt v.integer_val h))
        ∙ of_word-to_word v.integer_val h

    bit_kept :
        (m' : Bytes)
        → ((a : ℕ)
            → o ≤ a
            → a < o + 4
            → m' a ≡ write_u8 m o (if eqb_ℤ v.integer_val (pos 0) then 0 else 1) a)
        → pos (read_u8 m' o) ≡ (if eqb_ℤ v.integer_val (pos 0) then pos 0 else pos 1)
    unfolding read_u8 write_u8
    bit_kept m' f = ground (arith, f o (omega arith) (omega arith))

  abbrev pub row : ℕ → Bytes → Tuple
  row total m = record { size = total; bytes = m }

  module _ (total : ℕ) (m m' : Bytes) (o w : ℕ) (h : o + 8 ≤ w) (l : total < word) where
    abbrev texted : List ℕ → Bytes
    texted str = copy (write_halves m o w (length str)) w str

    module _ (str : List ℕ) (i : w + length str ≤ total)
        (f : (a : ℕ) → o ≤ a → a < o + 8 → m' a ≡ texted str a) where
      read_offset : read_u32 m' o ≡ w
      read_offset =
          read_u32_ext (texted str) m' o (λ a k n. f a k (omega arith))
          ∙ read_u32_ext (write_halves m o w (length str)) (texted str) o
              (λ a k n. copy-other (write_halves m o w (length str)) w str a (inl (omega arith)))
          ∙ read_low m o w (length str) (omega arith)

      read_length : read_u32 m' (o + 4) ≡ length str
      read_length =
          read_u32_ext (texted str) m' (o + 4) (λ a k n. f a (omega arith) (omega arith))
          ∙ read_u32_ext (write_halves m o w (length str)) (texted str) (o + 4)
              (λ a k n. copy-other (write_halves m o w (length str)) w str a (inl (omega arith)))
          ∙ read_high m o w (length str) (omega arith)

    read_varchar :
        (str : List ℕ)
        → w + length str ≤ total
        → ((a : ℕ) → o ≤ a → a < o + 8 → m' a ≡ texted str a)
        → ((a : ℕ) → w ≤ a → a < w + length str → m' a ≡ texted str a)
        → read_column rt db (row total m') (column varchar o) ≡ from_string rt varchar str
    unfolding read_column read_text deserialize_from
    read_varchar [] i f g =
        rw (in_row total o 8 w 0 (omega arith) h i, read_offset [] i f, read_length [] i f)
          (either (ltb total ((o + 8) % word)) (leb total w || ltb total ((w + 0) % word))
            (from_string rt varchar []))
    read_varchar (c ∷ str) i f g =
        rw
          (
            in_row total o 8 w (length (c ∷ str)) (omega arith) h i,
            read_offset (c ∷ str) i f,
            read_length (c ∷ str) i f,
            reaches total o w (length str) h i l,
            holds total w (length str) i l,
            ends total w (length str) i l,
            positive (length str),
          )
          (ap (from_string rt varchar) (
            slice_ext (texted (c ∷ str)) m' w (length (c ∷ str)) g
            ∙ slice-copy (write_halves m o w (length (c ∷ str))) w (c ∷ str)))

  at : {p q : Bytes} (a : ℕ) → p ≡ q → p a ≡ q a
  at a e = ap (λ m. m a) e

  double_kept :
      (m : Bytes) (o : ℕ) (v : Value D) (m' : Bytes)
      → Matches rt db decimal v
      → ((a : ℕ)
          → o ≤ a
          → a < o + 8
          → m' a ≡ write_halves m o (db.low v.decimal_val) (db.high v.decimal_val) a)
      → db.of_halves (read_u32 m' o) (read_u32 m' (o + 4)) ≡ v.decimal_val
  double_kept m o v m' h f =
      rw
        (
          read_u32_ext (write_halves m o (db.low v.decimal_val) (db.high v.decimal_val)) m' o
                (λ a k l. f a k (omega arith))
              ∙ read_low m o (db.low v.decimal_val) (db.high v.decimal_val) h.1,
          read_u32_ext (write_halves m o (db.low v.decimal_val) (db.high v.decimal_val)) m' (o + 4)
                (λ a k l. f a (omega arith) (omega arith))
              ∙ read_high m o (db.low v.decimal_val) (db.high v.decimal_val) h.2,
        )
        h.3

  -- The field's bytes, in whatever the row becomes, give the value back.
  pub read_column-write_one :
      (total : ℕ) (m m' : Bytes) (t : TypeId) (o w : ℕ) (v : Value D)
      → Matches rt db t v
      → o + column_size t ≤ w
      → w + extra rt db t v ≤ total
      → total < word
      → ((a : ℕ) → o ≤ a → a < o + column_size t → m' a ≡ write_one rt db total m t o w v a)
      → ((a : ℕ) → w ≤ a → a < w + extra rt db t v → m' a ≡ write_one rt db total m t o w v a)
      → read_column rt db (record { size = total; bytes = m' }) (column t o) ≡ kept t v
  unfolding read_column write_one kept column_size extra serialize_to deserialize_from
  read_column-write_one total m m' integer o w v h i j l f g =
      rw (in_row total o 4 w 0 (omega arith) i j) (
        ap (from_int rt integer)
          (number_kept m o v m' h.1 (λ a k n. f a k n ∙ at a (integer_bytes rt db v h.0 m o))))
  read_column-write_one total m m' boolean o w v h i j l f g =
      rw (in_row total o 4 w 0 (omega arith) i j) (
        ap (from_int rt boolean)
          (bit_kept m o v m' (λ a k n. f a k n ∙ at a (boolean_bytes rt db v h m o))))
  read_column-write_one total m m' bigint o w v h i j l f g =
      rw (in_row total o 8 w 0 (omega arith) i j) (
        ap (from_int rt bigint)
          (long_kept m o v m' h.1 (λ a k n. f a k n ∙ at a (bigint_bytes rt db v h.0 m o))))
  read_column-write_one total m m' timestamp o w v h i j l f g =
      rw (in_row total o 8 w 0 (omega arith) i j) (
        ap (from_int rt timestamp)
          (long_kept m o v m' h.1 (λ a k n. f a k n ∙ at a (timestamp_bytes rt db v h.0 m o))))
  read_column-write_one total m m' decimal o w v h i j l f g =
      rw (in_row total o 8 w 0 (omega arith) i j) (
        ap (from_double rt decimal)
          (double_kept m o v m' h (λ a k n. f a k n ∙ at a (decimal_bytes rt db v h.0 m o))))
  read_column-write_one total m m' varchar o w v h i j l f g =
      read_varchar total m m' o w i l (get_as_string v) j
        (λ a k n. f a k n ∙ at a (write_text_room rt db total m o w (get_as_string v) i j l))
        (λ a k n. g a k n ∙ at a (write_text_room rt db total m o w (get_as_string v) i j l))
      ∙ ap (from_string rt varchar) (string_of rt db v h)
  read_column-write_one total m m' invalid_type o w v h i j l f g = absurd h
  read_column-write_one total m m' (unnamed n) o w v h i j l f g = absurd h
