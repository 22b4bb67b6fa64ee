-- ===== src/Storage/Tuple/Writes.antt =====
-- One field of a row in src/storage/table/tuple.cpp: what is written where.
use franco_db.Prelude.{
  ℕ, suc, ◌+◌, ◌%◌, ◌≤◌, ◌<◌, pos, eqb_ℤ, ◌≡◌, refl, ◌∙◌, ◌⊎◌, true, List, [], ◌∷◌, length, arith,
  ltb, leb, if◌then◌else◌,
}
use franco_db.Storage.Memory.{
  Bytes, Int32, word, write_u32, write_u8, copy, to_word, write_u32-other, write_u8-other,
  copy-other,
}
use franco_db.Execution.Predicate.{
  TypeId, invalid_type, boolean, integer, bigint, decimal, varchar, timestamp, unnamed, Value,
  get_as_string,
}
use franco_db.Recovery.Value.{Runtime}
use franco_db.Storage.Tuple.{
  DoubleBytes, column_size, sign_half, write_halves, serialize_to, write_text,
}

pub write_halves-other :
    (m : Bytes) (o low high a : ℕ) → (a < o) ⊎ (o + 8 ≤ a) → write_halves m o low high a ≡ m a
unfolding write_halves
write_halves-other m o low high a h =
    write_u32-other (write_u32 m o low) (o + 4) high a (omega arith)
    ∙ write_u32-other m o low a (omega arith)

pub positive : (n : ℕ) → ltb 0 (suc n) ≡ true
positive n = ground arith

pub meta_fits :
    (total o w n : ℕ) → o + 8 ≤ w → w + n ≤ total → total < word → leb ((o + 8) % word) total ≡ true
meta_fits total o w n h i l = ground arith

pub text_fits : (total w n : ℕ) → w + n ≤ total → total < word → leb ((w + n) % word) total ≡ true
text_fits total w n i l = ground arith

module _ {D : Type 0} (rt : Runtime D) (db : DoubleBytes D) where
  -- A value of the column's type, whose number is an int32_t, and a double that its bytes give back.
  abbrev pub Matches : TypeId → Value D → Type 0
  Matches integer v = (v.type_id ≡ integer) × Int32 v.integer_val
  Matches boolean v = v.type_id ≡ boolean
  Matches bigint v = (v.type_id ≡ bigint) × Int32 v.integer_val
  Matches timestamp v = (v.type_id ≡ timestamp) × Int32 v.integer_val
  Matches decimal v =
      (v.type_id ≡ decimal)
      × (db.low v.decimal_val < word)
      × (db.high v.decimal_val < word)
      × (db.of_halves (db.low v.decimal_val) (db.high v.decimal_val) ≡ v.decimal_val)
  Matches varchar v = v.type_id ≡ varchar
  Matches _ v = ⊥

  -- The characters that a field adds behind the fixed part.
  unfoldable pub extra : TypeId → Value D → ℕ
  extra t v = elim t [ varchar ↦ length (get_as_string v) | _ ↦ 0 ]

  unfoldable pub write_one : ℕ → Bytes → TypeId → ℕ → ℕ → Value D → Bytes
  write_one total m t o w v = elim t [
    | varchar ↦ write_text rt db total m o w (get_as_string v)
    | _ ↦ serialize_to rt db v m o
  ]

  pub string_of : (v : Value D) → v.type_id ≡ varchar → get_as_string v ≡ v.string_val
  unfolding get_as_string
  string_of v e = rw e refl

  write_text-other :
      (total : ℕ) (m : Bytes) (o w : ℕ) (str : List ℕ) (a : ℕ)
      → (a < o) ⊎ (o + 8 ≤ a)
      → (a < w) ⊎ (w + length str ≤ a)
      → write_text rt db total m o w str a ≡ m a
  unfolding write_text
  write_text-other total m o w str a i j = ground (
    arith,
    write_halves-other m o w (length str) a,
    copy-other m w str a,
    copy-other (write_halves m o w (length str)) w str a,
  )

  -- With room for both, the text is written.
  pub write_text_room :
      (total : ℕ) (m : Bytes) (o w : ℕ) (str : List ℕ)
      → o + 8 ≤ w
      → w + length str ≤ total
      → total < word
      → write_text rt db total m o w str ≡ copy (write_halves m o w (length str)) w str
  unfolding write_text copy
  write_text_room total m o w [] h i l =
      rw (meta_fits total o w 0 h i l) (λ k a. write_halves m o w 0 a)
  write_text_room total m o w (c ∷ str) h i l =
      rw
        (
          meta_fits total o w (length (c ∷ str)) h i l,
          text_fits total w (length (c ∷ str)) i l,
          positive (length str),
        )
        refl

  -- The bytes that a field does not touch.
  pub write_one-other :
      (total : ℕ) (m : Bytes) (t : TypeId) (o w : ℕ) (v : Value D) (a : ℕ)
      → Matches t v
      → (a < o) ⊎ (o + column_size t ≤ a)
      → (a < w) ⊎ (w + extra t v ≤ a)
      → write_one total m t o w v a ≡ m a
  unfolding write_one column_size extra serialize_to
  write_one-other total m integer o w v a h i j =
      rw (h.0, serialize_to) (write_u32-other m o (to_word v.integer_val) a i)
  write_one-other total m boolean o w v a h i j =
      rw (h, serialize_to)
        (write_u8-other m o (if eqb_ℤ v.integer_val (pos 0) then 0 else 1) a (omega arith))
  write_one-other total m bigint o w v a h i j =
      rw (h.0, serialize_to)
        (write_halves-other m o (to_word v.integer_val) (sign_half v.integer_val) a i)
  write_one-other total m timestamp o w v a h i j =
      rw (h.0, serialize_to)
        (write_halves-other m o (to_word v.integer_val) (sign_half v.integer_val) a i)
  write_one-other total m decimal o w v a h i j =
      rw (h.0, serialize_to)
        (write_halves-other m o (db.low v.decimal_val) (db.high v.decimal_val) a i)
  write_one-other total m varchar o w v a h i j =
      write_text-other total m o w (get_as_string v) a i j
  write_one-other total m invalid_type o w v a h i j = absurd h
  write_one-other total m (unnamed n) o w v a h i j = absurd h

  -- What each type writes.
  module _ (v : Value D) where
    pub integer_bytes :
        v.type_id ≡ integer
        → (m : Bytes) (o : ℕ) → serialize_to rt db v m o ≡ write_u32 m o (to_word v.integer_val)
    unfolding serialize_to
    integer_bytes e m o = rw (e, serialize_to) refl

    pub boolean_bytes :
        v.type_id ≡ boolean
        → (m : Bytes) (o : ℕ)
        → serialize_to rt db v m o ≡ write_u8 m o (if eqb_ℤ v.integer_val (pos 0) then 0 else 1)
    unfolding serialize_to
    boolean_bytes e m o = rw (e, serialize_to) refl

    pub bigint_bytes :
        v.type_id ≡ bigint
        → (m : Bytes) (o : ℕ)
        → serialize_to rt db v m o
          ≡ write_halves m o (to_word v.integer_val) (sign_half v.integer_val)
    unfolding serialize_to
    bigint_bytes e m o = rw (e, serialize_to) refl

    pub timestamp_bytes :
        v.type_id ≡ timestamp
        → (m : Bytes) (o : ℕ)
        → serialize_to rt db v m o
          ≡ write_halves m o (to_word v.integer_val) (sign_half v.integer_val)
    unfolding serialize_to
    timestamp_bytes e m o = rw (e, serialize_to) refl

    pub decimal_bytes :
        v.type_id ≡ decimal
        → (m : Bytes) (o : ℕ)
        → serialize_to rt db v m o ≡ write_halves m o (db.low v.decimal_val) (db.high v.decimal_val)
    unfolding serialize_to
    decimal_bytes e m o = rw (e, serialize_to) refl
