-- ===== src/Storage/Tuple/RoundTrip.antt =====
-- A row of src/storage/table/tuple.cpp gives back the values it was made of.
use mathlib.Core.Path.{subst}
use franco_db.Prelude.{
  ℕ, suc, ◌+◌, ◌%◌, ◌≤◌, ◌<◌, pos, ◌≡◌, refl, sym, ap, ◌∙◌, true, false, Option, none, some, List,
  [], ◌∷◌, length, get_elem?, arith, ltb, ◌==◌, ◌≢◌, if◌then◌else◌,
}
use franco_db.Storage.Memory.{word}
use franco_db.Execution.Predicate.{
  TypeId, invalid_type, boolean, integer, bigint, decimal, varchar, timestamp, unnamed, Value,
  get_as_string,
}
use franco_db.Recovery.Value.{Runtime, from_int}
use franco_db.Storage.Tuple.{
  Column, Tuple, DoubleBytes, column_size, place, new_schema, fixed_end, max, var_length,
  write_values, fixed_length, new_tuple, read_column, get_value,
}
use franco_db.Storage.Tuple.Fields.{kept}
use franco_db.Storage.Tuple.Writes.{Matches, extra}
use franco_db.Storage.Tuple.Loop.{
  sizes, column_size_pos, wrap, end_offset-sizes, AllMatch, extras, plus_zero, Room, loop, read_at,
  kept_at, read_at-loop,
}

module _ {D : Type 0} (rt : Runtime D) (db : DoubleBytes D) where
  -- The row that the constructor makes.
  fixed_end-place :
      (best o : ℕ) (ts : List TypeId)
      → best ≤ o
      → o + sizes ts < word
      → fixed_end best (place o ts) ≤ o + sizes ts
  unfolding fixed_end place sizes
  fixed_end-place best o [] h l = omega arith
  fixed_end-place best o (t ∷ ts) h l =
      let next = o + column_size t in
      subst
        (λ z.
          fixed_end (if ltb best z then z else best) (place z ts) ≤ o + (column_size t + sizes ts))
        (sym (wrap next (omega arith)))
        (regroup (fixed_end (if ltb best next then next else best) (place next ts)) o
          (column_size t) (sizes ts)
          (fixed_end-place (if ltb best next then next else best) next ts
            (below best o (column_size t) h) (omega arith)))
    where
      below : (b o n : ℕ) → b ≤ o → (if ltb b (o + n) then o + n else b) ≤ o + n
      below b o n h = ground arith

      regroup : (k a b c : ℕ) → k ≤ a + b + c → k ≤ a + (b + c)
      regroup k a b c h = omega arith

  elim_varchar : (t : TypeId) (a b : ℕ) → t ≡ varchar → elim t [ varchar ↦ a | _ ↦ b ] ≡ a
  elim_varchar t a b e = rw e refl

  var_turn :
      (n : ℕ) (t : TypeId) (v : Value D) (vs : List (Value D))
      → Matches rt db t v
      → n + extra rt db t v < word
      → var_length rt db n (v ∷ vs) ≡ var_length rt db (n + extra rt db t v) vs
  unfolding var_length extra
  var_turn n integer v vs h l = rw h.0 (ap (λ z. var_length rt db z vs) (plus_zero rt db n))
  var_turn n boolean v vs h l = rw h (ap (λ z. var_length rt db z vs) (plus_zero rt db n))
  var_turn n bigint v vs h l = rw h.0 (ap (λ z. var_length rt db z vs) (plus_zero rt db n))
  var_turn n timestamp v vs h l = rw h.0 (ap (λ z. var_length rt db z vs) (plus_zero rt db n))
  var_turn n decimal v vs h l = rw h.0 (ap (λ z. var_length rt db z vs) (plus_zero rt db n))
  var_turn n varchar v vs h l =
      elim_varchar v.type_id (var_length rt db ((n + length (get_as_string v)) % word) vs)
        (var_length rt db n vs) h
      ∙ ap (λ z. var_length rt db z vs) (wrap (n + length (get_as_string v)) l)
  var_turn n invalid_type v vs h l = absurd h
  var_turn n (unnamed k) v vs h l = absurd h

  var_length-extras :
      (n : ℕ) (ts : List TypeId) (vs : List (Value D))
      → AllMatch rt db ts vs
      → n + extras rt db ts vs < word
      → var_length rt db n vs ≡ n + extras rt db ts vs
  unfolding extras var_length
  var_length-extras n [] [] h l = omega arith
  var_length-extras n [] (v ∷ vs) h l = absurd h
  var_length-extras n (t ∷ ts) [] h l = absurd h
  var_length-extras n (t ∷ ts) (v ∷ vs) h l =
      var_turn n t v vs h.0 (omega arith)
      ∙ var_length-extras (n + extra rt db t v) ts vs h.1 (omega arith)
      ∙ regroup n (extra rt db t v) (extras rt db ts vs)
    where
      regroup : (a b c : ℕ) → a + b + c ≡ a + (b + c)
      regroup a b c = omega arith

  length-place :
      (o : ℕ) (ts : List TypeId) (vs : List (Value D))
      → AllMatch rt db ts vs
      → length vs ≡ length (place o ts)
  unfolding place
  length-place o [] [] h = refl
  length-place o [] (v ∷ vs) h = absurd h
  length-place o (t ∷ ts) [] h = absurd h
  length-place o (t ∷ ts) (v ∷ vs) h = ap suc (length-place ((o + column_size t) % word) ts vs h.1)

  sizes_pos : (ts : List TypeId) (i : ℕ) (t : TypeId) → get_elem? ts i ≡ some t → 0 < sizes ts
  unfolding sizes
  sizes_pos [] i t e = absurd (clash e)
    where
      clash : none ≢ some t
      clash h = cc
  sizes_pos (s ∷ ts) i t e = omega (arith, column_size_pos s)

  max_eq : (a b : ℕ) → a ≤ b → max a b ≡ b
  unfolding max
  max_eq a b h = ground arith

  module _ (ts : List TypeId) (vs : List (Value D)) (match : AllMatch rt db ts vs)
      (fits : sizes ts + extras rt db ts vs < word) where
    fixed_length-sizes : fixed_length rt db (new_schema ts) ≡ sizes ts
    unfolding fixed_length new_schema
    fixed_length-sizes = rw (end_offset-sizes 0 ts (omega (arith, fits))) (
        max_eq (fixed_end 0 (place 0 ts)) (0 + sizes ts)
          (fixed_end-place 0 0 ts (omega arith) (omega (arith, fits)))
        ∙ zero_plus (sizes ts))
      where
        zero_plus : (n : ℕ) → 0 + n ≡ n
        zero_plus n = omega arith

    made : Tuple
    made = record {
      size = sizes ts + extras rt db ts vs;
      bytes = loop rt db (sizes ts + extras rt db ts vs) (sizes ts) 0 ts vs (sizes ts) (λ a. 0);
    }

    new_tuple-made : new_tuple rt db vs (new_schema ts) ≡ made
    unfolding new_tuple made loop new_schema
    new_tuple-made = rw (eqb_of (length vs) (length (place 0 ts)) (length-place 0 ts vs match)) (
        ap (λ f. packed f (var_length rt db 0 vs)) fixed_length-sizes
        ∙ ap (packed (sizes ts))
            (var_length-extras 0 ts vs match (omega (arith, fits)) ∙ zero_plus (extras rt db ts vs))
        ∙ ap
            (λ z. record {
              size = z;
              bytes = write_values rt db z (place 0 ts) vs (sizes ts) (λ a. 0);
            })
            (wrap (sizes ts + extras rt db ts vs) fits))
      where
        packed : ℕ → ℕ → Tuple
        packed f n = record {
          size = (f + n) % word;
          bytes = write_values rt db ((f + n) % word) (place 0 ts) vs f (λ a. 0);
        }

        zero_plus : (n : ℕ) → 0 + n ≡ n
        zero_plus n = omega arith

        eqb_of : (a b : ℕ) → a ≡ b → (a == b) ≡ true
        eqb_of a b e = ground (arith, e)

    start : Room rt db (sizes ts + extras rt db ts vs) (sizes ts) 0 (sizes ts) ts vs
    start = record {
      columns_fit = omega arith;
      behind = omega arith;
      texts_fit = omega arith;
      small = fits;
    }

    read_made :
        (c : Option Column)
        → (sizes ts + extras rt db ts vs == 0) ≡ false
        → elim c [
          | none ↦ none
          | some c ↦
              some
                (if made.size == 0 then from_int rt integer (pos 0) else read_column rt db made c)
        ]
          ≡ read_at rt db (sizes ts + extras rt db ts vs) (sizes ts) made.bytes c
    unfolding made read_at
    read_made none h = refl
    read_made (some c) h = rw h refl

    get_value-made :
        (i : ℕ) (t : TypeId) (v : Value D)
        → get_elem? ts i ≡ some t
        → get_elem? vs i ≡ some v
        → get_value rt db made (new_schema ts) i ≡ some (kept rt db t v)
    unfolding get_value new_schema made loop kept_at
    get_value-made i t v e f =
        read_made (get_elem? (place 0 ts) i) (not_zero (sizes_pos ts i t e))
        ∙ read_at-loop rt db (sizes ts + extras rt db ts vs) (sizes ts) 0 (sizes ts) ts vs (λ a. 0)
            i start match
        ∙ ap (λ z. kept_at rt db (sizes ts + extras rt db ts vs) (sizes ts) z (get_elem? vs i)) e
        ∙ ap (kept_at rt db (sizes ts + extras rt db ts vs) (sizes ts) (some t)) f
      where
        not_zero : {n : ℕ} → 0 < n → (n + extras rt db ts vs == 0) ≡ false
        not_zero h = ground arith

-- A row made of values, one for each column of the schema and of its type, an INTEGER, BIGINT or
-- TIMESTAMP in 32 bits and a DECIMAL that its bytes give back, and with less than 2 ^ 32 bytes in
-- all, gives each value back: its type with its number, text or double, a BOOLEAN as 0 or 1.
pub get_value-new_tuple :
    {D : Type 0} (rt : Runtime D) (db : DoubleBytes D) (ts : List TypeId) (vs : List (Value D))
    (i : ℕ) (t : TypeId) (v : Value D)
    → AllMatch rt db ts vs
    → sizes ts + extras rt db ts vs < word
    → get_elem? ts i ≡ some t
    → get_elem? vs i ≡ some v
    → get_value rt db (new_tuple rt db vs (new_schema ts)) (new_schema ts) i ≡ some (kept rt db t v)
get_value-new_tuple rt db ts vs i t v match fits e f =
    ap (λ r. get_value rt db r (new_schema ts) i) (new_tuple-made rt db ts vs match fits)
    ∙ get_value-made rt db ts vs match fits i t v e f
