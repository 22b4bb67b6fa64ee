-- ===== src/Storage/Tuple/Loop.antt =====
-- The loop of the constructor of src/storage/table/tuple.cpp: each column reads back.
use franco_db.Prelude.{
  ℕ, zero, suc, ◌+◌, ◌%◌, ◌≤◌, ◌<◌, ◌≡◌, refl, ap, ◌∙◌, ◌⊎◌, inl, inr, false, Option, none, some,
  List, [], ◌∷◌, length, get_elem?, arith, leb,
}
use franco_db.Storage.Memory.{Bytes, word}
use franco_db.Execution.Predicate.{
  TypeId, invalid_type, boolean, integer, bigint, decimal, varchar, timestamp, unnamed, Value,
  get_as_string,
}
use franco_db.Recovery.Value.{Runtime}
use franco_db.Storage.Tuple.{
  Column, DoubleBytes, column_size, place, end_offset, serialize_to, write_text, write_values,
  read_column,
}
use franco_db.Storage.Tuple.Fields.{kept, column, row, read_column-write_one}
use franco_db.Storage.Tuple.Writes.{Matches, extra, write_one, write_one-other}

-- The size of the fixed part.
unfoldable pub sizes : List TypeId → ℕ
sizes [] = 0
sizes (t ∷ ts) = column_size t + sizes ts

pub column_size_pos : (t : TypeId) → 4 ≤ column_size t
unfolding column_size
column_size_pos integer = omega arith
column_size_pos boolean = omega arith
column_size_pos bigint = omega arith
column_size_pos timestamp = omega arith
column_size_pos decimal = omega arith
column_size_pos varchar = omega arith
column_size_pos invalid_type = omega arith
column_size_pos (unnamed n) = omega arith

pub wrap : (n : ℕ) → n < word → n % word ≡ n
wrap n h = omega arith

pub end_offset-sizes :
    (o : ℕ) (ts : List TypeId) → o + sizes ts < word → end_offset o ts ≡ o + sizes ts
unfolding end_offset sizes
end_offset-sizes o [] h = omega arith
end_offset-sizes o (t ∷ ts) h =
    rw (wrap (o + column_size t) (omega arith))
      (end_offset-sizes (o + column_size t) ts (omega arith) ∙ assoc o (column_size t) (sizes ts))
  where
    assoc : (a b c : ℕ) → a + b + c ≡ a + (b + c)
    assoc a b c = omega arith

module _ {D : Type 0} (rt : Runtime D) (db : DoubleBytes D) where
  -- A value for each column, of its type.
  abbrev pub AllMatch : List TypeId → List (Value D) → Type 0
  AllMatch [] [] = Unit
  AllMatch (t ∷ ts) (v ∷ vs) = Matches rt db t v × AllMatch ts vs
  AllMatch _ _ = ⊥

  -- The characters behind the fixed part.
  unfoldable pub extras : List TypeId → List (Value D) → ℕ
  extras (t ∷ ts) (v ∷ vs) = extra rt db t v + extras ts vs
  extras _ _ = 0

  pub plus_zero : (n : ℕ) → n ≡ n + 0
  plus_zero n = omega arith

  -- One turn of the loop.
  module _ (total o w : ℕ) (cs : List Column) (v : Value D) (vs : List (Value D)) (m : Bytes) where
    fixed_turn :
        write_values rt db total cs vs w (serialize_to rt db v m o)
        ≡ write_values rt db total cs vs (w + 0) (serialize_to rt db v m o)
    fixed_turn = ap (λ z. write_values rt db total cs vs z (serialize_to rt db v m o)) (plus_zero w)

    turn :
        (t : TypeId)
        → Matches rt db t v
        → leb total o ≡ false
        → w + extra rt db t v < word
        → write_values rt db total (column rt db t o ∷ cs) (v ∷ vs) w m
          ≡ write_values rt db total cs vs (w + extra rt db t v) (write_one rt db total m t o w v)
    unfolding write_values write_one extra
    turn integer h i l = rw (i, write_values) fixed_turn
    turn boolean h i l = rw (i, write_values) fixed_turn
    turn bigint h i l = rw (i, write_values) fixed_turn
    turn timestamp h i l = rw (i, write_values) fixed_turn
    turn decimal h i l = rw (i, write_values) fixed_turn
    turn varchar h i l =
        rw (i, write_values)
          (ap
            (λ z. write_values rt db total cs vs z (write_text rt db total m o w (get_as_string v)))
            (wrap (w + length (get_as_string v)) l))
    turn invalid_type h i l = absurd h
    turn (unnamed n) h i l = absurd h

  -- The fixed part ends at `fixed`, and the texts that are left start at `w` and end the row.
  pub record Room (total fixed o w : ℕ) (ts : List TypeId) (vs : List (Value D)) : Type 0 where
    pub columns_fit : o + sizes ts ≤ fixed
    pub behind : fixed ≤ w
    pub texts_fit : w + extras ts vs ≤ total
    pub small : total < word

  Room_next :
      (total fixed o w : ℕ) (t : TypeId) (ts : List TypeId) (v : Value D) (vs : List (Value D))
      → Room total fixed o w (t ∷ ts) (v ∷ vs)
      → Room total fixed (o + column_size t) (w + extra rt db t v) ts vs
  unfolding sizes extras
  Room_next total fixed o w t ts v vs r = record {
    columns_fit = omega (arith, r.columns_fit);
    behind = omega (arith, r.behind);
    texts_fit = omega (arith, r.texts_fit);
    small = r.small;
  }

  module _ (total fixed : ℕ) where
    unfoldable pub loop : ℕ → List TypeId → List (Value D) → ℕ → Bytes → Bytes
    loop o ts vs w m = write_values rt db total (place o ts) vs w m

    loop-turn :
        (o w : ℕ) (t : TypeId) (ts : List TypeId) (v : Value D) (vs : List (Value D)) (m : Bytes)
        → Room total fixed o w (t ∷ ts) (v ∷ vs)
        → Matches rt db t v
        → loop o (t ∷ ts) (v ∷ vs) w m
          ≡ loop (o + column_size t) ts vs (w + extra rt db t v) (write_one rt db total m t o w v)
    unfolding loop place sizes extras
    loop-turn o w t ts v vs m r h =
        turn total o w (place ((o + column_size t) % word) ts) v vs m t h
          (inside (column_size t) (sizes ts) (extras (t ∷ ts) (v ∷ vs)) (column_size_pos t)
            r.columns_fit r.behind r.texts_fit)
          (omega (arith, r.texts_fit, r.small))
        ∙ ap (λ z. loop z ts vs (w + extra rt db t v) (write_one rt db total m t o w v))
            (wrap (o + column_size t)
              (omega (arith, r.columns_fit, r.behind, r.texts_fit, r.small)))
      where
        inside :
            (a b c : ℕ)
            → 4 ≤ a
            → o + (a + b) ≤ fixed
            → fixed ≤ w
            → w + c ≤ total
            → leb total o ≡ false
        inside a b c p q r s = ground arith

    -- The loop leaves what is before its columns, and what is between the fixed part and its texts.
    loop-other :
        (o w : ℕ) (ts : List TypeId) (vs : List (Value D)) (m : Bytes) (a : ℕ)
        → Room total fixed o w ts vs
        → AllMatch ts vs
        → (a < o) ⊎ ((fixed ≤ a) × (a < w))
        → loop o ts vs w m a ≡ m a
    unfolding loop place write_values sizes
    loop-other o w [] [] m a r h i = refl
    loop-other o w [] (v ∷ vs) m a r h i = absurd h
    loop-other o w (t ∷ ts) [] m a r h i = absurd h
    loop-other o w (t ∷ ts) (v ∷ vs) m a r h i =
        ap (λ p. p a) (loop-turn o w t ts v vs m r h.0)
        ∙ loop-other (o + column_size t) (w + extra rt db t v) ts vs
            (write_one rt db total m t o w v) a (Room_next total fixed o w t ts v vs r) h.1
            (widen i)
        ∙ write_one-other rt db total m t o w v a h.0 (outside (sizes ts) r.columns_fit i)
            (before (sizes ts) r.columns_fit r.behind i)
      where
        widen :
            (a < o) ⊎ ((fixed ≤ a) × (a < w))
            → (a < o + column_size t) ⊎ ((fixed ≤ a) × (a < w + extra rt db t v))
        widen (inl l) = inl (omega arith)
        widen (inr l) = inr (l.0, omega (arith, l.1))

        outside :
            (n : ℕ)
            → o + (column_size t + n) ≤ fixed
            → (a < o) ⊎ ((fixed ≤ a) × (a < w))
            → (a < o) ⊎ (o + column_size t ≤ a)
        outside n c (inl l) = inl l
        outside n c (inr l) = inr (omega (arith, l.0))

        before :
            (n : ℕ)
            → o + (column_size t + n) ≤ fixed
            → fixed ≤ w
            → (a < o) ⊎ ((fixed ≤ a) × (a < w))
            → (a < w) ⊎ (w + extra rt db t v ≤ a)
        before n c b (inl l) = inl (omega arith)
        before n c b (inr l) = inl l.1

    -- The column that the schema has at an index, read off a row.
    unfoldable pub read_at : Bytes → Option Column → Option (Value D)
    read_at m none = none
    read_at m (some c) = some (read_column rt db (row rt db total m) c)

    unfoldable pub kept_at : Option TypeId → Option (Value D) → Option (Value D)
    kept_at (some t) (some v) = some (kept rt db t v)
    kept_at _ _ = none

    pub read_at-loop :
        (o w : ℕ) (ts : List TypeId) (vs : List (Value D)) (m : Bytes) (i : ℕ)
        → Room total fixed o w ts vs
        → AllMatch ts vs
        → read_at (loop o ts vs w m) (get_elem? (place o ts) i)
          ≡ kept_at (get_elem? ts i) (get_elem? vs i)
    unfolding read_at kept_at place sizes extras
    read_at-loop o w [] [] m i r h = refl
    read_at-loop o w [] (v ∷ vs) m i r h = absurd h
    read_at-loop o w (t ∷ ts) [] m i r h = absurd h
    read_at-loop o w (t ∷ ts) (v ∷ vs) m zero r h = ap some (
        read_column-write_one rt db total m (loop o (t ∷ ts) (v ∷ vs) w m) t o w v h.0
          (omega (arith, r.columns_fit, r.behind)) (omega (arith, r.texts_fit)) r.small
          (λ a k l. later a (inl l)) (λ a k l. later a (inr (reach r.behind k, l))))
      where
        later :
            (a : ℕ)
            → (a < o + column_size t) ⊎ ((fixed ≤ a) × (a < w + extra rt db t v))
            → loop o (t ∷ ts) (v ∷ vs) w m a ≡ write_one rt db total m t o w v a
        later a i =
            ap (λ p. p a) (loop-turn o w t ts v vs m r h.0)
            ∙ loop-other (o + column_size t) (w + extra rt db t v) ts vs
                (write_one rt db total m t o w v) a (Room_next total fixed o w t ts v vs r) h.1 i

        reach : {a : ℕ} → fixed ≤ w → w ≤ a → fixed ≤ a
        reach b k = omega arith
    read_at-loop o w (t ∷ ts) (v ∷ vs) m (suc i) r h =
        ap (λ z. read_at (loop o (t ∷ ts) (v ∷ vs) w m) (get_elem? (place z ts) i))
          (wrap (o + column_size t) (omega (arith, r.columns_fit, r.behind, r.texts_fit, r.small)))
        ∙ ap (λ p. read_at p (get_elem? (place (o + column_size t) ts) i))
            (loop-turn o w t ts v vs m r h.0)
        ∙ read_at-loop (o + column_size t) (w + extra rt db t v) ts vs
            (write_one rt db total m t o w v) i (Room_next total fixed o w t ts v vs r) h.1
