-- ===== src/Recovery/LogRecord/RoundTrip.antt =====
-- A log record read back from the bytes that AppendLogRecord wrote for it.
use franco_db.Prelude.{
  ℕ, ◌+◌, ◌%◌, ◌^◌, ◌≤◌, ◌<◌, ℤ, pos, ◌≡◌, refl, ap, ◌∙◌, arith, some, List, ◌++◌, length,
  append_assoc, false, ◌||◌, not, leb_ℤ, get_elem?_beyond,
}
use franco_db.Storage.Memory.{Int32}
use franco_db.Recovery.Codec.{
  bytes_of, write_int32, write_uint64, write_string, max_length, read_into-write_int32,
  read_word-bytes_of, read_word-rest, not_short, read_word-write_uint64, read_string-write_string,
}
use franco_db.Recovery.Value.{Runtime}
use franco_db.Recovery.LogRecord.{
  LogRecordType, invalid_record, begin, commit, abort, insert, update, mark_delete, apply_delete,
  rollback_delete, create_db, drop_db, create_table, drop_table, switch_db, checkpoint_begin,
  checkpoint_end, clr, unnamed_record, LogRecord, kinds, kind_number, kind_of, write_body,
  write_fields, read_header, read_rest, read_log_record,
}
use franco_db.Recovery.LogRecord.Body.{FitsBody, bring, read_count, read_body-write_body}

-- A record type that is the cast of its own number.
abbrev pub IsKind : LogRecordType → Type 0
IsKind (unnamed_record n) = (17 ≤ n) × (n < 4294967296)
IsKind _ = Unit

kind_number-lt : (t : LogRecordType) → IsKind t → kind_number t < 4294967296
unfolding kind_number
kind_number-lt (unnamed_record n) h = h.1
kind_number-lt invalid_record h = omega arith
kind_number-lt begin h = omega arith
kind_number-lt commit h = omega arith
kind_number-lt abort h = omega arith
kind_number-lt insert h = omega arith
kind_number-lt update h = omega arith
kind_number-lt mark_delete h = omega arith
kind_number-lt apply_delete h = omega arith
kind_number-lt rollback_delete h = omega arith
kind_number-lt create_db h = omega arith
kind_number-lt drop_db h = omega arith
kind_number-lt create_table h = omega arith
kind_number-lt drop_table h = omega arith
kind_number-lt switch_db h = omega arith
kind_number-lt checkpoint_begin h = omega arith
kind_number-lt checkpoint_end h = omega arith
kind_number-lt clr h = omega arith

kind_of_large : (n : ℕ) → 17 ≤ n → kind_of n ≡ unnamed_record n
unfolding kind_of
kind_of_large n h = rw (get_elem?_beyond kinds n h) refl

kind_of-kind_number : (t : LogRecordType) → IsKind t → kind_of (kind_number t) ≡ t
unfolding kind_of kind_number
kind_of-kind_number (unnamed_record n) h = kind_of_large n h.0
kind_of-kind_number invalid_record h = refl
kind_of-kind_number begin h = refl
kind_of-kind_number commit h = refl
kind_of-kind_number abort h = refl
kind_of-kind_number insert h = refl
kind_of-kind_number update h = refl
kind_of-kind_number mark_delete h = refl
kind_of-kind_number apply_delete h = refl
kind_of-kind_number rollback_delete h = refl
kind_of-kind_number create_db h = refl
kind_of-kind_number drop_db h = refl
kind_of-kind_number create_table h = refl
kind_of-kind_number drop_table h = refl
kind_of-kind_number switch_db h = refl
kind_of-kind_number checkpoint_begin h = refl
kind_of-kind_number checkpoint_end h = refl
kind_of-kind_number clr h = refl

module _ {D : Type 0} (rt : Runtime D) where
  -- What a record must satisfy to be written without loss.
  pub record FitsRecord (r : LogRecord D) : Type 0 where
    pub lsn_fits : Int32 r.lsn
    pub prev_fits : Int32 r.prev_lsn
    pub undo_fits : Int32 r.undo_next_lsn
    pub txn_fits : Int32 r.txn_id
    pub time_fits : r.timestamp < 2 ^ 64
    pub kind_fits : IsKind r.log_record_type
    pub name_fits : length r.db_name ≤ max_length
    pub body_fits : FitsBody rt r
    pub size_fits : length (write_fields rt r) + 8 ≤ max_length

  -- The header's fields brought over into `h`.
  abbrev headed : LogRecord D → LogRecord D → LogRecord D
  headed r h = record h {
    lsn = r.lsn;
    prev_lsn = r.prev_lsn;
    undo_next_lsn = r.undo_next_lsn;
    txn_id = r.txn_id;
    timestamp = r.timestamp;
    log_record_type = r.log_record_type;
    db_name = r.db_name;
  }

  -- The record that a reader finds in its variable, which held `h`.
  unfoldable pub received : LogRecord D → LogRecord D → LogRecord D
  received r h = record (bring rt r.log_record_type r (headed r h)) {
    size = pos (length (write_fields rt r) + 8);
  }

  fields_stream :
      (r : LogRecord D) (s : List ℕ)
      → write_fields rt r ++ s
        ≡ write_int32 r.lsn
          ++ (write_int32 r.prev_lsn
              ++ (write_int32 r.undo_next_lsn
                  ++ (write_int32 r.txn_id
                      ++ (write_uint64 r.timestamp
                          ++ (bytes_of 4 (kind_number r.log_record_type)
                              ++ (write_string r.db_name
                                  ++ (write_body rt r.log_record_type r ++ s)))))))
  unfolding write_fields
  fields_stream r s = simp append_assoc

  header_lem :
      (r h : LogRecord D) (s : List ℕ)
      → FitsRecord r
      → read_header rt h (write_fields rt r ++ s)
        ≡ (headed r h, write_body rt r.log_record_type r ++ s)
  unfolding read_header
  header_lem r h s f =
      ap (read_header rt h) (fields_stream r s)
      ∙ simp (
        λ (o : ℤ) (s : List ℕ). read_into-write_int32 o r.lsn s f.lsn_fits,
        λ (o : ℤ) (s : List ℕ). read_into-write_int32 o r.prev_lsn s f.prev_fits,
        λ (o : ℤ) (s : List ℕ). read_into-write_int32 o r.undo_next_lsn s f.undo_fits,
        λ (o : ℤ) (s : List ℕ). read_into-write_int32 o r.txn_id s f.txn_fits,
        λ (o : ℕ) (s : List ℕ). read_word-write_uint64 o r.timestamp s f.time_fits,
        λ (o : ℕ) (s : List ℕ).
            read_word-bytes_of 4 o (kind_number r.log_record_type) s
              (kind_number-lt r.log_record_type f.kind_fits),
        λ (s : List ℕ). read_string-write_string r.db_name s f.name_fits,
        kind_of-kind_number r.log_record_type f.kind_fits,
      )

  rest_lem :
      (r h : LogRecord D) (size crc : ℕ) (s : List ℕ)
      → FitsRecord r
      → read_rest rt h (pos size) (write_fields rt r ++ (bytes_of 4 crc ++ s))
        ≡ (record (bring rt r.log_record_type r (headed r h)) { size = pos size }, s)
  unfolding read_rest
  rest_lem r h size crc s f = simp (
    λ (s : List ℕ). header_lem r h s f,
    λ (s : List ℕ). read_body-write_body rt r.log_record_type r (headed r h) s f.body_fits,
    λ (s : List ℕ). read_word-rest 4 0 crc s,
  )

  small : (n : ℕ) → n + 8 ≤ max_length → n + 8 < 2147483648
  small n h = omega arith

  accepted :
      (n : ℕ)
      → 1 ≤ n
      → n ≤ max_length
      → (leb_ℤ (pos n) (pos 0) || not (leb_ℤ (pos n) (pos max_length))) ≡ false
  accepted n p q = ground arith

  -- The four bytes of the checksum may be any: a record is accepted and read alike with every
  -- checksum behind its fields.
  pub read_log_record_any_crc :
      (r h : LogRecord D) (crc : ℕ) (s : List ℕ)
      → FitsRecord r
      → read_log_record rt h (
          bytes_of 4 ((length (write_fields rt r) + 8) % 2 ^ 32)
          ++ (write_fields rt r ++ (bytes_of 4 crc ++ s)))
        ≡ some (received r h, s)
  unfolding read_log_record received
  read_log_record_any_crc r h crc s f =
      let n = length (write_fields rt r) in
      rw
        (
          read_count (n + 8) (write_fields rt r ++ (bytes_of 4 crc ++ s)) (small n f.size_fits),
          not_short ((n + 8) % 2 ^ 32) (write_fields rt r ++ (bytes_of 4 crc ++ s)),
          accepted (n + 8) (omega arith) f.size_fits,
          rest_lem r h (n + 8) crc s f,
        )
        refl

  -- Once a size from 1 to 10000000 is read, ReadLogRecord succeeds with that size, whatever bytes
  -- follow and however few.
  pub read_log_record_accepts :
      (h : LogRecord D) (n : ℕ) (s : List ℕ)
      → 1 ≤ n
      → n ≤ max_length
      → (r : LogRecord D) × (rest : List ℕ) × (read_log_record rt h (bytes_of 4 (n % 2 ^ 32) ++ s)
          ≡ some (r, rest))
        × (r.size ≡ pos n)
  unfolding read_log_record read_rest
  read_log_record_accepts h n s p q = (
    (read_rest rt h (pos n) s).0,
    (read_rest rt h (pos n) s).1,
    rw (read_count n s (omega arith), not_short (n % 2 ^ 32) s, accepted n p q) refl,
    refl,
  )
