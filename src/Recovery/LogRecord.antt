-- ===== src/Recovery/LogRecord.antt =====
-- LogRecord (src/include/recovery/log_record.h), its bytes in the log (AppendLogRecord of
-- src/recovery/log_manager.cpp) and their reading (ReadLogRecord of
-- src/recovery/recovery_manager.cpp). A record is read into a variable that the loops use again, so
-- the reader takes the record that stands in it.
use franco_db.Prelude.{
  ℕ, zero, suc, ◌+◌, ◌%◌, ◌^◌, ℤ, pos, negsuc, invalid, Bool, true, false, ◌||◌, not, Option, none,
  some, List, [], ◌∷◌, ◌++◌, length, get_elem?, leb, ltb, leb_ℤ, if◌then◌else◌,
}
use franco_db.Execution.Predicate.{Value}
use franco_db.Storage.Memory.{to_word}
use franco_db.Common.Crc32.{compute}
use franco_db.Recovery.Codec.{
  bytes_of, read_word, write_int32, write_uint64, write_string, read_into, read_int32, read_string,
  max_length,
}
use franco_db.Recovery.Value.{Runtime, write_value, read_value, copy_from, from_nothing}
pub mod Body
pub mod RoundTrip
pub mod Values
pub mod Construct

pub data LogRecordType : Type 0 where
  invalid_record : LogRecordType
  begin commit abort : LogRecordType
  insert update mark_delete apply_delete rollback_delete : LogRecordType
  create_db drop_db create_table drop_table switch_db : LogRecordType
  checkpoint_begin checkpoint_end : LogRecordType
  clr : LogRecordType
  -- An int cast to the enum that is none of these.
  unnamed_record : ℕ → LogRecordType

pub record ActiveTransactionEntry : Type 0 where
  pub txn_id : ℤ
  pub last_lsn : ℤ
  pub first_lsn : ℤ

pub record DirtyPageEntry : Type 0 where
  pub page_id : ℤ
  pub recovery_lsn : ℤ

pub record LogRecord (D : Type 0) : Type 0 where
  pub size : ℤ
  pub lsn : ℤ
  pub prev_lsn : ℤ
  pub undo_next_lsn : ℤ
  pub txn_id : ℤ
  pub timestamp : ℕ
  pub log_record_type : LogRecordType
  pub db_name : List ℕ
  pub table_name : List ℕ
  pub old_value : Value D
  pub new_value : Value D
  pub active_transactions : List ActiveTransactionEntry
  pub dirty_pages : List DirtyPageEntry

-- The enum's enumerators in order.
abbrev pub kinds : List LogRecordType
kinds =
    invalid_record ∷ begin ∷ commit ∷ abort ∷ insert ∷ update ∷ mark_delete ∷ apply_delete
    ∷ rollback_delete ∷ create_db ∷ drop_db ∷ create_table ∷ drop_table ∷ switch_db
    ∷ checkpoint_begin ∷ checkpoint_end ∷ clr ∷ []

unfoldable pub kind_number : LogRecordType → ℕ
kind_number invalid_record = 0
kind_number begin = 1
kind_number commit = 2
kind_number abort = 3
kind_number insert = 4
kind_number update = 5
kind_number mark_delete = 6
kind_number apply_delete = 7
kind_number rollback_delete = 8
kind_number create_db = 9
kind_number drop_db = 10
kind_number create_table = 11
kind_number drop_table = 12
kind_number switch_db = 13
kind_number checkpoint_begin = 14
kind_number checkpoint_end = 15
kind_number clr = 16
kind_number (unnamed_record n) = n

-- static_cast<LogRecordType>
unfoldable pub kind_of : ℕ → LogRecordType
kind_of n = elim (get_elem? kinds n) [ some k ↦ k | none ↦ unnamed_record n ]

unfoldable pub is_data_modification : LogRecordType → Bool
is_data_modification insert = true
is_data_modification update = true
is_data_modification mark_delete = true
is_data_modification apply_delete = true
is_data_modification rollback_delete = true
is_data_modification _ = false

unfoldable pub is_checkpoint : LogRecordType → Bool
is_checkpoint checkpoint_begin = true
is_checkpoint checkpoint_end = true
is_checkpoint _ = false

unfoldable pub write_att : List ActiveTransactionEntry → List ℕ
write_att [] = []
write_att (e ∷ es) =
    write_int32 e.txn_id ++ (write_int32 e.last_lsn ++ (write_int32 e.first_lsn ++ write_att es))

unfoldable pub write_dpt : List DirtyPageEntry → List ℕ
write_dpt [] = []
write_dpt (e ∷ es) = write_int32 e.page_id ++ (write_int32 e.recovery_lsn ++ write_dpt es)

unfoldable pub read_att : ℕ → List ℕ → List ActiveTransactionEntry × List ℕ
read_att zero s = ([], s)
read_att (suc n) s =
    let t = read_int32 s in
    let l = read_int32 t.1 in
    let f = read_int32 l.1 in
    let rest = read_att n f.1 in
    (record { txn_id = t.0; last_lsn = l.0; first_lsn = f.0 } ∷ rest.0, rest.1)

unfoldable pub read_dpt : ℕ → List ℕ → List DirtyPageEntry × List ℕ
read_dpt zero s = ([], s)
read_dpt (suc n) s =
    let p = read_int32 s in
    let l = read_int32 p.1 in
    let rest = read_dpt n l.1 in (record { page_id = p.0; recovery_lsn = l.0 } ∷ rest.0, rest.1)

-- The rounds of `for (int32_t i = 0; i < n; i++)`.
unfoldable pub rounds : ℤ → ℕ
rounds (pos n) = n
rounds (negsuc n) = 0

-- `memcpy` over the first bytes of a buffer.
unfoldable pub patch : List ℕ → List ℕ → List ℕ
patch [] buffer = buffer
patch (b ∷ bs) [] = []
patch (b ∷ bs) (x ∷ buffer) = b ∷ patch bs buffer

-- The size, once the four bytes of the checksum are counted.
abbrev pub final_size : List ℕ → ℕ
final_size buffer = (length buffer + 4) % 2 ^ 32

abbrev pub with_size : List ℕ → List ℕ
with_size buffer = patch (bytes_of 4 (final_size buffer)) buffer

module _ {D : Type 0} (rt : Runtime D) where
  unfoldable pub write_table_value : List ℕ → Value D → List ℕ
  write_table_value table v = write_string table ++ write_value rt v

  unfoldable pub write_checkpoint : List ActiveTransactionEntry → List DirtyPageEntry → List ℕ
  write_checkpoint att dpt =
      bytes_of 4 (length att % 2 ^ 32)
      ++ (write_att att ++ (bytes_of 4 (length dpt % 2 ^ 32) ++ write_dpt dpt))

  -- The body, by the type of the record.
  unfoldable pub write_body : LogRecordType → LogRecord D → List ℕ
  write_body insert r = write_table_value r.table_name r.new_value
  write_body update r = write_table_value r.table_name r.old_value ++ write_value rt r.new_value
  write_body apply_delete r = write_table_value r.table_name r.old_value
  write_body mark_delete r = write_table_value r.table_name r.old_value
  write_body rollback_delete r = write_table_value r.table_name r.old_value
  write_body clr r = write_table_value r.table_name r.new_value
  write_body create_table r = write_string r.table_name
  write_body drop_table r = write_string r.table_name
  write_body checkpoint_begin r = write_checkpoint r.active_transactions r.dirty_pages
  write_body checkpoint_end r = write_checkpoint r.active_transactions r.dirty_pages
  write_body _ r = []

  -- Everything behind the size.
  unfoldable pub write_fields : LogRecord D → List ℕ
  write_fields r =
      write_int32 r.lsn
      ++ (write_int32 r.prev_lsn
          ++ (write_int32 r.undo_next_lsn
              ++ (write_int32 r.txn_id
                  ++ (write_uint64 r.timestamp
                      ++ (bytes_of 4 (kind_number r.log_record_type)
                          ++ (write_string r.db_name ++ write_body r.log_record_type r))))))

  unfoldable pub serialize : LogRecord D → List ℕ
  serialize r =
      let buffer = with_size (write_int32 (pos 0) ++ write_fields r) in
      buffer ++ bytes_of 4 (compute buffer)

  unfoldable pub read_table : LogRecord D → List ℕ → LogRecord D × List ℕ
  read_table r s = let t = read_string s in (record r { table_name = t.0 }, t.1)

  -- Values are assigned by CopyFrom.
  unfoldable pub read_new : LogRecord D × List ℕ → LogRecord D × List ℕ
  read_new (r, s) =
      let v = read_value rt s in (record r { new_value = copy_from r.new_value v.0 }, v.1)

  unfoldable pub read_old : LogRecord D × List ℕ → LogRecord D × List ℕ
  read_old (r, s) =
      let v = read_value rt s in (record r { old_value = copy_from r.old_value v.0 }, v.1)

  unfoldable pub read_checkpoint : LogRecord D → List ℕ → LogRecord D × List ℕ
  read_checkpoint r s =
      let n = read_int32 s in
      let att = read_att (rounds n.0) n.1 in
      let m = read_int32 att.1 in
      let dpt = read_dpt (rounds m.0) m.1 in
      (record r { active_transactions = att.0; dirty_pages = dpt.0 }, dpt.1)

  unfoldable pub read_body : LogRecordType → LogRecord D → List ℕ → LogRecord D × List ℕ
  read_body insert r s = read_new (read_table r s)
  read_body update r s = read_new (read_old (read_table r s))
  read_body apply_delete r s = read_old (read_table r s)
  read_body mark_delete r s = read_old (read_table r s)
  read_body rollback_delete r s = read_old (read_table r s)
  read_body clr r s = read_new (read_table r s)
  read_body create_table r s = read_table r s
  read_body drop_table r s = read_table r s
  read_body checkpoint_begin r s = read_checkpoint r s
  read_body checkpoint_end r s = read_checkpoint r s
  read_body _ r s = (r, s)

  -- `log_type_int` is not initialised.
  unfoldable pub read_header : LogRecord D → List ℕ → LogRecord D × List ℕ
  read_header r s =
      let lsn' = read_into r.lsn s in
      let prev = read_into r.prev_lsn lsn'.1 in
      let undo = read_into r.undo_next_lsn prev.1 in
      let txn = read_into r.txn_id undo.1 in
      let time = read_word 8 r.timestamp txn.1 in
      let kind = read_word 4 (to_word rt.any_int) time.1 in
      let db = read_string kind.1 in
      (
        record r {
          lsn = lsn'.0;
          prev_lsn = prev.0;
          undo_next_lsn = undo.0;
          txn_id = txn.0;
          timestamp = time.0;
          log_record_type = kind_of kind.0;
          db_name = db.0;
        },
        db.1,
      )

  -- The checksum is read, and not looked at.
  unfoldable pub read_rest : LogRecord D → ℤ → List ℕ → LogRecord D × List ℕ
  read_rest r size' s =
      let header = read_header r s in
      let body = read_body header.0.log_record_type header.0 header.1 in
      let crc = read_word 4 0 body.1 in (record body.0 { size = size' }, crc.1)

  -- `none` is `return false`.
  unfoldable pub read_log_record : LogRecord D → List ℕ → Option (LogRecord D × List ℕ)
  read_log_record r s =
      let size' = read_int32 s in
      if ltb (length s) 4
      then none
      else (if leb_ℤ size'.0 (pos 0) || not (leb_ℤ size'.0 (pos max_length))
          then none
          else some (read_rest r size'.0 size'.1))
