-- ===== src/Recovery/LogRecord/Construct.antt =====
-- The constructors of LogRecord (src/include/recovery/log_record.h). `now` is what
-- GetCurrentTimestamp returns.
use franco_db.Prelude.{ℕ, ℤ, pos, invalid, List, [], ◌∷◌}
use franco_db.Execution.Predicate.{Value, invalid_type}
use franco_db.Recovery.Value.{Runtime, from_nothing, from_string, copy_from}
use franco_db.Recovery.LogRecord.{
  LogRecord, LogRecordType, insert, create_table, drop_table, clr, ActiveTransactionEntry,
  DirtyPageEntry,
}

module _ {D : Type 0} (rt : Runtime D) (now : ℕ) where
  -- The copy constructor of Value.
  unfoldable pub copied : Value D → Value D
  copied v = copy_from (from_string rt invalid_type []) v

  -- 1. BEGIN, COMMIT and ABORT.
  unfoldable pub lifecycle_record : ℤ → ℤ → LogRecordType → LogRecord D
  lifecycle_record t prev kind = record {
    size = pos 0;
    lsn = invalid;
    prev_lsn = prev;
    undo_next_lsn = invalid;
    txn_id = t;
    timestamp = now;
    log_record_type = kind;
    db_name = [];
    table_name = [];
    old_value = from_nothing rt;
    new_value = from_nothing rt;
    active_transactions = [];
    dirty_pages = [];
  }

  -- 2. A value: the new one of an INSERT, else the old one.
  unfoldable pub value_record : ℤ → ℤ → LogRecordType → List ℕ → Value D → LogRecord D
  value_record t prev kind table v = elim kind [
    | insert ↦ record (lifecycle_record t prev insert) {
      table_name = table;
      new_value = copy_from (from_nothing rt) v;
    }
    | other ↦ record (lifecycle_record t prev other) {
      table_name = table;
      old_value = copy_from (from_nothing rt) v;
    }
  ]

  -- 3. An update.
  unfoldable pub update_record : ℤ → ℤ → LogRecordType → List ℕ → Value D → Value D → LogRecord D
  update_record t prev kind table old new = record (lifecycle_record t prev kind) {
    table_name = table;
    old_value = copied old;
    new_value = copied new;
  }

  -- 4. DDL: the name is a table's for the two table records, else a database's.
  unfoldable pub ddl_record : ℤ → ℤ → LogRecordType → List ℕ → LogRecord D
  ddl_record t prev kind name = elim kind [
    | create_table ↦ record (lifecycle_record t prev create_table) { table_name = name }
    | drop_table ↦ record (lifecycle_record t prev drop_table) { table_name = name }
    | other ↦ record (lifecycle_record t prev other) { db_name = name }
  ]

  -- 5. A checkpoint, in the database "system".
  unfoldable pub checkpoint_record :
      LogRecordType → List ActiveTransactionEntry → List DirtyPageEntry → LogRecord D
  checkpoint_record kind att dpt = record (lifecycle_record (pos 0) invalid kind) {
    db_name = 115 ∷ 121 ∷ 115 ∷ 116 ∷ 101 ∷ 109 ∷ [];
    active_transactions = att;
    dirty_pages = dpt;
  }

  -- 6. A compensation record.
  unfoldable pub clr_record : ℤ → ℤ → ℤ → List ℕ → Value D → LogRecord D
  clr_record t prev undo_next table v = record (lifecycle_record t prev clr) {
    undo_next_lsn = undo_next;
    table_name = table;
    new_value = copied v;
  }
