-- ===== src/Recovery/Replay.antt =====
-- Redo and undo of log records on the tables (RedoLogRecord, UndoLogRecord, ApplyLogRecord and
-- RollbackToTime of src/recovery/recovery_manager.cpp). The table heap with the page LSNs of its
-- pages and the tuples are an interface, and so is the removal of a database's files.
use franco_db.Prelude.{
  ℕ, zero, suc, ◌+◌, ℤ, pos, invalid, eqb_ℤ, leb_ℤ, Bool, true, false, not, ◌&&◌, ◌||◌, Option,
  none, some, List, [], ◌∷◌, ◌++◌, length, map, ltb, ◌==◌, if◌then◌else◌,
}
use franco_db.Execution.Predicate.{TypeId, Value, eqb_string}
use franco_db.Recovery.Value.{Runtime, to_string}
use franco_db.Recovery.LogRecord.{
  LogRecord, LogRecordType, insert, update, mark_delete, apply_delete, rollback_delete, drop_db,
  is_data_modification,
}
use franco_db.Recovery.Tuples.{parse_tuple_string_safe}
pub mod Rollback
pub mod Loop

-- What recovery calls of a table heap, its buffer pool and its tuples: the tuples in the order of
-- the iterator; InsertTuple, `none` when it fails; MarkDelete; the LSN of a page, `none` when it
-- cannot be fetched; a tuple made of values; and the texts of its columns.
pub record HeapApi (D : Type 0) : Type 1 where
  pub Heap : Type 0
  pub Rid : Type 0
  pub Tuple : Type 0
  pub page_of : Rid → ℤ
  pub rows : Heap → List (Rid × Tuple)
  pub insert_tuple : Heap → Tuple → Option (Rid × Heap)
  pub mark_delete_tuple : Heap → Rid → Bool × Heap
  pub first_page_id : Heap → ℤ
  pub page_lsn : Heap → ℤ → Option ℤ
  pub set_page_lsn : Heap → ℤ → ℤ → Heap
  pub make_tuple : List TypeId → List (Value D) → Tuple
  pub texts : Tuple → List (List ℕ)

unfoldable pub eqb_texts : List (List ℕ) → List (List ℕ) → Bool
eqb_texts [] [] = true
eqb_texts (a ∷ x) (b ∷ y) = eqb_string a b && eqb_texts x y
eqb_texts _ _ = false

module _ {D : Type 0} (rt : Runtime D) (api : HeapApi D) where
  open api use {Heap, Rid, Tuple}

  -- tuplesMatch
  unfoldable pub tuples_match : List TypeId → List (Value D) → Tuple → Bool
  tuples_match ts vals t =
      length vals == length ts && eqb_texts (api.texts t) (map (to_string rt) vals)

  -- The loop over the iterator, up to the first tuple that matches.
  unfoldable pub find_match : (Tuple → Bool) → List (Rid × Tuple) → Option Rid
  find_match p [] = none
  find_match p ((rid, t) ∷ rest) = if p t then some rid else find_match p rest

  unfoldable pub update_page_lsn : Heap → ℤ → ℤ → Heap
  update_page_lsn h page lsn =
      if eqb_ℤ page invalid || eqb_ℤ lsn invalid
      then h
      else elim (api.page_lsn h page) [ none ↦ h | some old ↦ api.set_page_lsn h page lsn ]

  -- InsertTuple of a row that has a value for every column, and the LSN of its page.
  unfoldable pub redo_insert : List TypeId → Heap → List (Value D) → ℤ → Heap
  redo_insert ts h vals lsn =
      if length vals == length ts
      then elim (api.insert_tuple h (api.make_tuple ts vals)) [
        | none ↦ h
        | some (rid, h') ↦ update_page_lsn h' (api.page_of rid) lsn
      ]
      else h

  unfoldable pub stamp_both : Heap → ℤ → ℤ → ℤ → Heap
  stamp_both h new_page old_page lsn =
      if eqb_ℤ new_page old_page
      then update_page_lsn h new_page lsn
      else update_page_lsn (update_page_lsn h new_page lsn) old_page lsn

  unfoldable pub replace_row : List TypeId → Heap → Rid → List (Value D) → ℤ → Heap
  replace_row ts h rid vals lsn =
      let h' = (api.mark_delete_tuple h rid).1 in
      if length vals == length ts
      then elim (api.insert_tuple h' (api.make_tuple ts vals)) [
        | none ↦ h'
        | some (new_rid, h'') ↦ stamp_both h'' (api.page_of new_rid) (api.page_of rid) lsn
      ]
      else h'

  unfoldable pub redo_update : List TypeId → Heap → List (Value D) → List (Value D) → ℤ → Heap
  redo_update ts h old_vals new_vals lsn =
      elim (find_match (tuples_match ts old_vals) (api.rows h)) [
        | none ↦ h
        | some rid ↦ replace_row ts h rid new_vals lsn
      ]

  unfoldable pub delete_row : Heap → Rid → ℤ → Heap
  delete_row h rid lsn =
      let r = api.mark_delete_tuple h rid in
      if r.0 then update_page_lsn r.1 (api.page_of rid) lsn else r.1

  unfoldable pub redo_delete : List TypeId → Heap → List (Value D) → ℤ → Heap
  redo_delete ts h old_vals lsn = elim (find_match (tuples_match ts old_vals) (api.rows h)) [
    | none ↦ h
    | some rid ↦ delete_row h rid lsn
  ]

  -- Whether the first page has the change of this LSN or a later one.
  unfoldable pub reaches : ℤ → Option ℤ → Bool
  reaches lsn none = false
  reaches lsn (some page) = not (eqb_ℤ page invalid) && leb_ℤ lsn page

  unfoldable pub skips : Heap → LogRecord D → Bool
  skips h r =
      is_data_modification r.log_record_type
      && (not (eqb_ℤ r.lsn invalid)
          && (not (eqb_ℤ (api.first_page_id h) invalid)
              && reaches r.lsn (api.page_lsn h (api.first_page_id h))))

  -- The switch of RedoLogRecord on a table that exists.
  unfoldable pub redo_by_type : LogRecordType → List TypeId → Heap → LogRecord D → Heap
  redo_by_type insert ts h r =
      redo_insert ts h (parse_tuple_string_safe rt ts (to_string rt r.new_value)) r.lsn
  redo_by_type update ts h r =
      redo_update ts h (parse_tuple_string_safe rt ts (to_string rt r.old_value))
        (parse_tuple_string_safe rt ts (to_string rt r.new_value)) r.lsn
  redo_by_type apply_delete ts h r =
      redo_delete ts h (parse_tuple_string_safe rt ts (to_string rt r.old_value)) r.lsn
  redo_by_type mark_delete ts h r =
      redo_delete ts h (parse_tuple_string_safe rt ts (to_string rt r.old_value)) r.lsn
  redo_by_type rollback_delete ts h r =
      redo_insert ts h (parse_tuple_string_safe rt ts (to_string rt r.old_value)) r.lsn
  redo_by_type _ ts h r = h

  unfoldable pub redo_table : List TypeId → Heap → LogRecord D → Heap
  redo_table ts h r = if skips h r then h else redo_by_type r.log_record_type ts h r

  unfoldable pub undo_insert : List TypeId → Heap → List (Value D) → Heap
  undo_insert ts h new_vals = elim (find_match (tuples_match ts new_vals) (api.rows h)) [
    | none ↦ h
    | some rid ↦ (api.mark_delete_tuple h rid).1
  ]

  -- InsertTuple without a look at its result; a failure leaves the heap.
  unfoldable pub put_row : List TypeId → Heap → List (Value D) → Heap
  put_row ts h vals = elim (api.insert_tuple h (api.make_tuple ts vals)) [
    | none ↦ h
    | some (rid, h') ↦ h'
  ]

  unfoldable pub revert_row : List TypeId → Heap → Rid → List (Value D) → Heap
  revert_row ts h rid old_vals =
      if length old_vals == length ts
      then put_row ts (api.mark_delete_tuple h rid).1 old_vals
      else h

  unfoldable pub undo_update : List TypeId → Heap → List (Value D) → List (Value D) → Heap
  undo_update ts h old_vals new_vals = elim (find_match (tuples_match ts new_vals) (api.rows h)) [
    | none ↦ h
    | some rid ↦ revert_row ts h rid old_vals
  ]

  unfoldable pub undo_delete : List TypeId → Heap → List (Value D) → Heap
  undo_delete ts h old_vals = if length old_vals == length ts then put_row ts h old_vals else h

  -- The switch of UndoLogRecord.
  unfoldable pub undo_by_type : LogRecordType → List TypeId → Heap → LogRecord D → Heap
  undo_by_type insert ts h r =
      undo_insert ts h (parse_tuple_string_safe rt ts (to_string rt r.new_value))
  undo_by_type update ts h r =
      undo_update ts h (parse_tuple_string_safe rt ts (to_string rt r.old_value))
        (parse_tuple_string_safe rt ts (to_string rt r.new_value))
  undo_by_type apply_delete ts h r =
      undo_delete ts h (parse_tuple_string_safe rt ts (to_string rt r.old_value))
  undo_by_type mark_delete ts h r =
      undo_delete ts h (parse_tuple_string_safe rt ts (to_string rt r.old_value))
  undo_by_type _ ts h r = h

  -- The catalog's table of a name.
  abbrev pub Table : Type 0
  Table = List TypeId × Heap

  -- The database: its tables and the databases whose files were removed.
  pub record Database : Type 0 where
    pub tables : List ℕ → Option Table
    pub removed : List (List ℕ)

  unfoldable pub put_table : Database → List ℕ → Table → Database
  put_table db name t = record db {
    tables = λ n. if eqb_string n name then some t else db.tables n;
  }

  unfoldable pub redo_other : Database → LogRecord D → Database
  redo_other db r = elim r.log_record_type [
    | drop_db ↦ record db { removed = r.db_name ∷ db.removed }
    | _ ↦ db
  ]

  unfoldable pub redo_log_record : Database → LogRecord D → Database
  redo_log_record db r = elim (db.tables r.table_name) [
    | none ↦ redo_other db r
    | some (ts, h) ↦ redo_other (put_table db r.table_name (ts, redo_table ts h r)) r
  ]

  -- UndoLogRecord, with the LSN it returns.
  unfoldable pub undo_log_record : Database → LogRecord D → ℤ × Database
  undo_log_record db r = elim (db.tables r.table_name) [
    | none ↦ (r.prev_lsn, db)
    | some (ts, h) ↦
        (r.prev_lsn, put_table db r.table_name (ts, undo_by_type r.log_record_type ts h r))
  ]

  unfoldable pub apply_log_record : Database → LogRecord D → Bool → Database
  apply_log_record db r is_undo = if is_undo then (undo_log_record db r).1 else redo_log_record db r

  -- The records behind the target time that changed data.
  unfoldable pub future_records : ℕ → List (LogRecord D) → List (LogRecord D)
  future_records target [] = []
  future_records target (r ∷ rs) =
      let rest = future_records target rs in
      if ltb target r.timestamp && is_data_modification r.log_record_type then r ∷ rest else rest

  -- The loop from rbegin to rend: the last record is undone first.
  unfoldable pub undo_backwards : List (LogRecord D) → Database → Database
  undo_backwards [] db = db
  undo_backwards (r ∷ rs) db = (undo_log_record (undo_backwards rs db) r).1

  -- RollbackToTime, on the records that ReadLogRecord finds in the log.
  unfoldable pub rollback_to_time : List (LogRecord D) → ℕ → Database → Database
  rollback_to_time records target db = undo_backwards (future_records target records) db
