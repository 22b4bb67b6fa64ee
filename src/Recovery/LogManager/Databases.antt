-- ===== src/Recovery/LogManager/Databases.antt =====
-- The operations of LogManager that put the others together: the change, creation and removal of a
-- database's log, checkpoints, and the end of the flush thread (src/recovery/log_manager.cpp).
use franco_db.Prelude.{ℕ, invalid, Bool, true, not, ◌&&◌, ◌||◌, List, [], if◌then◌else◌}
use franco_db.Execution.Predicate.{eqb_string}
use franco_db.Recovery.Value.{Runtime}
use franco_db.Recovery.LogRecord.{LogRecord}
use franco_db.Recovery.LogManager.{
  LogManager, is_empty, write_log, open_log_file, close_current_log, append_log_record, write_piece,
  system_name,
}

-- SwitchDatabase up to the record that it appends.
unfoldable pub leave_database : (List ℕ → Bool) → LogManager → List ℕ → LogManager
leave_database opens s db =
    let w =
      if not (is_empty s.log_buffer) && s.is_open
      then record (write_log s s.log_buffer) { log_buffer = [] }
      else s in
    open_log_file opens (record (close_current_log w) { current_db = db; current_file_offset = 0 })
      db

-- StopFlushThread writes what is left and closes the file.
unfoldable pub stop_flush : LogManager → LogManager
stop_flush s =
    if s.stop_flush_thread
    then s
    else close_current_log (
        if not (is_empty s.log_buffer) && s.is_open
        then record (write_log s s.log_buffer) { log_buffer = []; stop_flush_thread = true }
        else record s { stop_flush_thread = true })

-- SwitchDatabase; `made` is the SWITCH_DB record that it makes.
unfoldable pub switch_database :
    {D : Type 0} → Runtime D → (List ℕ → Bool) → LogManager → List ℕ → LogRecord D → LogManager
switch_database rt opens s db made =
    if eqb_string db s.current_db
    then s
    else (append_log_record rt opens (leave_database opens s db) made).1

-- Flush(true) and the rest of FlushToLSN when no other flush comes between their two halves.
unfoldable pub flush_alone : LogManager → LogManager
flush_alone s =
    if is_empty s.log_buffer || not s.is_open
    then s
    else write_piece
        (record s { log_buffer = []; buffer_start_lsn = invalid; buffer_end_lsn = invalid })
        (record {
          bytes = s.log_buffer;
          start_lsn = s.buffer_start_lsn;
          end_lsn = s.buffer_end_lsn;
        })

module _ {D : Type 0} (rt : Runtime D) (opens : List ℕ → Bool) where
  -- LogCheckpoint and LogCheckpointWithTables; `made` is the CHECKPOINT_END record.
  unfoldable pub log_checkpoint : LogManager → LogRecord D → LogManager
  log_checkpoint s made = flush_alone (append_log_record rt opens s made).1

  -- CreateDatabaseLog; `switch` is the SWITCH_DB record and `made` the CREATE_DB record.
  unfoldable pub create_database_log : LogManager → LogRecord D → LogRecord D → LogManager
  create_database_log s switch made =
      let t =
        if eqb_string s.current_db system_name
        then s
        else switch_database rt opens s system_name switch in
      flush_alone (append_log_record rt opens t made).1

  -- DropDatabaseLog; `made` is the DROP_DB record.
  unfoldable pub drop_database_log : LogManager → List ℕ → LogRecord D → LogRecord D → LogManager
  drop_database_log s db switch made =
      let t =
        if eqb_string s.current_db db then switch_database rt opens s system_name switch else s in
      flush_alone (append_log_record rt opens t made).1
