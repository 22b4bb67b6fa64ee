-- ===== src/Recovery/Tests/Log.antt =====
-- The log manager on a log with one record.
use franco_db.Prelude.{ℕ, pos, invalid, ◌≡◌, refl, List, [], ◌∷◌, ◌++◌, Bool, true, false, arith}
use franco_db.Recovery.LogRecord.{serialize}
use franco_db.Recovery.LogManager.{
  LogManager, Piece, append_log_record, stamped, extract, write_piece, flush_to_lsn_extract,
  is_empty,
}
use franco_db.Recovery.LogManager.Gap.{write_piece-flush_to_lsn}
use franco_db.Recovery.LogManager.Order.{
  InOrder, Steps, append, takes, done, more, Follow, BufferRange, log_contents, piece_bytes,
}
use franco_db.Recovery.LogManager.Order.Reached.{steps-InOrder, log_contents_drain}
use franco_db.Recovery.Tests.{small_runtime, an_insert}

-- Every file opens.
abbrev all_open : List ℕ → Bool
all_open path = true

-- Database "d" in directory "x"; the record with LSN 0 is the byte 9. Transaction 3 is tracked.
abbrev one_written : LogManager
one_written = record {
  next_lsn = 1;
  persistent_lsn = pos 0;
  log_buffer = [];
  pieces = [];
  last_written_lsn = pos 0;
  buffer_start_lsn = invalid;
  buffer_end_lsn = invalid;
  base_data_dir = 120 ∷ [];
  current_db = 100 ∷ [];
  is_open = true;
  current_file_offset = 1;
  files = λ path. 9 ∷ [];
  table_files = λ path. [];
  active_transactions =
      record { txn_id = pos 3; first_lsn = invalid; last_lsn = pos 0; is_committed = false } ∷ [];
  stop_flush_thread = false;
  has_checkpoint_mgr = true;
  operations = 0;
}

one_written-InOrder : InOrder one_written (9 ∷ [])
unfolding Follow BufferRange log_contents piece_bytes is_empty
one_written-InOrder = record {
  opened = refl;
  next_eq = refl;
  written = 0;
  taken = 0;
  written_eq = refl;
  follow = refl;
  range = (refl, refl);
  bytes_eq = refl;
}

-- An append and a flush that takes the buffer.
abbrev two_steps :
    Steps small_runtime all_open one_written
      (9 ∷ [])
      (extract (append_log_record small_runtime all_open one_written an_insert).1)
      ((9 ∷ []) ++ serialize small_runtime (stamped one_written an_insert))
two_steps =
    more _ _ _ _ _ _ (append one_written (9 ∷ []) an_insert (omega arith))
      (more _ _ _ _ _ _ (takes _ _) (done _ _))

steps-InOrder_example :
    InOrder
      (extract (append_log_record small_runtime all_open one_written an_insert).1)
      ((9 ∷ []) ++ serialize small_runtime (stamped one_written an_insert))
steps-InOrder_example = steps-InOrder small_runtime all_open _ _ _ _ two_steps one_written-InOrder

log_contents_drain_example :
    (s : LogManager) × Steps small_runtime all_open one_written (9 ∷ []) s (9 ∷ [])
    × (s.pieces ≡ [])
    × (log_contents s ≡ 9 ∷ [])
log_contents_drain_example =
    log_contents_drain small_runtime all_open one_written (9 ∷ []) one_written-InOrder

-- LSN 1 was taken, LSN 2 (the byte 7) was appended behind it.
abbrev behind : LogManager
behind = record one_written { next_lsn = 3; log_buffer = 7 ∷ [] }

abbrev taken_byte : Piece
taken_byte = record { bytes = 8 ∷ []; start_lsn = pos 1; end_lsn = pos 1 }

write_piece-flush_to_lsn_example :
    (flush_to_lsn_extract (write_piece behind taken_byte) (pos 2) ≡ write_piece behind taken_byte)
    × ((write_piece behind taken_byte).log_buffer ≡ 7 ∷ [])
write_piece-flush_to_lsn_example =
    write_piece-flush_to_lsn behind taken_byte 2 refl (unfold is_empty in refl) (omega arith)
      (omega arith)
