-- ===== src/Recovery/LogManager/Order.antt =====
-- The log file holds the records in the order of their LSNs, however the appends and the two halves
-- of the flushes interleave (src/recovery/log_manager.cpp).
use franco_db.Prelude.{
  ℕ, zero, suc, ◌+◌, ◌-◌, ◌%◌, ◌^◌, ◌≤◌, ◌<◌, ℤ, pos, negsuc, invalid, leb_ℤ, ◌≡◌, refl, ap, ◌∙◌,
  sym, Bool, true, false, arith, List, [], ◌∷◌, ◌++◌, append_assoc, if◌then◌else◌, not, ◌&&◌, ◌||◌,
  eqb_ℤ, Bool-cases, Option-cases, inl, inr,
}
use mathlib.Core.List.{append-nil}
use mathlib.Core.Path.{subst}
use franco_db.Storage.Memory.{of_word}
use franco_db.Execution.Predicate.{eqb_string}
use franco_db.Recovery.Value.{Runtime}
use franco_db.Recovery.LogRecord.{
  LogRecord, serialize, with_size, write_fields, is_data_modification,
}
use franco_db.Recovery.Codec.{bytes_of, write_int32}
use franco_db.Common.Crc32.{compute}
use franco_db.Recovery.LogManager.{
  LogManager, Piece, append_log_record, append_open, reopen, stamped, track, dual_write, notify,
  buffered, extract, may_write, write_piece, write_log, append_file, current_path, is_empty,
  next_int, find_txn, write_to_table_log, put_txn, TransactionLogEntry, get_table_log_file_path,
}
use franco_db.Recovery.LogManager.Gap.{write_piece_open}
pub mod Flushes
pub mod Appends
pub mod Reached

-- The log file of the current database.
unfoldable pub log_contents : LogManager → List ℕ
log_contents s = s.files (current_path s)

unfoldable pub piece_bytes : List Piece → List ℕ
piece_bytes [] = []
piece_bytes (p ∷ ps) = p.bytes ++ piece_bytes ps

-- Every piece starts behind the one before, the first behind `w`; the last ends with `m`.
unfoldable pub Follow : ℕ → List Piece → ℕ → Type 0
Follow w [] m = w ≡ m
Follow w (p ∷ ps) m =
    (last : ℕ) × (p.start_lsn ≡ pos (w + 1))
    × (p.end_lsn ≡ pos last)
    × (w + 1 ≤ last)
    × (is_empty p.bytes ≡ false)
    × Follow last ps m

-- The buffer's range: nothing, or from `m + 1` up to the LSN before `n`.
unfoldable pub BufferRange : ℕ → LogManager → ℕ → Type 0
BufferRange n s m = elim (is_empty s.log_buffer) [
  | true ↦ (s.buffer_start_lsn ≡ invalid) × (n ≡ m + 1)
  | false ↦ (s.buffer_start_lsn ≡ pos (m + 1)) × (s.buffer_end_lsn ≡ pos (n - 1)) × (m + 2 ≤ n)
]

-- `history` is the bytes of all records, those in the file first; `n` is the LSN behind the last of
-- them and `k` the next one.
pub record OrderedUpTo (n k : ℕ) (s : LogManager) (history : List ℕ) : Type 0 where
  pub opened : s.is_open ≡ true
  pub next_eq : s.next_lsn ≡ k
  pub written : ℕ
  pub taken : ℕ
  pub written_eq : s.last_written_lsn ≡ pos written
  pub follow : Follow written s.pieces taken
  pub range : BufferRange n s taken
  pub bytes_eq : log_contents s ++ (piece_bytes s.pieces ++ s.log_buffer) ≡ history

abbrev pub InOrder : LogManager → List ℕ → Type 0
InOrder s history = OrderedUpTo s.next_lsn s.next_lsn s history

module _ {D : Type 0} (rt : Runtime D) (opens : List ℕ → Bool) where
  -- One step of the threads: an append, a flush that takes the buffer, and a flush that writes a
  -- piece it may write. `h` is what was appended before and after.
  pub data Step : LogManager → List ℕ → LogManager → List ℕ → Type 0 where
    append :
        (s : LogManager) (h : List ℕ) (r : LogRecord D)
        → s.next_lsn + 1 < 2147483648
        → Step s h (append_log_record rt opens s r).1 (h ++ serialize rt (stamped s r))
    takes : (s : LogManager) (h : List ℕ) → Step s h (extract s) h
    writes :
        (s : LogManager) (h : List ℕ) (before after : List Piece) (p : Piece)
        → s.pieces ≡ before ++ p ∷ after
        → may_write s p ≡ true
        → Step s h (write_piece (record s { pieces = before ++ after }) p) h

  pub data Steps : LogManager → List ℕ → LogManager → List ℕ → Type 0 where
    done : (s : LogManager) (h : List ℕ) → Steps s h s h
    more :
        (s : LogManager) (h : List ℕ) (s' : LogManager) (h' : List ℕ) (s'' : LogManager)
        (h'' : List ℕ)
        → Step s h s' h'
        → Steps s' h' s'' h''
        → Steps s h s'' h''
