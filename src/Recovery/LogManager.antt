-- ===== src/Recovery/LogManager.antt =====
-- LogManager (src/recovery/log_manager.cpp): the log buffer, its flushing and the transactions
-- being tracked. The methods hold `latch_` in pieces: a flush takes the buffer in one step and
-- writes it in a later one, and between the two other methods run. The buffers that were taken and
-- not yet written, which the source keeps in the flushing threads' local variables, are `pieces`.
use franco_db.Prelude.{
  ℕ, zero, suc, ◌+◌, ◌-◌, ◌*◌, ◌/◌, ◌%◌, ◌^◌, ℤ, pos, negsuc, invalid, eqb_ℤ, leb_ℤ, Bool, true,
  false, not, ◌&&◌, ◌||◌, Option, none, some, List, [], ◌∷◌, ◌++◌, length, if◌then◌else◌,
}
use franco_db.Execution.Predicate.{eqb_string}
use franco_db.Storage.Memory.{of_word}
use franco_db.Recovery.Value.{Runtime}
use franco_db.Recovery.LogRecord.{
  LogRecord, ActiveTransactionEntry, serialize, is_data_modification,
}
pub mod Transactions
pub mod Order
pub mod Gap
pub mod Databases

-- "system", "/system/sys.log", "/wal.log", "/wal/" and ".wal"
abbrev pub system_name : List ℕ
system_name = 115 ∷ 121 ∷ 115 ∷ 116 ∷ 101 ∷ 109 ∷ []

abbrev pub system_log : List ℕ
system_log =
    47 ∷ 115 ∷ 121 ∷ 115 ∷ 116 ∷ 101 ∷ 109 ∷ 47 ∷ 115 ∷ 121 ∷ 115 ∷ 46 ∷ 108 ∷ 111 ∷ 103 ∷ []

abbrev pub wal_log : List ℕ
wal_log = 47 ∷ 119 ∷ 97 ∷ 108 ∷ 46 ∷ 108 ∷ 111 ∷ 103 ∷ []

abbrev pub wal_folder : List ℕ
wal_folder = 47 ∷ 119 ∷ 97 ∷ 108 ∷ 47 ∷ []

abbrev pub wal_ending : List ℕ
wal_ending = 46 ∷ 119 ∷ 97 ∷ 108 ∷ []

pub record TransactionLogEntry : Type 0 where
  pub txn_id : ℤ
  pub first_lsn : ℤ
  pub last_lsn : ℤ
  pub is_committed : Bool

-- A buffer that a flush has taken, with the LSN range it was taken with.
pub record Piece : Type 0 where
  pub bytes : List ℕ
  pub start_lsn : ℤ
  pub end_lsn : ℤ

-- `next_lsn` is the 32-bit word of next_lsn_. `files` gives the bytes of a file by its path;
-- `operations` counts the calls of OnLogOperation.
pub record LogManager : Type 0 where
  pub next_lsn : ℕ
  pub persistent_lsn : ℤ
  pub log_buffer : List ℕ
  pub pieces : List Piece
  pub last_written_lsn : ℤ
  pub buffer_start_lsn : ℤ
  pub buffer_end_lsn : ℤ
  pub base_data_dir : List ℕ
  pub current_db : List ℕ
  pub is_open : Bool
  pub current_file_offset : ℕ
  pub files : List ℕ → List ℕ
  pub table_files : List ℕ → List ℕ
  pub active_transactions : List TransactionLogEntry
  pub stop_flush_thread : Bool
  pub has_checkpoint_mgr : Bool
  pub operations : ℕ

unfoldable pub get_log_file_path : List ℕ → List ℕ → List ℕ
get_log_file_path base db =
    if eqb_string db system_name then base ++ system_log else base ++ (47 ∷ db) ++ wal_log

unfoldable pub get_table_log_file_path : List ℕ → List ℕ → List ℕ → List ℕ
get_table_log_file_path base db table = base ++ (47 ∷ db) ++ wal_folder ++ table ++ wal_ending

-- Bytes written at the end of a file.
unfoldable pub append_file : (List ℕ → List ℕ) → List ℕ → List ℕ → List ℕ → List ℕ
append_file files path bytes p = if eqb_string p path then files p ++ bytes else files p

unfoldable pub current_path : LogManager → List ℕ
current_path s = get_log_file_path s.base_data_dir s.current_db

-- `log_file_.write`
unfoldable pub write_log : LogManager → List ℕ → LogManager
write_log s bytes = record s { files = append_file s.files (current_path s) bytes }

unfoldable pub find_txn : ℤ → List TransactionLogEntry → Option TransactionLogEntry
find_txn t [] = none
find_txn t (e ∷ es) = if eqb_ℤ e.txn_id t then some e else find_txn t es

-- `active_transactions_[txn_id] = entry`, and the update through an iterator.
unfoldable pub put_txn : TransactionLogEntry → List TransactionLogEntry → List TransactionLogEntry
put_txn e [] = e ∷ []
put_txn e (x ∷ es) = if eqb_ℤ x.txn_id e.txn_id then e ∷ es else x ∷ put_txn e es

unfoldable pub erase_txn : ℤ → List TransactionLogEntry → List TransactionLogEntry
erase_txn t [] = []
erase_txn t (e ∷ es) = if eqb_ℤ e.txn_id t then es else e ∷ erase_txn t es

unfoldable pub begin_transaction : LogManager → ℤ → LogManager
begin_transaction s t = record s {
  active_transactions =
      put_txn (record { txn_id = t; first_lsn = invalid; last_lsn = invalid; is_committed = false })
        s.active_transactions;
}

unfoldable pub commit_transaction : LogManager → ℤ → LogManager
commit_transaction s t = elim (find_txn t s.active_transactions) [
  | none ↦ s
  | some e ↦ record s { active_transactions = erase_txn t s.active_transactions }
]

unfoldable pub abort_transaction : LogManager → ℤ → LogManager
abort_transaction s t = record s { active_transactions = erase_txn t s.active_transactions }

unfoldable pub get_transaction_last_lsn : LogManager → ℤ → ℤ
get_transaction_last_lsn s t = elim (find_txn t s.active_transactions) [
  | none ↦ invalid
  | some e ↦ e.last_lsn
]

unfoldable pub att_entries : List TransactionLogEntry → List ActiveTransactionEntry
att_entries [] = []
att_entries (e ∷ es) =
    let rest = att_entries es in
    if e.is_committed
    then rest
    else record { txn_id = e.txn_id; last_lsn = e.last_lsn; first_lsn = e.first_lsn } ∷ rest

unfoldable pub get_active_transactions : LogManager → List ActiveTransactionEntry
get_active_transactions s = att_entries s.active_transactions

-- OpenLogFile, where `opens` says whether a file can be opened.
unfoldable pub open_log_file : (List ℕ → Bool) → LogManager → List ℕ → LogManager
open_log_file opens s db =
    let path = get_log_file_path s.base_data_dir db in
    if opens path
    then record s { is_open = true; current_file_offset = length (s.files path) }
    else record s { is_open = false }

unfoldable pub close_current_log : LogManager → LogManager
close_current_log s = record s { is_open = false }

-- A closed log is opened again, and the flush thread started when it was stopped.
unfoldable pub reopen : (List ℕ → Bool) → LogManager → LogManager
reopen opens s =
    if s.is_open
    then s
    else record (open_log_file opens s s.current_db) { stop_flush_thread = false }

-- The tracked transaction of the record moves on to this LSN.
unfoldable pub track : LogManager → ℤ → ℤ → LogManager
track s t lsn = elim (find_txn t s.active_transactions) [
  | none ↦ s
  | some e ↦ record s {
    active_transactions = put_txn (record e { last_lsn = lsn }) s.active_transactions;
  }
]

unfoldable pub write_to_table_log :
    (List ℕ → Bool) → LogManager → List ℕ → List ℕ → List ℕ → LogManager
write_to_table_log opens s db table bytes =
    let path = get_table_log_file_path s.base_data_dir db table in
    if opens path then record s { table_files = append_file s.table_files path bytes } else s

unfoldable pub is_empty {ℓ} : {A : Type ℓ} → List A → Bool
is_empty [] = true
is_empty (x ∷ xs) = false

module _ {D : Type 0} where
  -- The record with its LSN, database and predecessor.
  unfoldable pub stamped : LogManager → LogRecord D → LogRecord D
  stamped s r = record r {
    lsn = of_word s.next_lsn;
    db_name = if is_empty r.db_name then s.current_db else r.db_name;
    prev_lsn = elim (find_txn r.txn_id s.active_transactions) [
      | none ↦ r.prev_lsn
      | some e ↦ e.last_lsn
    ];
  }

  -- The record's bytes also go to the log of its table.
  unfoldable pub dual_write : (List ℕ → Bool) → LogManager → LogRecord D → List ℕ → LogManager
  dual_write opens s r bytes =
      if not (is_empty r.table_name) && is_data_modification r.log_record_type
      then write_to_table_log opens s r.db_name r.table_name bytes
      else s

  unfoldable pub notify : LogManager → LogRecord D → LogManager
  notify s r =
      if s.has_checkpoint_mgr && is_data_modification r.log_record_type
      then record s { operations = s.operations + 1 }
      else s

-- The buffer with the record's bytes and LSN.
unfoldable pub buffered : LogManager → ℤ → List ℕ → LogManager
buffered s lsn bytes = record s {
  log_buffer = s.log_buffer ++ bytes;
  buffer_start_lsn = if eqb_ℤ s.buffer_start_lsn invalid then lsn else s.buffer_start_lsn;
  buffer_end_lsn = lsn;
  current_file_offset = s.current_file_offset + length bytes;
}

module _ {D : Type 0} (rt : Runtime D) (opens : List ℕ → Bool) where
  unfoldable pub append_open : LogManager → LogRecord D → ℤ × LogManager
  append_open s r =
      let q = stamped s r in
      let bytes = serialize rt q in
      let t = track (record s { next_lsn = (s.next_lsn + 1) % 2 ^ 32 }) r.txn_id q.lsn in
      (q.lsn, notify (buffered (dual_write opens t q bytes) q.lsn bytes) q)

  -- AppendLogRecord, with the LSN it returns.
  unfoldable pub append_log_record : LogManager → LogRecord D → ℤ × LogManager
  append_log_record s r = append_open (reopen opens s) r

-- The first half of a forced Flush and of FlushToLSN: the buffer is taken.
unfoldable pub extract : LogManager → LogManager
extract s = if is_empty s.log_buffer || not s.is_open then s else record s {
  log_buffer = [];
  pieces =
      s.pieces
      ++ record { bytes = s.log_buffer; start_lsn = s.buffer_start_lsn; end_lsn = s.buffer_end_lsn }
        ∷ [];
  buffer_start_lsn = invalid;
  buffer_end_lsn = invalid;
}

-- The condition on which a flush waits no longer: start_lsn <= last_written_lsn_ + 1, unless one of
-- the two is INVALID_LSN.
unfoldable pub next_int : ℤ → ℤ
next_int (pos n) = pos (n + 1)
next_int (negsuc zero) = pos 0
next_int (negsuc (suc n)) = negsuc n

unfoldable pub may_write : LogManager → Piece → Bool
may_write s p =
    eqb_ℤ p.start_lsn invalid
    || (eqb_ℤ s.last_written_lsn invalid || leb_ℤ p.start_lsn (next_int s.last_written_lsn))

-- The second half of a flush, for the piece that it holds.
unfoldable pub write_piece : LogManager → Piece → LogManager
write_piece s p =
    if s.is_open && not (is_empty p.bytes)
    then record (write_log s p.bytes) {
      last_written_lsn = if eqb_ℤ p.end_lsn invalid then s.last_written_lsn else p.end_lsn;
      persistent_lsn = of_word ((s.next_lsn + (2 ^ 32 - 1)) % 2 ^ 32);
    }
    else s

-- FlushToLSN returns before it takes the buffer.
unfoldable pub already_flushed : LogManager → ℤ → Bool
already_flushed s target = eqb_ℤ target invalid || leb_ℤ target s.persistent_lsn

unfoldable pub flush_to_lsn_extract : LogManager → ℤ → LogManager
flush_to_lsn_extract s target = if already_flushed s target then s else extract s
