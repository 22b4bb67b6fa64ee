-- ===== src/Recovery/LogManager/Transactions.antt =====
-- The chain of a transaction's records (AppendLogRecord and GetTransactionLastLSN of
-- src/recovery/log_manager.cpp).
use franco_db.Prelude.{ℤ, invalid, none, some, List}
use franco_db.Recovery.LogRecord.{LogRecord}
use franco_db.Recovery.LogManager.{LogManager, TransactionLogEntry, find_txn}

last_of : ℤ → List TransactionLogEntry → ℤ
last_of t es = elim (find_txn t es) [ none ↦ invalid | some e ↦ e.last_lsn ]
