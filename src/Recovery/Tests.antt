-- ===== src/Recovery/Tests.antt =====
-- Log records on concrete bytes. The doubles and the printing of numbers are stood in for by types
-- and functions that suffice for the records at hand.
use franco_db.Prelude.{
  ℕ, ℤ, pos, negsuc, invalid, ◌≤◌, ◌⊎◌, inl, inr, Option, some, none, List, [], ◌∷◌, ◌+◌, ◌%◌, ◌^◌,
  Bool, true, false,
}
use franco_db.Execution.Predicate.{TypeId, varchar, integer, boolean, bigint, timestamp, Value}
use franco_db.Recovery.Codec.{max_length}
use franco_db.Recovery.Value.{Runtime, type_number, reread, copy_from, FitsValue}
use franco_db.Recovery.LogRecord.{LogRecord, insert, begin, invalid_record, kind_number}
use franco_db.Recovery.LogRecord.RoundTrip.{read_log_record_any_crc, read_log_record_accepts}
use franco_db.Recovery.LogRecord.Values.{copy_from-reread, copy_from-reread_lost}
mod Log
mod Rows

-- Numbers from 0 to 9 as one character.
abbrev pub small_runtime : Runtime Unit
small_runtime = record {
  stoi = λ s. some (pos 7);
  stod = λ s. none;
  print_int = λ i. 55 ∷ [];
  print_double = λ d. [];
  zero_double = tt;
  any_int = pos 99;
  any_double = tt;
}

abbrev pub text_value : List ℕ → Value Unit
text_value s = record { type_id = varchar; integer_val = pos 0; decimal_val = tt; string_val = s }

abbrev pub blank : LogRecord Unit
blank = record {
  size = pos 0;
  lsn = invalid;
  prev_lsn = invalid;
  undo_next_lsn = invalid;
  txn_id = invalid;
  timestamp = 0;
  log_record_type = invalid_record;
  db_name = [];
  table_name = [];
  old_value = text_value [];
  new_value = text_value [];
  active_transactions = [];
  dirty_pages = [];
}

-- INSERT of "ab" into table "t" of database "d".
abbrev pub an_insert : LogRecord Unit
an_insert = record blank {
  lsn = pos 5;
  prev_lsn = pos 4;
  txn_id = pos 3;
  timestamp = 1000;
  log_record_type = insert;
  db_name = 100 ∷ [];
  table_name = 116 ∷ [];
  new_value = text_value (97 ∷ 98 ∷ []);
}

abbrev a_boolean : Value Unit
a_boolean = record { type_id = boolean; integer_val = pos 1; decimal_val = tt; string_val = [] }
