-- ===== src/Recovery/Tests/Rows.antt =====
-- Rows of one VARCHAR column: their texts in the log, and a table that is rolled back.
use franco_db.Prelude.{
  ℕ, ◌+◌, pos, ◌≡◌, refl, true, none, some, List, [], ◌∷◌, length, map, arith, if◌then◌else◌,
}
use franco_db.Execution.Predicate.{varchar, Value, eqb_string}
use franco_db.Recovery.Value.{to_string}
use franco_db.Recovery.LogRecord.{LogRecord, insert, is_data_modification}
use franco_db.Recovery.Tuples.{serialize_tuple_binary, parse_tuple_string_safe}
use franco_db.Recovery.Tuples.RoundTrip.{parse_tuple_string_safe-serialize_tuple_binary, reparsed}
use franco_db.Recovery.Replay.{HeapApi, eqb_texts, Database, rollback_to_time}
use franco_db.Recovery.Replay.Loop.{
  run_recovery_loop, up_to, redo_all, InTime, run_recovery_loop-up_to,
}
use franco_db.Recovery.Replay.Rollback.{Untouched, rollback_to_time-other}
use franco_db.Recovery.Tests.{small_runtime, text_value, blank}

abbrev two_values : List (Value Unit)
two_values = text_value (97 ∷ 124 ∷ []) ∷ text_value [] ∷ []

parse_tuple_string_safe-serialize_tuple_binary_example :
    parse_tuple_string_safe small_runtime
      (varchar ∷ varchar ∷ varchar ∷ [])
      (serialize_tuple_binary small_runtime two_values)
    ≡ reparsed small_runtime (varchar ∷ varchar ∷ varchar ∷ []) two_values
unfolding to_string
parse_tuple_string_safe-serialize_tuple_binary_example =
    parse_tuple_string_safe-serialize_tuple_binary small_runtime (varchar ∷ varchar ∷ varchar ∷ [])
      (text_value (97 ∷ 124 ∷ [])) (text_value [] ∷ []) (omega arith, (omega arith, tt))
      (omega arith)

-- A heap as the list of its rows' texts; a Rid is the texts of the row.
abbrev Texts : Type 0
Texts = List (List ℕ)

unfoldable remove_first : Texts → List Texts → List Texts
remove_first t [] = []
remove_first t (x ∷ xs) = if eqb_texts x t then xs else x ∷ remove_first t xs

abbrev list_heap : HeapApi Unit
list_heap = record {
  Heap = List Texts;
  Rid = Texts;
  Tuple = Texts;
  page_of = λ rid. pos 0;
  rows = λ h. map (λ t. (t, t)) h;
  insert_tuple = λ h t. some (t, t ∷ h);
  mark_delete_tuple = λ h t. (true, remove_first t h);
  first_page_id = λ h. pos 0;
  page_lsn = λ h page. none;
  set_page_lsn = λ h page lsn. h;
  make_tuple = λ ts vals. map (to_string small_runtime) vals;
  texts = λ t. t;
}

-- "ab" as the text of a row.
abbrev a_row : List ℕ
a_row = 97 ∷ 98 ∷ []

-- The insert of "ab" at time 1000.
abbrev row_inserted : LogRecord Unit
row_inserted = record blank {
  log_record_type = insert;
  timestamp = 1000;
  table_name = 116 ∷ [];
  new_value = text_value a_row;
}

-- Table "t" holds the row twice, once from before.
abbrev with_row : Database small_runtime list_heap
with_row = record {
  tables = λ name. some (varchar ∷ [], (a_row ∷ []) ∷ (a_row ∷ []) ∷ []);
  removed = [];
}

-- The same insert into table "u".
abbrev other_inserted : LogRecord Unit
other_inserted = record row_inserted { table_name = 117 ∷ [] }

rollback_to_time-other_example :
    (rollback_to_time small_runtime list_heap
        (other_inserted ∷ record row_inserted { timestamp = 400 } ∷ [])
        500
        with_row).tables
      (116 ∷ [])
    ≡ with_row.tables (116 ∷ [])
unfolding Untouched eqb_string is_data_modification
rollback_to_time-other_example =
    rollback_to_time-other small_runtime list_heap
      (other_inserted ∷ record row_inserted { timestamp = 400 } ∷ []) 500 with_row (116 ∷ [])
      (λ e. refl, (λ e. absurd (ground arith), tt))

-- The insert and, later, the same insert again, up to the time between.
run_recovery_loop-up_to_example :
    run_recovery_loop small_runtime list_heap 1500
      (row_inserted ∷ record row_inserted { timestamp = 2000 } ∷ [])
      0
      with_row
    ≡ (
      0
          + length (
              up_to small_runtime list_heap 1500
                (row_inserted ∷ record row_inserted { timestamp = 2000 } ∷ [])),
      redo_all small_runtime list_heap
          (up_to small_runtime list_heap 1500
            (row_inserted ∷ record row_inserted { timestamp = 2000 } ∷ []))
          with_row,
    )
unfolding InTime
run_recovery_loop-up_to_example =
    run_recovery_loop-up_to small_runtime list_heap 1500 0
      (row_inserted ∷ record row_inserted { timestamp = 2000 } ∷ []) 0 with_row (omega arith)
      (omega arith, (omega arith, tt))
