-- ===== src/Recovery/Replay/Rollback.antt =====
-- What RollbackToTime of src/recovery/recovery_manager.cpp undoes, in which order, and what it leaves.
use franco_db.Prelude.{
  ℕ, ◌≡◌, refl, ◌∙◌, true, false, ◌&&◌, Bool-cases, Option-cases, inl, inr, List, [], ◌∷◌, ltb,
}
use franco_db.Execution.Predicate.{eqb_string}
use franco_db.Recovery.Value.{Runtime}
use franco_db.Recovery.LogRecord.{LogRecord, is_data_modification}
use franco_db.Recovery.Replay.{
  HeapApi, Database, put_table, undo_log_record, undo_backwards, rollback_to_time, future_records,
}

module _ {D : Type 0} (rt : Runtime D) (api : HeapApi D) where
  -- No record later than the target that changes data is of the table.
  unfoldable pub Untouched : List ℕ → ℕ → List (LogRecord D) → Type 0
  Untouched name target [] = Unit
  Untouched name target (r ∷ rs) =
      ((ltb target r.timestamp && is_data_modification r.log_record_type) ≡ true
        → eqb_string name r.table_name ≡ false)
      × Untouched name target rs

  undo_log_record-other :
      (db : Database rt api) (r : LogRecord D) (name : List ℕ)
      → eqb_string name r.table_name ≡ false
      → (undo_log_record rt api db r).1.tables name ≡ db.tables name
  unfolding undo_log_record put_table
  undo_log_record-other db r name e = elim (Option-cases (db.tables r.table_name)) [
    | inl f ↦ rw (undo_log_record, f) refl
    | inr ((ts, h), f) ↦ rw (undo_log_record, f) (rw e refl)
  ]

  -- A table keeps its columns and its heap in RollbackToTime when no record later than the target
  -- that changes data is of this table, whatever the log says of the other tables.
  pub rollback_to_time-other :
      (records : List (LogRecord D)) (target : ℕ) (db : Database rt api) (name : List ℕ)
      → Untouched name target records
      → (rollback_to_time rt api records target db).tables name ≡ db.tables name
  unfolding rollback_to_time future_records undo_backwards Untouched
  rollback_to_time-other [] target db name u = refl
  rollback_to_time-other (r ∷ rs) target db name (h, u) =
      elim (Bool-cases (ltb target r.timestamp && is_data_modification r.log_record_type)) [
        | inl e ↦ rw e (
            undo_log_record-other (rollback_to_time rt api rs target db) r name (h e)
            ∙ rollback_to_time-other rs target db name u)
        | inr e ↦ rw e (rollback_to_time-other rs target db name u)
      ]
