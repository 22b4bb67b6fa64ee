-- ===== src/Recovery/Replay/Loop.antt =====
-- RunRecoveryLoop of src/recovery/recovery_manager.cpp, on the records that ReadLogRecord finds
-- behind the start offset, with the number of records that it replays.
use franco_db.Prelude.{
  ℕ, ◌+◌, ◌≤◌, ◌<◌, ◌≡◌, refl, ap, ◌∙◌, Bool, true, false, ◌&&◌, Bool-cases, inl, inr, List, [],
  ◌∷◌, ltb, leb, if◌then◌else◌, length, arith,
}
use franco_db.Recovery.Value.{Runtime}
use franco_db.Recovery.LogRecord.{LogRecord}
use franco_db.Recovery.Replay.{HeapApi, Database, redo_log_record}

module _ {D : Type 0} (rt : Runtime D) (api : HeapApi D) where
  -- A stop time of 0 is none.
  unfoldable pub past : ℕ → LogRecord D → Bool
  past stop r = ltb 0 stop && ltb stop r.timestamp

  unfoldable pub run_recovery_loop :
      ℕ → List (LogRecord D) → ℕ → Database rt api → ℕ × Database rt api
  run_recovery_loop stop [] count db = (count, db)
  run_recovery_loop stop (r ∷ rs) count db =
      let rest = run_recovery_loop stop rs (count + 1) (redo_log_record rt api db r) in
      if past stop r then (count, db) else rest

  -- The records up to a time.
  unfoldable pub up_to : ℕ → List (LogRecord D) → List (LogRecord D)
  up_to stop [] = []
  up_to stop (r ∷ rs) = let rest = up_to stop rs in if leb r.timestamp stop then r ∷ rest else rest

  -- All records redone in their order.
  unfoldable pub redo_all : List (LogRecord D) → Database rt api → Database rt api
  redo_all [] db = db
  redo_all (r ∷ rs) db = redo_all rs (redo_log_record rt api db r)

  -- Every record is at least as late as `t`, and no record is earlier than the one before it.
  unfoldable pub InTime : ℕ → List (LogRecord D) → Type 0
  InTime t [] = Unit
  InTime t (r ∷ rs) = (t ≤ r.timestamp) × InTime r.timestamp rs

  none_left : (stop t : ℕ) (rs : List (LogRecord D)) → stop < t → InTime t rs → up_to stop rs ≡ []
  unfolding up_to InTime
  none_left stop t [] h o = refl
  none_left stop t (r ∷ rs) h o =
      rw
        (
          late r.timestamp (omega (arith, o.0)),
          none_left stop r.timestamp rs (omega (arith, o.0)) o.1,
        )
        refl
    where
      late : (n : ℕ) → stop < n → leb n stop ≡ false
      late n h = ground arith

  not_past : (stop : ℕ) (r : LogRecord D) → leb r.timestamp stop ≡ true → past stop r ≡ false
  unfolding past
  not_past stop r e = ground arith

  is_past :
      (stop : ℕ) (r : LogRecord D) → 0 < stop → leb r.timestamp stop ≡ false → past stop r ≡ true
  unfolding past
  is_past stop r p e = ground arith

  after : (n stop : ℕ) → leb n stop ≡ false → stop < n
  after n stop e = ground arith

  -- On a log whose records are in the order of their times, the loop with a stop time redoes exactly
  -- the records up to that time, in their order, and counts them.
  pub run_recovery_loop-up_to :
      (stop t : ℕ) (rs : List (LogRecord D)) (count : ℕ) (db : Database rt api)
      → 0 < stop
      → InTime t rs
      → run_recovery_loop stop rs count db
        ≡ (count + length (up_to stop rs), redo_all (up_to stop rs) db)
  unfolding run_recovery_loop up_to redo_all InTime
  run_recovery_loop-up_to stop t [] count db p o = ap (λ n. (n, db)) (omega arith)
  run_recovery_loop-up_to stop t (r ∷ rs) count db p o = elim (Bool-cases (leb r.timestamp stop)) [
    | inl e ↦
        rw (not_past stop r e, e)
          (run_recovery_loop-up_to stop r.timestamp rs (count + 1) (redo_log_record rt api db r) p
              o.1
            ∙ ap (λ n. (n, redo_all (up_to stop rs) (redo_log_record rt api db r))) (omega arith))
    | inr e ↦
        rw (is_past stop r p e, e, none_left stop r.timestamp rs (after r.timestamp stop e) o.1)
          (ap (λ n. (n, db)) (omega arith))
  ]
