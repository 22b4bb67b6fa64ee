-- ===== src/Recovery/LogRecord/Values.antt =====
-- The values of a log record after the round through the log: ReadValue of
-- src/recovery/recovery_manager.cpp and CopyFrom of src/common/value.cpp.
use franco_db.Prelude.{ℤ, ◌≡◌, ◌⊎◌, inl, inr, refl, some}
use franco_db.Execution.Predicate.{boolean, integer, bigint, varchar, timestamp, Value}
use franco_db.Recovery.Value.{
  Runtime, from_int, from_string, int_or_zero, value_of, copy_from, to_string, reread,
}

module _ {D : Type 0} (rt : Runtime D) where
  -- A number that prints and parses back.
  abbrev pub Reparses : ℤ → Type 0
  Reparses i = rt.stoi (rt.print_int i) ≡ some i

  -- An INTEGER that parses back from its print, and every VARCHAR, has the same type and text after
  -- it was logged, read and assigned to a value that held anything.
  pub copy_from-reread :
      (old v : Value D)
      → (v.type_id ≡ varchar) ⊎ ((v.type_id ≡ integer) × Reparses v.integer_val)
      → ((copy_from old (reread rt v)).type_id ≡ v.type_id)
        × (to_string rt (copy_from old (reread rt v)) ≡ to_string rt v)
  unfolding copy_from reread value_of to_string from_string int_or_zero from_int
  copy_from-reread old v (inl e) = rw e (refl, refl)
  copy_from-reread old v (inr (e, p)) = rw (e, p) (refl, refl)

  -- A BOOLEAN, BIGINT or TIMESTAMP is read as a text whose number is not assigned, and CopyFrom
  -- takes that number: the value of the record is lost.
  pub copy_from-reread_lost :
      (old v : Value D)
      → (v.type_id ≡ boolean) ⊎ ((v.type_id ≡ bigint) ⊎ (v.type_id ≡ timestamp))
      → ((copy_from old (reread rt v)).integer_val ≡ rt.any_int)
        × ((copy_from old (reread rt v)).string_val ≡ old.string_val)
  unfolding copy_from reread value_of from_string
  copy_from-reread_lost old v (inl e) = rw e (refl, refl)
  copy_from-reread_lost old v (inr (inl e)) = rw e (refl, refl)
  copy_from-reread_lost old v (inr (inr e)) = rw e (refl, refl)
