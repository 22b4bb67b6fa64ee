-- ===== src/Recovery/LogRecord/Body.antt =====
-- The body of a log record: what is written is read back.
use franco_db.Prelude.{
  ℕ, suc, ◌%◌, ◌^◌, ◌≤◌, ◌<◌, pos, ◌≡◌, refl, ap, ◌∙◌, arith, List, [], ◌∷◌, ◌++◌, length,
  append_assoc,
}
use franco_db.Storage.Memory.{Int32, of_word, to_word}
use franco_db.Recovery.Codec.{
  bytes_of, write_int32, write_string, read_int32, read_into, max_length, read_int32-write_int32,
  read_string-write_string, read_word-bytes_of,
}
use franco_db.Recovery.Value.{
  Runtime, write_value, copy_from, reread, FitsValue, read_value-write_value,
}
use franco_db.Recovery.LogRecord.{
  LogRecordType, invalid_record, begin, commit, abort, insert, update, mark_delete, apply_delete,
  rollback_delete, create_db, drop_db, create_table, drop_table, switch_db, checkpoint_begin,
  checkpoint_end, clr, unnamed_record, ActiveTransactionEntry, DirtyPageEntry, LogRecord, write_att,
  write_dpt, read_att, read_dpt, rounds, write_table_value, write_checkpoint, write_body,
  read_table, read_new, read_old, read_checkpoint, read_body,
}

abbrev pub FitsAtt : List ActiveTransactionEntry → Type 0
FitsAtt [] = Unit
FitsAtt (e ∷ es) = Int32 e.txn_id × Int32 e.last_lsn × Int32 e.first_lsn × FitsAtt es

abbrev pub FitsDpt : List DirtyPageEntry → Type 0
FitsDpt [] = Unit
FitsDpt (e ∷ es) = Int32 e.page_id × Int32 e.recovery_lsn × FitsDpt es

of_word_small : (n : ℕ) → n < 2147483648 → of_word (n % 2 ^ 32) ≡ pos n
unfolding of_word
of_word_small n h = ground arith

att_stream :
    (e : ActiveTransactionEntry) (es : List ActiveTransactionEntry) (s : List ℕ)
    → write_att (e ∷ es) ++ s
      ≡ write_int32 e.txn_id
        ++ (write_int32 e.last_lsn ++ (write_int32 e.first_lsn ++ (write_att es ++ s)))
unfolding write_att
att_stream e es s = simp append_assoc

dpt_stream :
    (e : DirtyPageEntry) (es : List DirtyPageEntry) (s : List ℕ)
    → write_dpt (e ∷ es) ++ s
      ≡ write_int32 e.page_id ++ (write_int32 e.recovery_lsn ++ (write_dpt es ++ s))
unfolding write_dpt
dpt_stream e es s = simp append_assoc

read_att-write_att :
    (es : List ActiveTransactionEntry) (s : List ℕ)
    → FitsAtt es
    → read_att (length es) (write_att es ++ s) ≡ (es, s)
unfolding read_att write_att
read_att-write_att [] s h = refl
read_att-write_att (e ∷ es) s h =
    ap (read_att (suc (length es))) (att_stream e es s)
    ∙ simp (
      λ (s : List ℕ). read_int32-write_int32 e.txn_id s h.0,
      λ (s : List ℕ). read_int32-write_int32 e.last_lsn s h.1,
      λ (s : List ℕ). read_int32-write_int32 e.first_lsn s h.2,
      λ (s : List ℕ). read_att-write_att es s h.3,
    )

read_dpt-write_dpt :
    (es : List DirtyPageEntry) (s : List ℕ)
    → FitsDpt es
    → read_dpt (length es) (write_dpt es ++ s) ≡ (es, s)
unfolding read_dpt write_dpt
read_dpt-write_dpt [] s h = refl
read_dpt-write_dpt (e ∷ es) s h =
    ap (read_dpt (suc (length es))) (dpt_stream e es s)
    ∙ simp (
      λ (s : List ℕ). read_int32-write_int32 e.page_id s h.0,
      λ (s : List ℕ). read_int32-write_int32 e.recovery_lsn s h.1,
      λ (s : List ℕ). read_dpt-write_dpt es s h.2,
    )

-- A count that is written as a uint32_t and read as an int32_t.
pub read_count :
    (n : ℕ) (s : List ℕ) → n < 2147483648 → read_int32 (bytes_of 4 (n % 2 ^ 32) ++ s) ≡ (pos n, s)
unfolding read_int32 read_into
read_count n s h =
    ap (λ r. (of_word r.0, r.1))
      (read_word-bytes_of 4 (to_word (pos 0)) (n % 2 ^ 32) s (omega arith))
    ∙ ap (λ z. (z, s)) (of_word_small n h)

module _ {D : Type 0} (rt : Runtime D) where
  -- What the body's fields must satisfy to be written without loss.
  pub record FitsBody (r : LogRecord D) : Type 0 where
    pub table_fits : length r.table_name ≤ max_length
    pub old_fits : FitsValue rt r.old_value
    pub new_fits : FitsValue rt r.new_value
    pub att_length : length r.active_transactions < 2147483648
    pub dpt_length : length r.dirty_pages < 2147483648
    pub att_fits : FitsAtt r.active_transactions
    pub dpt_fits : FitsDpt r.dirty_pages

  abbrev renamed : LogRecord D → LogRecord D → LogRecord D
  renamed r h = record h { table_name = r.table_name }

  abbrev with_new : LogRecord D → LogRecord D → LogRecord D
  with_new r h = record h { new_value = copy_from h.new_value (reread rt r.new_value) }

  abbrev with_old : LogRecord D → LogRecord D → LogRecord D
  with_old r h = record h { old_value = copy_from h.old_value (reread rt r.old_value) }

  abbrev with_tables : LogRecord D → LogRecord D → LogRecord D
  with_tables r h = record h {
    active_transactions = r.active_transactions;
    dirty_pages = r.dirty_pages;
  }

  -- The fields of `h` that a record of this type brings over from `r`; the others stay.
  unfoldable pub bring : LogRecordType → LogRecord D → LogRecord D → LogRecord D
  bring insert r h = with_new r (renamed r h)
  bring update r h = with_new r (with_old r (renamed r h))
  bring apply_delete r h = with_old r (renamed r h)
  bring mark_delete r h = with_old r (renamed r h)
  bring rollback_delete r h = with_old r (renamed r h)
  bring clr r h = with_new r (renamed r h)
  bring create_table r h = renamed r h
  bring drop_table r h = renamed r h
  bring checkpoint_begin r h = with_tables r h
  bring checkpoint_end r h = with_tables r h
  bring _ r h = h

  read_table_lem :
      (r h : LogRecord D) (s : List ℕ)
      → FitsBody r
      → read_table rt h (write_string r.table_name ++ s) ≡ (renamed r h, s)
  unfolding read_table
  read_table_lem r h s f =
      ap (λ t. (record h { table_name = t.0 }, t.1))
        (read_string-write_string r.table_name s f.table_fits)

  read_new_lem :
      (r h : LogRecord D) (s : List ℕ)
      → FitsBody r
      → read_new rt (h, write_value rt r.new_value ++ s) ≡ (with_new r h, s)
  unfolding read_new
  read_new_lem r h s f =
      ap (λ v. (record h { new_value = copy_from h.new_value v.0 }, v.1))
        (read_value-write_value rt r.new_value s f.new_fits)

  read_old_lem :
      (r h : LogRecord D) (s : List ℕ)
      → FitsBody r
      → read_old rt (h, write_value rt r.old_value ++ s) ≡ (with_old r h, s)
  unfolding read_old
  read_old_lem r h s f =
      ap (λ v. (record h { old_value = copy_from h.old_value v.0 }, v.1))
        (read_value-write_value rt r.old_value s f.old_fits)

  checkpoint_stream :
      (r : LogRecord D) (s : List ℕ)
      → write_checkpoint rt r.active_transactions r.dirty_pages ++ s
        ≡ bytes_of 4 (length r.active_transactions % 2 ^ 32)
          ++ (write_att r.active_transactions
              ++ (bytes_of 4 (length r.dirty_pages % 2 ^ 32) ++ (write_dpt r.dirty_pages ++ s)))
  unfolding write_checkpoint
  checkpoint_stream r s = simp append_assoc

  checkpoint_lem :
      (r h : LogRecord D) (s : List ℕ)
      → FitsBody r
      → read_checkpoint rt h (write_checkpoint rt r.active_transactions r.dirty_pages ++ s)
        ≡ (with_tables r h, s)
  unfolding read_checkpoint write_checkpoint rounds
  checkpoint_lem r h s f =
      ap (read_checkpoint rt h) (checkpoint_stream r s)
      ∙ simp (
        λ (s : List ℕ). read_count (length r.active_transactions) s f.att_length,
        λ (s : List ℕ). read_att-write_att r.active_transactions s f.att_fits,
        λ (s : List ℕ). read_count (length r.dirty_pages) s f.dpt_length,
        λ (s : List ℕ). read_dpt-write_dpt r.dirty_pages s f.dpt_fits,
      )

  insert_lem :
      (r h : LogRecord D) (s : List ℕ)
      → FitsBody r
      → read_new rt (read_table rt h (write_table_value rt r.table_name r.new_value ++ s))
        ≡ (with_new r (renamed r h), s)
  unfolding write_table_value
  insert_lem r h s f = simp (
    append_assoc,
    λ (s : List ℕ). read_table_lem r h s f,
    λ (h : LogRecord D) (s : List ℕ). read_new_lem r h s f,
  )

  delete_lem :
      (r h : LogRecord D) (s : List ℕ)
      → FitsBody r
      → read_old rt (read_table rt h (write_table_value rt r.table_name r.old_value ++ s))
        ≡ (with_old r (renamed r h), s)
  unfolding write_table_value
  delete_lem r h s f = simp (
    append_assoc,
    λ (s : List ℕ). read_table_lem r h s f,
    λ (h : LogRecord D) (s : List ℕ). read_old_lem r h s f,
  )

  update_lem :
      (r h : LogRecord D) (s : List ℕ)
      → FitsBody r
      → read_new rt (
          read_old rt (
            read_table rt h
              ((write_table_value rt r.table_name r.old_value ++ write_value rt r.new_value) ++ s)))
        ≡ (with_new r (with_old r (renamed r h)), s)
  update_lem r h s f = simp (
    append_assoc,
    λ (s : List ℕ). delete_lem r h s f,
    λ (h : LogRecord D) (s : List ℕ). read_new_lem r h s f,
  )

  -- The body of a record of any type, read into `h`, with the stream going on behind it.
  pub read_body-write_body :
      (t : LogRecordType) (r h : LogRecord D) (s : List ℕ)
      → FitsBody r
      → read_body rt t h (write_body rt t r ++ s) ≡ (bring t r h, s)
  unfolding read_body write_body bring
  read_body-write_body insert r h s f = insert_lem r h s f
  read_body-write_body update r h s f = update_lem r h s f
  read_body-write_body apply_delete r h s f = delete_lem r h s f
  read_body-write_body mark_delete r h s f = delete_lem r h s f
  read_body-write_body rollback_delete r h s f = delete_lem r h s f
  read_body-write_body clr r h s f = insert_lem r h s f
  read_body-write_body create_table r h s f = read_table_lem r h s f
  read_body-write_body drop_table r h s f = read_table_lem r h s f
  read_body-write_body checkpoint_begin r h s f = checkpoint_lem r h s f
  read_body-write_body checkpoint_end r h s f = checkpoint_lem r h s f
  read_body-write_body invalid_record r h s f = refl
  read_body-write_body begin r h s f = refl
  read_body-write_body commit r h s f = refl
  read_body-write_body abort r h s f = refl
  read_body-write_body create_db r h s f = refl
  read_body-write_body drop_db r h s f = refl
  read_body-write_body switch_db r h s f = refl
  read_body-write_body (unnamed_record n) r h s f = refl
