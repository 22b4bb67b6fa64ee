-- ===== src/Recovery/LogManager/Order/Appends.antt =====
-- An append keeps the log in order (src/recovery/log_manager.cpp).
use franco_db.Prelude.{
  ℕ, ◌+◌, ◌%◌, ◌^◌, ◌<◌, ℤ, pos, ◌≡◌, refl, ap, ◌∙◌, sym, Bool, true, false, arith, List, [], ◌∷◌,
  ◌++◌, append_assoc, not, ◌&&◌, eqb_ℤ, Bool-cases, Option-cases, inl, inr,
}
use mathlib.Core.Path.{subst}
use franco_db.Storage.Memory.{of_word}
use franco_db.Recovery.Value.{Runtime}
use franco_db.Recovery.LogRecord.{
  LogRecord, serialize, with_size, write_fields, is_data_modification,
}
use franco_db.Recovery.Codec.{bytes_of, write_int32}
use franco_db.Common.Crc32.{compute}
use franco_db.Recovery.LogManager.{
  LogManager, append_log_record, append_open, reopen, stamped, track, dual_write, notify, buffered,
  append_file, current_path, is_empty, find_txn, write_to_table_log, put_txn, TransactionLogEntry,
  get_table_log_file_path,
}
use franco_db.Recovery.LogManager.Order.{
  log_contents, piece_bytes, BufferRange, OrderedUpTo, InOrder,
}
use franco_db.Recovery.LogManager.Order.Flushes.{range_full, range_empty}

-- What the log does not depend on.
unrelated :
    (n k : ℕ) (s : LogManager) (h : List ℕ) (txns : List TransactionLogEntry)
    (tables : List ℕ → List ℕ) (ops : ℕ)
    → OrderedUpTo n k s h
    → OrderedUpTo n k
        (record s { active_transactions = txns; table_files = tables; operations = ops })
        h
unfolding log_contents current_path BufferRange
unrelated n k s h txns tables ops o = record {
  opened = o.opened;
  next_eq = o.next_eq;
  written = o.written;
  taken = o.taken;
  written_eq = o.written_eq;
  follow = o.follow;
  range = o.range;
  bytes_eq = o.bytes_eq;
}

track-OrderedUpTo :
    (n k : ℕ) (s : LogManager) (t lsn : ℤ) (h : List ℕ)
    → OrderedUpTo n k s h
    → OrderedUpTo n k (track s t lsn) h
unfolding track
track-OrderedUpTo n k s t lsn h o = elim (Option-cases (find_txn t s.active_transactions)) [
  | inl e ↦ rw (e, track) o
  | inr (x, e) ↦
      rw (e, track)
        (unrelated n k s h (put_txn (record x { last_lsn = lsn }) s.active_transactions)
          s.table_files s.operations o)
]

write_to_table_log-OrderedUpTo :
    (opens : List ℕ → Bool) (n k : ℕ) (s : LogManager) (db table bytes h : List ℕ)
    → OrderedUpTo n k s h
    → OrderedUpTo n k (write_to_table_log opens s db table bytes) h
unfolding write_to_table_log
write_to_table_log-OrderedUpTo opens n k s db table bytes h o =
    let path = get_table_log_file_path s.base_data_dir db table in
    elim (Bool-cases (opens path)) [
      | inl e ↦ rw e (
          unrelated n k s h s.active_transactions (append_file s.table_files path bytes)
            s.operations o)
      | inr e ↦ rw e o
    ]

dual_write-OrderedUpTo :
    {D : Type 0} (opens : List ℕ → Bool) (n k : ℕ) (s : LogManager) (r : LogRecord D)
    (bytes h : List ℕ)
    → OrderedUpTo n k s h
    → OrderedUpTo n k (dual_write opens s r bytes) h
unfolding dual_write
dual_write-OrderedUpTo opens n k s r bytes h o =
    elim (Bool-cases (not (is_empty r.table_name) && is_data_modification r.log_record_type)) [
      | inl e ↦ rw e (write_to_table_log-OrderedUpTo opens n k s r.db_name r.table_name bytes h o)
      | inr e ↦ rw e o
    ]

notify-OrderedUpTo :
    {D : Type 0} (n k : ℕ) (s : LogManager) (r : LogRecord D) (h : List ℕ)
    → OrderedUpTo n k s h
    → OrderedUpTo n k (notify s r) h
unfolding notify
notify-OrderedUpTo n k s r h o =
    elim (Bool-cases (s.has_checkpoint_mgr && is_data_modification r.log_record_type)) [
      | inl e ↦ rw e (unrelated n k s h s.active_transactions s.table_files (s.operations + 1) o)
      | inr e ↦ rw e o
    ]

is_empty-append : (xs ys : List ℕ) → is_empty ys ≡ false → is_empty (xs ++ ys) ≡ false
unfolding is_empty
is_empty-append [] ys e = e
is_empty-append (x ∷ xs) ys e = refl

pub empty_list : (xs : List ℕ) → is_empty xs ≡ true → xs ≡ []
unfolding is_empty
empty_list [] e = refl
empty_list (x ∷ xs) e = ground arith

buffered_range :
    (n : ℕ) (s : LogManager) (m : ℕ) (bytes : List ℕ)
    → is_empty bytes ≡ false
    → BufferRange n s m
    → BufferRange (n + 1) (buffered s (pos n) bytes) m
unfolding buffered eqb_ℤ BufferRange
buffered_range n s m bytes b r = elim (Bool-cases (is_empty s.log_buffer)) [
  | inl e ↦
      let q = range_empty n s m e r in
      rw (BufferRange, is_empty-append s.log_buffer bytes b)
        (rw q.0 (ap pos q.1), ap pos (omega arith), omega (arith, q.1))
  | inr e ↦
      let q = range_full n s m e r in
      rw (BufferRange, is_empty-append s.log_buffer bytes b)
        (rw q.0 refl, ap pos (omega arith), omega (arith, q.2))
]

buffered-OrderedUpTo :
    (n : ℕ) (s : LogManager) (bytes h : List ℕ)
    → is_empty bytes ≡ false
    → OrderedUpTo n (n + 1) s h
    → OrderedUpTo (n + 1) (n + 1) (buffered s (pos n) bytes) (h ++ bytes)
unfolding buffered log_contents current_path
buffered-OrderedUpTo n s bytes h b o = record {
  opened = o.opened;
  next_eq = o.next_eq;
  written = o.written;
  taken = o.taken;
  written_eq = o.written_eq;
  follow = o.follow;
  range = buffered_range n s o.taken bytes b o.range;
  bytes_eq =
      ap (◌++◌ (log_contents s)) (sym (append_assoc (piece_bytes s.pieces) s.log_buffer bytes))
      ∙ sym (append_assoc (log_contents s) (piece_bytes s.pieces ++ s.log_buffer) bytes)
      ∙ ap (λ x. x ++ bytes) o.bytes_eq;
}

numbered :
    (n k : ℕ) (s : LogManager) (h : List ℕ) (next : ℕ)
    → next ≡ n + 1
    → OrderedUpTo n k s h
    → OrderedUpTo n (n + 1) (record s { next_lsn = next }) h
unfolding log_contents current_path BufferRange
numbered n k s h next e o = record {
  opened = o.opened;
  next_eq = e;
  written = o.written;
  taken = o.taken;
  written_eq = o.written_eq;
  follow = o.follow;
  range = o.range;
  bytes_eq = o.bytes_eq;
}

settled : (k : ℕ) (s : LogManager) (h : List ℕ) → OrderedUpTo k k s h → InOrder s h
settled k s h o = subst (λ z. OrderedUpTo z z s h) (sym o.next_eq) o

small_word : (n : ℕ) → n < 2147483648 → of_word n ≡ pos n
unfolding of_word
small_word n h = ground arith

module _ {D : Type 0} (rt : Runtime D) (opens : List ℕ → Bool) where
  serialize_not_empty : (r : LogRecord D) → is_empty (serialize rt r) ≡ false
  unfolding serialize bytes_of is_empty
  serialize_not_empty r =
      let buffer = with_size (write_int32 (pos 0) ++ write_fields rt r) in
      is_empty-append buffer (bytes_of 4 (compute buffer)) refl

  reopen_open : (s : LogManager) → s.is_open ≡ true → reopen opens s ≡ s
  unfolding reopen
  reopen_open s e = rw e refl

  append_open-InOrder :
      (s : LogManager) (h : List ℕ) (r : LogRecord D)
      → s.next_lsn + 1 < 2147483648
      → InOrder s h
      → InOrder (append_open rt opens s r).1 (h ++ serialize rt (stamped s r))
  unfolding append_open stamped
  append_open-InOrder s h r b o =
      let n = s.next_lsn in
      let q = stamped s r in
      let bytes = serialize rt q in
      let s1 = record s { next_lsn = (n + 1) % 2 ^ 32 } in
      let s2 = track s1 r.txn_id q.lsn in
      let s3 = dual_write opens s2 q bytes in
      let o1 = numbered n n s h ((n + 1) % 2 ^ 32) (omega arith) o in
      let o2 = track-OrderedUpTo n (n + 1) s1 r.txn_id q.lsn h o1 in
      let o3 = dual_write-OrderedUpTo opens n (n + 1) s2 q bytes h o2 in
      let o4 = buffered-OrderedUpTo n s3 bytes h (serialize_not_empty q) o3 in
      let o5 =
        subst (λ z. OrderedUpTo (n + 1) (n + 1) (buffered s3 z bytes) (h ++ bytes))
          (sym (small_word n (omega arith))) o4 in
      settled (n + 1) (notify (buffered s3 q.lsn bytes) q) (h ++ bytes)
        (notify-OrderedUpTo (n + 1) (n + 1) (buffered s3 q.lsn bytes) q (h ++ bytes) o5)

  pub appends_lem :
      (s : LogManager) (h : List ℕ) (r : LogRecord D)
      → s.next_lsn + 1 < 2147483648
      → InOrder s h
      → InOrder (append_log_record rt opens s r).1 (h ++ serialize rt (stamped s r))
  unfolding append_log_record
  appends_lem s h r b o = rw (reopen_open s o.opened) (append_open-InOrder s h r b o)
