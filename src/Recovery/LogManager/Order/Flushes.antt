-- ===== src/Recovery/LogManager/Order/Flushes.antt =====
-- The two halves of a flush keep the log in order (src/recovery/log_manager.cpp).
use franco_db.Prelude.{
  ℕ, ◌+◌, ◌-◌, ◌≤◌, pos, invalid, ◌≡◌, refl, ap, ◌∙◌, sym, true, false, arith, List, [], ◌∷◌, ◌++◌,
  append_assoc, eqb_ℤ, Bool-cases, inl, inr,
}
use mathlib.Core.List.{append-nil}
use mathlib.Core.Path.{subst}
use franco_db.Execution.Predicate.{eqb_string}
use franco_db.Recovery.LogManager.{
  LogManager, Piece, extract, may_write, write_piece, write_log, append_file, current_path,
  is_empty, next_int,
}
use franco_db.Recovery.LogManager.Gap.{write_piece_open}
use franco_db.Recovery.LogManager.Order.{log_contents, piece_bytes, Follow, BufferRange, InOrder}

-- A piece behind others starts behind them.
start_after :
    (w m : ℕ) (before after : List Piece) (p : Piece)
    → Follow w (before ++ p ∷ after) m
    → (k : ℕ) × (p.start_lsn ≡ pos (k + 1)) × (w ≤ k)
unfolding Follow
start_after w m [] after p f = (w, f.1, omega arith)
start_after w m (q ∷ before) after p f =
    let r = start_after f.0 m before after p f.5 in (r.0, r.1, omega (arith, r.2, f.3))

pub first_start :
    (w m : ℕ) (p : Piece) (ps : List Piece)
    → Follow w (p ∷ ps) m
    → (p.start_lsn ≡ pos (w + 1)) × (is_empty p.bytes ≡ false)
unfolding Follow
first_start w m p ps f = (f.1, f.4)

waits :
    (s : LogManager) (p : Piece) (w k : ℕ)
    → s.last_written_lsn ≡ pos w
    → p.start_lsn ≡ pos (k + 1)
    → w + 1 ≤ k
    → may_write s p ≡ false
unfolding may_write next_int eqb_ℤ
waits s p w k a b h = rw (a, b) (ground arith)

only_first :
    (s : LogManager) (w m : ℕ) (before after : List Piece) (p : Piece)
    → s.last_written_lsn ≡ pos w
    → Follow w (before ++ p ∷ after) m
    → may_write s p ≡ true
    → before ≡ []
unfolding Follow
only_first s w m [] after p a f h = refl
only_first s w m (q ∷ before) after p a f h =
    let r = start_after f.0 m before after p f.5 in
    absurd (ground (arith, waits s p w r.0 a r.1 (omega (arith, r.2, f.3)), h))

Follow-snoc :
    (w m last : ℕ) (ps : List Piece) (p : Piece)
    → Follow w ps m
    → p.start_lsn ≡ pos (m + 1)
    → p.end_lsn ≡ pos last
    → m + 1 ≤ last
    → is_empty p.bytes ≡ false
    → Follow w (ps ++ p ∷ []) last
unfolding Follow
Follow-snoc w m last [] p f a b c e = (last, rw f a, b, rw f c, e, refl)
Follow-snoc w m last (q ∷ ps) p f a b c e =
    (f.0, f.1, f.2, f.3, f.4, Follow-snoc f.0 m last ps p f.5 a b c e)

piece_bytes_snoc :
    (ps : List Piece) (p : Piece) → piece_bytes (ps ++ p ∷ []) ≡ piece_bytes ps ++ (p.bytes ++ [])
unfolding piece_bytes
piece_bytes_snoc [] p = refl
piece_bytes_snoc (q ∷ ps) p =
    ap (◌++◌ q.bytes) (piece_bytes_snoc ps p)
    ∙ sym (append_assoc q.bytes (piece_bytes ps) (p.bytes ++ []))

eqb_string_refl : (x : List ℕ) → eqb_string x x ≡ true
unfolding eqb_string
eqb_string_refl [] = refl
eqb_string_refl (a ∷ x) = ground (arith, eqb_string_refl x)

pub log_contents-write_log :
    (s : LogManager) (bytes : List ℕ) → log_contents (write_log s bytes) ≡ log_contents s ++ bytes
unfolding log_contents write_log append_file current_path
log_contents-write_log s bytes = rw (eqb_string_refl (current_path s)) refl

-- The flush whose piece is the first one writes it.
write_first :
    (s : LogManager) (h : List ℕ) (p : Piece) (after : List Piece) (o : InOrder s h)
    → Follow o.written (p ∷ after) o.taken
    → log_contents s ++ (piece_bytes (p ∷ after) ++ s.log_buffer) ≡ h
    → InOrder (write_piece (record s { pieces = after }) p) h
unfolding Follow BufferRange piece_bytes log_contents write_log current_path eqb_ℤ
write_first s h p after o f e =
    rw (write_piece_open (record s { pieces = after }) p o.opened f.4) record {
      opened = o.opened;
      next_eq = refl;
      written = f.0;
      taken = o.taken;
      written_eq = rw f.2 refl;
      follow = f.5;
      range = o.range;
      bytes_eq =
          ap (λ c. c ++ (piece_bytes after ++ s.log_buffer)) (log_contents-write_log s p.bytes)
          ∙ append_assoc (log_contents s) p.bytes (piece_bytes after ++ s.log_buffer)
          ∙ ap (◌++◌ (log_contents s)) (sym (append_assoc p.bytes (piece_bytes after) s.log_buffer))
          ∙ e;
    }

pub extract_empty : (s : LogManager) → is_empty s.log_buffer ≡ true → extract s ≡ s
unfolding extract
extract_empty s e = rw e refl

abbrev taken_piece : LogManager → Piece
taken_piece s = record {
  bytes = s.log_buffer;
  start_lsn = s.buffer_start_lsn;
  end_lsn = s.buffer_end_lsn;
}

pub extract_full :
    (s : LogManager)
    → is_empty s.log_buffer ≡ false
    → s.is_open ≡ true
    → extract s ≡ record s {
      log_buffer = [];
      pieces = s.pieces ++ taken_piece s ∷ [];
      buffer_start_lsn = invalid;
      buffer_end_lsn = invalid;
    }
unfolding extract
extract_full s e o = rw (e, o) refl

pub range_full :
    (n : ℕ) (s : LogManager) (m : ℕ)
    → is_empty s.log_buffer ≡ false
    → BufferRange n s m
    → (s.buffer_start_lsn ≡ pos (m + 1)) × (s.buffer_end_lsn ≡ pos (n - 1)) × (m + 2 ≤ n)
unfolding BufferRange
range_full n s m e r = rw (e, BufferRange) at r

pub range_empty :
    (n : ℕ) (s : LogManager) (m : ℕ)
    → is_empty s.log_buffer ≡ true
    → BufferRange n s m
    → (s.buffer_start_lsn ≡ invalid) × (n ≡ m + 1)
unfolding BufferRange
range_empty n s m e r = rw (e, BufferRange) at r

pub extract-InOrder : (s : LogManager) (h : List ℕ) → InOrder s h → InOrder (extract s) h
unfolding log_contents current_path BufferRange is_empty
extract-InOrder s h o = elim (Bool-cases (is_empty s.log_buffer)) [
  | inl e ↦ rw (extract_empty s e) o
  | inr e ↦
      let r = range_full s.next_lsn s o.taken e o.range in
      rw (extract_full s e o.opened) record {
        opened = o.opened;
        next_eq = refl;
        written = o.written;
        taken = s.next_lsn - 1;
        written_eq = o.written_eq;
        follow =
            Follow-snoc o.written o.taken (s.next_lsn - 1) s.pieces (taken_piece s) o.follow r.0 r.1
              (omega (arith, r.2)) e;
        range = (refl, omega (arith, r.2));
        bytes_eq =
            ap (◌++◌ (log_contents s)) (
              ap (λ b. b ++ []) (piece_bytes_snoc s.pieces (taken_piece s))
              ∙ append-nil (piece_bytes s.pieces ++ (s.log_buffer ++ []))
              ∙ ap (◌++◌ (piece_bytes s.pieces)) (append-nil s.log_buffer))
            ∙ o.bytes_eq;
      }
]

pub writes_lem :
    (s : LogManager) (h : List ℕ) (before after : List Piece) (p : Piece)
    → s.pieces ≡ before ++ p ∷ after
    → may_write s p ≡ true
    → InOrder s h
    → InOrder (write_piece (record s { pieces = before ++ after }) p) h
writes_lem s h before after p e m o =
    let f = subst (λ ps. Follow o.written ps o.taken) e o.follow in
    let none_before = only_first s o.written o.taken before after p o.written_eq f m in
    let e' = e ∙ ap (λ b. b ++ p ∷ after) none_before in
    rw none_before (
      write_first s h p after o (subst (λ ps. Follow o.written ps o.taken) e' o.follow)
        (ap (λ ps. log_contents s ++ (piece_bytes ps ++ s.log_buffer)) (sym e') ∙ o.bytes_eq))
