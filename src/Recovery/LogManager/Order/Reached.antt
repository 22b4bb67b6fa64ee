-- ===== src/Recovery/LogManager/Order/Reached.antt =====
-- Every state that the interleavings reach has its log in order, and the flushes can always finish
-- (src/recovery/log_manager.cpp).
use franco_db.Prelude.{
  ℕ, ◌+◌, ◌-◌, ◌%◌, ◌^◌, invalid, ◌≡◌, refl, ap, ◌∙◌, sym, Bool, true, arith, List, [], ◌∷◌, ◌++◌,
  if◌then◌else◌, eqb_ℤ, Bool-cases, inl, inr,
}
use mathlib.Core.List.{append-nil}
use mathlib.Core.Path.{subst}
use franco_db.Storage.Memory.{of_word}
use franco_db.Recovery.Value.{Runtime}
use franco_db.Recovery.LogManager.{
  LogManager, Piece, extract, may_write, write_piece, write_log, is_empty, next_int,
}
use franco_db.Recovery.LogManager.Gap.{write_piece_open}
use franco_db.Recovery.LogManager.Order.{
  log_contents, piece_bytes, Follow, InOrder, Step, append, takes, writes, Steps, done, more,
}
use mathlib.Core.Path.{ap₂}
use franco_db.Recovery.LogManager.Order.Flushes.{
  writes_lem, extract-InOrder, extract_empty, extract_full, first_start,
}
use franco_db.Recovery.LogManager.Order.Appends.{appends_lem, empty_list}

-- The first piece never waits.
first_may_write :
    (s : LogManager) (h : List ℕ) (p : Piece) (ps : List Piece)
    → s.pieces ≡ p ∷ ps
    → InOrder s h
    → may_write s p ≡ true
unfolding may_write next_int eqb_ℤ
first_may_write s h p ps e o =
    let f =
      first_start o.written o.taken p ps (subst (λ q. Follow o.written q o.taken) e o.follow) in
    rw (o.written_eq, f.0) (ground arith)

written_piece :
    (s : LogManager) (h : List ℕ) (p : Piece) (ps : List Piece)
    → s.pieces ≡ p ∷ ps
    → InOrder s h
    → write_piece (record s { pieces = ps }) p
      ≡ record (write_log (record s { pieces = ps }) p.bytes) {
        last_written_lsn = if eqb_ℤ p.end_lsn invalid then s.last_written_lsn else p.end_lsn;
        persistent_lsn = of_word ((s.next_lsn + (2 ^ 32 - 1)) % 2 ^ 32);
      }
unfolding write_log
written_piece s h p ps e o =
    let f =
      first_start o.written o.taken p ps (subst (λ q. Follow o.written q o.taken) e o.follow) in
    write_piece_open (record s { pieces = ps }) p o.opened f.1

extract_log_buffer : (s : LogManager) → s.is_open ≡ true → (extract s).log_buffer ≡ []
extract_log_buffer s e = elim (Bool-cases (is_empty s.log_buffer)) [
  | inl q ↦ rw (extract_empty s q) (empty_list s.log_buffer q)
  | inr q ↦ rw (extract_full s q e) refl
]

all_written :
    (s : LogManager) (h : List ℕ)
    → s.pieces ≡ []
    → s.log_buffer ≡ []
    → InOrder s h
    → log_contents s ≡ h
unfolding piece_bytes
all_written s h e b o =
    sym (append-nil (log_contents s))
    ∙ ap₂ (λ ps q. log_contents s ++ (piece_bytes ps ++ q)) (sym e) (sym b)
    ∙ o.bytes_eq

module _ {D : Type 0} (rt : Runtime D) (opens : List ℕ → Bool) where
  Step-InOrder :
      (s : LogManager) (h : List ℕ) (s' : LogManager) (h' : List ℕ)
      → Step rt opens s h s' h'
      → InOrder s h
      → InOrder s' h'
  Step-InOrder _ _ _ _ (append s h r b) o = appends_lem rt opens s h r b o
  Step-InOrder _ _ _ _ (takes s h) o = extract-InOrder s h o
  Step-InOrder _ _ _ _ (writes s h before after p e m) o = writes_lem s h before after p e m o

  -- Whatever the order of appends and of the two halves of the flushes, from a log that was written
  -- at least once: the file's bytes, those of the pieces in the order they were taken and those in
  -- the buffer are together the records' bytes in the order of their LSNs. So the file never has a
  -- record without those before it.
  pub steps-InOrder :
      (s : LogManager) (h : List ℕ) (s' : LogManager) (h' : List ℕ)
      → Steps rt opens s h s' h'
      → InOrder s h
      → InOrder s' h'
  steps-InOrder _ _ _ _ (done s h) o = o
  steps-InOrder _ _ _ _ (more s h s1 h1 s' h' step rest) o =
      steps-InOrder s1 h1 s' h' rest (Step-InOrder s h s1 h1 step o)

  drain_pieces :
      (ps : List Piece) (s : LogManager) (h : List ℕ)
      → s.pieces ≡ ps
      → InOrder s h
      → (s' : LogManager) × Steps rt opens s h s' h
        × (s'.pieces ≡ [])
        × (s'.log_buffer ≡ s.log_buffer)
        × InOrder s' h
  unfolding write_log
  drain_pieces [] s h e o = (s, done s h, e, refl, o)
  drain_pieces (p ∷ ps) s h e o =
      let m = first_may_write s h p ps e o in
      let s1 = write_piece (record s { pieces = ps }) p in
      let w = written_piece s h p ps e o in
      let r = drain_pieces ps s1 h (ap (λ t. t.pieces) w) (writes_lem s h [] ps p e m o) in
      (
        r.0,
        more s h s1 h r.0 h (writes s h [] ps p e m) r.1,
        r.2,
        r.3 ∙ ap (λ t. t.log_buffer) w,
        r.4,
      )

  -- From every log in order there are steps of the flushes, without a further append, after which no
  -- piece waits and the file holds the bytes of every record: no flush waits for ever.
  pub log_contents_drain :
      (s : LogManager) (h : List ℕ)
      → InOrder s h
      → (s' : LogManager) × Steps rt opens s h s' h × (s'.pieces ≡ []) × (log_contents s' ≡ h)
  log_contents_drain s h o =
      let r = drain_pieces (extract s).pieces (extract s) h refl (extract-InOrder s h o) in
      (
        r.0,
        more s h (extract s) h r.0 h (takes s h) r.1,
        r.2,
        all_written r.0 h r.2 (r.3 ∙ extract_log_buffer s o.opened) r.4,
      )
