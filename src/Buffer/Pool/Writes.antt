-- ===== src/Buffer/Pool/Writes.antt =====
-- What reaches the disk: FlushPage, FlushAllPages and the evictions of FetchPage.
use franco_db.Prelude.{
  ℕ, ℤ, pos, invalid, is_negative, eqb_ℤ, eqb_ℤ-eq, eqb_ℤ_refl, ◌≡◌, refl, sym, ◌≢◌, true, false,
  List, [], ◌∷◌, arith, inl, inr, Bool-cases, Option-cases,
}
use franco_db.Buffer.Lru
use franco_db.Buffer.Lru.{Lru}
use franco_db.Buffer.PageTable.{find}
use franco_db.Buffer.Pool.{
  Io, Claim, found, no_frame, failed, Frame, State, log_first, evict, reuse, find_free_frame, load,
  load_into, fetch_miss, fetch_hit, fetch_page, stamped, flush_page,
}
use franco_db.Buffer.Pool.Invariant.{IsValid}
use franco_db.Buffer.Pool.Frames.{victim_cases}

module _ (io : Io) where
  -- A run of the disk and the log that starts at `w`: the pages of the frames are written, and one
  -- with an LSN only right after the log was flushed up to that LSN.
  pub data WritesAhead (frames : ℕ → Frame io.Data) (w : io.World) : io.World → Type 0 where
    stop : WritesAhead frames w w
    logged :
        {v u : io.World} (f : ℕ) (d : io.Data)
        → WritesAhead frames w v
        → (frames f).page_lsn ≢ invalid
        → u ≡ io.write_page (io.flush_to_lsn v (frames f).page_lsn) (frames f).page_id d
        → WritesAhead frames w u
    without_lsn :
        {v u : io.World} (f : ℕ) (d : io.Data)
        → WritesAhead frames w v
        → (frames f).page_lsn ≡ invalid
        → u ≡ io.write_page v (frames f).page_id d
        → WritesAhead frames w u

  log_first-WritesAhead :
      (s : State io) (f : ℕ) (d : io.Data)
      → s.has_log ≡ true
      → WritesAhead s.frames s.world
          (io.write_page (log_first io s (s.frames f)) (s.frames f).page_id d)
  unfolding log_first
  log_first-WritesAhead s f d h = elim (Bool-cases (eqb_ℤ (s.frames f).page_lsn invalid)) [
    | inl e ↦ without_lsn f d stop (eqb_ℤ-eq _ _ e) (ground arith)
    | inr e ↦ logged f d stop (λ q. differ (s.frames f).page_lsn e q) (ground arith)
  ]
    where
      differ : (l : ℤ) → eqb_ℤ l invalid ≡ false → l ≢ invalid
      differ l e q = ground (arith, eqb_ℤ_refl l)

  evict-WritesAhead :
      (s : State io) (f : ℕ)
      → s.has_log ≡ true
      → WritesAhead s.frames s.world (evict io s f).1.world
  unfolding evict log_first
  evict-WritesAhead s f h = elim (Bool-cases (s.frames f).is_dirty) [
    | inl e ↦
        elim (Bool-cases (
          io.write_throws (log_first io s (s.frames f)) (s.frames f).page_id
            (s.frames f).contents)) [
              | inl k ↦ rw (e, k) (log_first-WritesAhead s f _ h)
              | inr k ↦ rw (e, k) (log_first-WritesAhead s f _ h)
            ]
    | inr e ↦ rw e stop
  ]

  abbrev After : State io → io.World → Type 0
  After s w = WritesAhead s.frames s.world w

  reuse-WritesAhead :
      (s : State io) → s.has_log ≡ true → After s (reuse io s (Lru.victim s.replacer)).1.world
  unfolding reuse
  reuse-WritesAhead s h = elim (victim_cases s.replacer s.replacer.lru_list refl) [
    | inl (_, e) ↦ rw e stop
    | inr (f, rest, r, l, e, l', c) ↦ rw e (evict-WritesAhead (record s { replacer = r }) f h)
  ]

  find_free_frame-WritesAhead :
      (s : State io) → s.has_log ≡ true → After s (find_free_frame io s).1.world
  find_free_frame-WritesAhead s h = go s.free_list refl
    where
      taken :
          (f : ℕ) (rest : List ℕ)
          → s.free_list ≡ f ∷ rest
          → (find_free_frame io s).1.world ≡ s.world
      taken f rest e = unfold find_free_frame in ground arith

      searched :
          s.free_list ≡ []
          → (find_free_frame io s).1.world ≡ (reuse io s (Lru.victim s.replacer)).1.world
      searched e = unfold find_free_frame in ground arith

      go : (l : List ℕ) → s.free_list ≡ l → After s (find_free_frame io s).1.world
      go [] e = rw (searched e) (reuse-WritesAhead s h)
      go (f ∷ rest) e = rw (taken f rest e) stop

  load-world : (s : State io) (p : ℤ) (f : ℕ) → (load io s p f).1.world ≡ s.world
  unfolding load
  load-world s p f = ground arith

  load_into-world : (p : ℤ) (r : Claim × State io) → (load_into io p r).1.world ≡ r.1.world
  unfolding load_into
  load_into-world p (no_frame, s) = refl
  load_into-world p (failed, s) = refl
  load_into-world p (found f, s) = load-world s p f

  fetch_hit-world : (s : State io) (f : ℕ) → (fetch_hit io s f).1.world ≡ s.world
  unfolding fetch_hit
  fetch_hit-world s f = ground arith

  -- With a log manager, whatever FetchPage evicts, a dirty page with an LSN goes to disk only
  -- right after the log was flushed up to that LSN.
  pub fetch_page-WritesAhead :
      (s : State io) (p : ℤ)
      → s.has_log ≡ true
      → WritesAhead s.frames s.world (fetch_page io s p).1.world
  unfolding fetch_page fetch_miss
  fetch_page-WritesAhead s p h = elim (Bool-cases (is_negative p)) [
    | inl e ↦ rw e stop
    | inr e ↦ rw e (elim (Option-cases (find p s.page_table)) [
      | inl m ↦
          rw (m, fetch_page)
            (rw (load_into-world p (find_free_frame io s)) (find_free_frame-WritesAhead s h))
      | inr (f, m) ↦ rw (m, fetch_page) (rw (fetch_hit-world s f) stop)
    ])
  ]

  -- With a log manager and in a valid pool, FlushPage writes a page with an LSN only right after
  -- the log was flushed up to that LSN.
  pub flush_page-WritesAhead :
      (s : State io) (p : ℤ)
      → IsValid s
      → s.has_log ≡ true
      → WritesAhead s.frames s.world (flush_page io s p).1.world
  unfolding flush_page
  flush_page-WritesAhead s p v h = elim (Bool-cases (eqb_ℤ p (pos 0))) [
    | inl e ↦ rw e stop
    | inr e ↦ rw e (elim (Option-cases (find p s.page_table)) [
      | inl m ↦ rw (m, flush_page) stop
      | inr (f, m) ↦
          rw (m, flush_page)
            (rw (sym (v.table p f m).1)
              (log_first-WritesAhead s f (stamped io s (s.frames f).page_id f).contents h))
    ])
  ]
