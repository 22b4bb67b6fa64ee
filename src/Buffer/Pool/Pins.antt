-- ===== src/Buffer/Pool/Pins.antt =====
-- FetchPage, NewPage and UnpinPage: the pool stays valid, and a pinned page stays where it is.
use franco_db.Prelude.{
  ℕ, ◌<◌, ℤ, pos, is_negative, eqb_ℤ-eq, ◌≡◌, refl, ◌≢◌, none, some, [], ◌∷◌, ◌++◌, arith, ◌⊎◌,
  elem, leb, inl, inr, ◌∙◌, ap, Bool-cases, Option-cases, elem-append, elem-remove, snoc-distinct,
}
use franco_db.Buffer.Lru
use franco_db.Buffer.Lru.{Lru}
use franco_db.Buffer.Lru.Validity
use franco_db.Buffer.PageTable.{find, find-insert}
use franco_db.Buffer.Pool.{
  Io, Outcome, thrown, Claim, found, no_frame, failed, Frame, Pool, State, store, fresh, pinned,
  load, load_into, fetch_miss, fetch_hit, fetch_page,
}
use franco_db.Buffer.Pool.Invariant.{IsValid, Claims, settle-IsValid}
use franco_db.Buffer.Pool.Frames.{LosesVictim, Finds, Found, find_free_frame-Found}

module _ {Data World : Type 0} where
  -- The pool is valid, and each page that was pinned is still in its frame, with its bytes.
  pub record Keeps (s t : Pool Data World) : Type 0 where
    pub valid : IsValid t
    pub resident :
        (p : ℤ) (f : ℕ)
        → find p s.page_table ≡ some f
        → 0 < (s.frames f).pin_count
        → (find p t.page_table ≡ some f) × ((t.frames f).contents ≡ (s.frames f).contents)

  pub Keeps-refl : (s : Pool Data World) → IsValid s → Keeps s s
  Keeps-refl s v = record { valid = v; resident = λ p f h k. (h, refl) }

  -- A claimed frame goes back to the end of the free list.
  give_back-IsValid :
      (s : Pool Data World) (f : ℕ) (e : Frame Data)
      → IsValid s
      → Claims s f
      → IsValid (record s { frames = store s.frames f e; free_list = s.free_list ++ f ∷ [] })
  unfolding elem
  give_back-IsValid s f e v c = record {
    replacer = v.replacer;
    capacity = v.capacity;
    table = λ q g h. ground (arith, v.table q g h, c.out q);
    apart = snoc-distinct f s.free_list v.apart c.not_free;
    free = λ g h.
        ground (arith, elem-append g s.free_list (f ∷ []), v.free g, c.inside, c.not_evictable);
    free_out =
        λ g q h k. ground (arith, elem-append g s.free_list (f ∷ []), v.free_out g q, c.out q);
    evictable = λ g h. ground (arith, v.evictable g h, c.not_evictable);
    idle = λ q g h z. ground (arith, v.idle q g h, c.out q);
  }

  -- A hit pins the page once more and takes it from the replacer.
  pin_again-IsValid :
      (s : Pool Data World) (p : ℤ) (f : ℕ)
      → IsValid s
      → find p s.page_table ≡ some f
      → IsValid (record s {
        frames = store s.frames f (pinned (s.frames f));
        replacer = Lru.pin s.replacer f;
      })
  unfolding pinned
  pin_again-IsValid s p f v h = record {
    replacer = Validity.pin-IsValid s.replacer f v.replacer;
    capacity = Validity.pin-capacity s.replacer f ∙ v.capacity;
    table = λ q g k. ground (arith, v.table q g k);
    apart = v.apart;
    free = λ g k. ground (
      arith,
      v.free g k,
      Validity.pin-list s.replacer f v.replacer,
      elem-remove f g s.replacer.lru_list,
    );
    free_out = v.free_out;
    evictable = λ g k. ground (
      arith,
      v.evictable g,
      Validity.pin-list s.replacer f v.replacer,
      elem-remove f g s.replacer.lru_list,
    );
    idle = λ q g k z. ground (
      arith,
      v.idle q g k,
      Validity.pin-list s.replacer f v.replacer,
      elem-remove f g s.replacer.lru_list,
    );
  }

module _ (io : Io) where
  -- The frame that a search claimed holds no page, so that nothing pinned is overwritten.
  claimed_keeps :
      (s t : State io) (f : ℕ) (p : ℤ) (g : ℕ)
      → Finds io s t
      → Claims t f
      → find p s.page_table ≡ some g
      → 0 < (s.frames g).pin_count
      → (g ≢ f) × (find p t.page_table ≡ some g) × ((t.frames g).contents ≡ (s.frames g).contents)
  claimed_keeps s t f p g n c h k =
      let stays : find p t.page_table ≡ some g = ground (arith, n.table p g h) in
      (
        λ e. c.out p (stays ∙ ap some e),
        stays,
        ap (λ (m : ℕ → Frame io.Data). (m g).contents) n.frames,
      )

  load-Keeps :
      (s t : State io) (p : ℤ) (f : ℕ)
      → Finds io s t
      → Claims t f
      → find p s.page_table ≡ none
      → Keeps s (load io t p f).1
  unfolding load fresh pinned
  load-Keeps s t p f n c absent = elim (Option-cases (io.read_page t.world p)) [
    | inl e ↦
        rw (e, load)
          (record {
            valid = give_back-IsValid t f _ n.valid c;
            resident = λ q g h k. ground (arith, claimed_keeps s t f q g n c h k);
          })
    | inr (d, e) ↦
        rw (e, load)
          (record {
            valid =
                rw (Validity.pin_absent t.replacer f n.valid.replacer c.not_evictable)
                  (settle-IsValid t f p _ t.world n.valid c (n.absent p absent) refl refl);
            resident = λ q g h k. ground (
              arith,
              claimed_keeps s t f q g n c h k,
              find-insert p q f t.page_table,
              eqb_ℤ-eq q p,
            );
          })
  ]

  -- The end of a call: the pool is kept, or the write of the victim threw.
  abbrev pub Settles : State io → Outcome × State io → Type 0
  Settles s r = Keeps s r.1 ⊎ ((r.0 ≡ thrown) × LosesVictim io s r.1)

  load_into-Keeps :
      (s : State io) (p : ℤ) (r : Claim × State io)
      → find p s.page_table ≡ none
      → Found io s r
      → Settles s (load_into io p r)
  unfolding load_into
  load_into-Keeps s p (failed, t) absent n = inr (refl, n)
  load_into-Keeps s p (no_frame, t) absent n = inl (record {
    valid = n.valid;
    resident = λ q g h k.
        ground (arith, n.table q g h, ap (λ (m : ℕ → Frame io.Data). (m g).contents) n.frames);
  })
  load_into-Keeps s p (found f, t) absent (n, c) = inl (load-Keeps s t p f n c absent)

  fetch_hit-Keeps :
      (s : State io) (p : ℤ) (f : ℕ)
      → IsValid s
      → find p s.page_table ≡ some f
      → Keeps s (fetch_hit io s f).1
  unfolding fetch_hit
  fetch_hit-Keeps s p f v h = elim (Bool-cases (leb s.pool_size f)) [
    | inl e ↦ rw e (Keeps-refl s v)
    | inr e ↦ rw e (record {
      valid = pin_again-IsValid s p f v h;
      resident = λ q g k l. (k, unfold pinned in ground arith);
    })
  ]

  pub fetch_page-Keeps : (s : State io) (p : ℤ) → IsValid s → Settles s (fetch_page io s p)
  unfolding fetch_page fetch_miss
  fetch_page-Keeps s p v = elim (Bool-cases (is_negative p)) [
    | inl e ↦ rw e (inl (Keeps-refl s v))
    | inr e ↦ rw e (elim (Option-cases (find p s.page_table)) [
      | inl m ↦ rw (m, fetch_page) (load_into-Keeps s p _ m (find_free_frame-Found io s v))
      | inr (f, m) ↦ rw (m, fetch_page) (inl (fetch_hit-Keeps s p f v m))
    ])
  ]

  -- The id that the allocator will hand out is that of no page in the pool.
  abbrev pub NewId : State io → State io → Type 0
  NewId s t =
      (d : io.Data)
      → io.read_page t.world (pos 2) ≡ some d
      → find (io.allocate_page d (io.num_pages t.world)).0 s.page_table ≡ none
