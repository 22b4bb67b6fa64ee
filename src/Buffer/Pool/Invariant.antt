-- ===== src/Buffer/Pool/Invariant.antt =====
-- What holds of the pool of buffer_pool_manager.cpp between the calls, and of a frame in between.
use franco_db.Prelude.{
  ℕ, ◌<◌, ℤ, eqb_ℤ-eq, ◌≡◌, ◌≢◌, true, false, none, some, List, ◌∷◌, arith, elem, distinct,
}
use franco_db.Buffer.Lru.Validity
use franco_db.Buffer.PageTable.{find, insert, find-insert}
use franco_db.Buffer.Pool.{Frame, Pool, store}

module _ {Data World : Type 0} where
  pub record IsValid (s : Pool Data World) : Type 0 where
    pub replacer : Validity.IsValid s.replacer
    pub capacity : s.replacer.capacity ≡ s.pool_size
    -- An entry of the page table names a frame of the pool that holds the page.
    pub table :
        (p : ℤ) (f : ℕ)
        → find p s.page_table ≡ some f
        → (f < s.pool_size) × ((s.frames f).page_id ≡ p)
    -- A free frame stands once in the free list, and nowhere else.
    pub apart : distinct s.free_list ≡ true
    pub free :
        (f : ℕ)
        → elem f s.free_list ≡ true
        → (f < s.pool_size) × (elem f s.replacer.lru_list ≡ false)
    pub free_out : (f : ℕ) (p : ℤ) → elem f s.free_list ≡ true → find p s.page_table ≢ some f
    -- A frame may be evicted just if it holds a page that nobody has pinned.
    pub evictable :
        (f : ℕ)
        → elem f s.replacer.lru_list ≡ true
        → (f < s.pool_size)
          × ((s.frames f).pin_count ≡ 0)
          × (find (s.frames f).page_id s.page_table ≡ some f)
    pub idle :
        (p : ℤ) (f : ℕ)
        → find p s.page_table ≡ some f
        → (s.frames f).pin_count ≡ 0
        → elem f s.replacer.lru_list ≡ true

  -- Frame `f` was taken, and holds no page yet.
  pub record Claims (s : Pool Data World) (f : ℕ) : Type 0 where
    pub inside : f < s.pool_size
    pub not_free : elem f s.free_list ≡ false
    pub not_evictable : elem f s.replacer.lru_list ≡ false
    pub out : (p : ℤ) → find p s.page_table ≢ some f

  -- The first free frame is taken.
  pub take_free-IsValid :
      (s : Pool Data World) (f : ℕ) (rest : List ℕ)
      → s.free_list ≡ f ∷ rest
      → IsValid s
      → IsValid (record s { free_list = rest }) × Claims (record s { free_list = rest }) f
  unfolding elem distinct
  take_free-IsValid s f rest e v = (
    record {
      replacer = v.replacer;
      capacity = v.capacity;
      table = v.table;
      apart = ground (arith, v.apart);
      free = λ g h. v.free g (ground arith);
      free_out = λ g p h. v.free_out g p (ground arith);
      evictable = v.evictable;
      idle = v.idle;
    },
    record {
      inside = ground (arith, v.free f);
      not_free = ground (arith, v.apart);
      not_evictable = ground (arith, v.free f);
      out = λ p. v.free_out f p (ground arith);
    },
  )

  -- A page goes into a claimed frame, pinned once.
  pub settle-IsValid :
      (s : Pool Data World) (f : ℕ) (p : ℤ) (e : Frame Data) (w : World)
      → IsValid s
      → Claims s f
      → find p s.page_table ≡ none
      → e.page_id ≡ p
      → e.pin_count ≡ 1
      → IsValid (record s {
        frames = store s.frames f e;
        page_table = insert p f s.page_table;
        world = w;
      })
  settle-IsValid s f p e w v c absent id one = record {
    replacer = v.replacer;
    capacity = v.capacity;
    table = λ q g h.
        ground
          (arith, find-insert p q f s.page_table, eqb_ℤ-eq q p, v.table q g, c.inside, c.out q);
    apart = v.apart;
    free = v.free;
    free_out =
        λ g q h k. ground (arith, find-insert p q f s.page_table, c.not_free, v.free_out g q h);
    evictable = λ g h. ground (
      arith,
      find-insert p (s.frames g).page_id f s.page_table,
      eqb_ℤ-eq (s.frames g).page_id p,
      c.not_evictable,
      v.evictable g h,
    );
    idle = λ q g h z. ground (arith, find-insert p q f s.page_table, v.idle q g, c.out q);
  }
