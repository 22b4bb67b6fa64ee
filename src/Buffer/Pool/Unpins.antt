-- ===== src/Buffer/Pool/Unpins.antt =====
-- UnpinPage, FlushPage, FlushAllPages and DeletePage.
use franco_db.Prelude.{
  ℕ, ◌+◌, ◌-◌, ◌<◌, ℤ, ◌≡◌, refl, Bool, true, ◌||◌, some, [], ◌∷◌, ◌++◌, arith, elem, remove, ◌==◌,
  ==_refl, if◌then◌else◌, inl, inr, ◌∙◌, Bool-cases, Option-cases, elem-append, elem-remove,
  Each-of_elem,
}
use franco_db.Buffer.Lru
use franco_db.Buffer.Lru.{Lru}
use franco_db.Buffer.Lru.Validity
use franco_db.Buffer.Lru.Order
use franco_db.Buffer.PageTable.{find}
use franco_db.Buffer.Pool.{Io, Frame, Pool, State, store, release_pin, marked, unpin_page}
use franco_db.Buffer.Pool.Invariant.{IsValid}

module _ {Data World : Type 0} where
  -- A frame keeps its page and its pin count; its bytes and its dirty bit may change.
  pub touch-IsValid :
      (s : Pool Data World) (f : ℕ) (e : Frame Data) (w : World)
      → IsValid s
      → e.page_id ≡ (s.frames f).page_id
      → e.pin_count ≡ (s.frames f).pin_count
      → IsValid (record s { frames = store s.frames f e; world = w })
  touch-IsValid s f e w v id pins = record {
    replacer = v.replacer;
    capacity = v.capacity;
    table = λ q g h. ground (arith, v.table q g h);
    apart = v.apart;
    free = v.free;
    free_out = v.free_out;
    evictable = λ g h. ground (arith, v.evictable g h);
    idle = λ q g h z. ground (arith, v.idle q g h);
  }

  pub world-IsValid :
      (s : Pool Data World) (w : World) → IsValid s → IsValid (record s { world = w })
  world-IsValid s w v = record {
    replacer = v.replacer;
    capacity = v.capacity;
    table = v.table;
    apart = v.apart;
    free = v.free;
    free_out = v.free_out;
    evictable = v.evictable;
    idle = v.idle;
  }

  -- One pin less, with some left.
  loosen-IsValid :
      (s : Pool Data World) (p : ℤ) (f : ℕ) (e : Frame Data)
      → IsValid s
      → find p s.page_table ≡ some f
      → e.page_id ≡ (s.frames f).page_id
      → 0 < (s.frames f).pin_count
      → 0 < e.pin_count
      → IsValid (record s { frames = store s.frames f e })
  loosen-IsValid s p f e v h id old left = record {
    replacer = v.replacer;
    capacity = v.capacity;
    table = λ q g k. ground (arith, v.table q g k);
    apart = v.apart;
    free = v.free;
    free_out = v.free_out;
    evictable = λ g k. ground (arith, v.evictable g k);
    idle = λ q g k z. ground (arith, v.idle q g k);
  }

  -- The replacer has room for every frame of the pool.
  unpin_room :
      (s : Pool Data World) (p : ℤ) (f : ℕ)
      → IsValid s
      → find p s.page_table ≡ some f
      → (Lru.unpin s.replacer f).lru_list ≡ remove f s.replacer.lru_list ++ f ∷ []
  unpin_room s p f v h =
      Order.unpin-list s.replacer f v.replacer (ground (arith, v.capacity, v.table p f h)) (
        Each-of_elem (λ x. x < s.replacer.capacity) s.replacer.lru_list
          (λ x k. ground (arith, v.capacity, v.evictable x k)))

  -- The last pin goes, and the frame may be evicted.
  let_go-IsValid :
      (s : Pool Data World) (p : ℤ) (f : ℕ) (e : Frame Data)
      → IsValid s
      → find p s.page_table ≡ some f
      → e.page_id ≡ (s.frames f).page_id
      → e.pin_count ≡ 0
      → IsValid (record s { frames = store s.frames f e; replacer = Lru.unpin s.replacer f })
  unfolding elem
  let_go-IsValid s p f e v h id zero_pins = record {
    replacer = Validity.unpin-IsValid s.replacer f v.replacer;
    capacity = Order.unpin-capacity s.replacer f ∙ v.capacity;
    table = λ q g k. ground (arith, v.table q g k);
    apart = v.apart;
    free = λ g k. ground (arith, v.free g k, listed g, v.free_out g p k);
    free_out = v.free_out;
    evictable = λ g k. ground (arith, v.evictable g, listed g, v.table p f h);
    idle = λ q g k z. ground (arith, v.idle q g k, listed g);
  }
    where
      listed :
          (g : ℕ)
          → elem g (Lru.unpin s.replacer f).lru_list
            ≡ (if g == f then true else elem g s.replacer.lru_list)
      listed g = ground (
        arith,
        unpin_room s p f v h,
        elem-append g (remove f s.replacer.lru_list) (f ∷ []),
        elem-remove f g s.replacer.lru_list,
      )

module _ (io : Io) where
  -- `unpin_page` moves no page and rewrites no byte.
  pub record Stays (s t : State io) : Type 0 where
    pub valid : IsValid t
    pub table : t.page_table ≡ s.page_table
    pub contents : (f : ℕ) → (t.frames f).contents ≡ (s.frames f).contents

  release_pin-Stays :
      (s : State io) (p : ℤ) (f : ℕ) (e : Frame io.Data)
      → IsValid s
      → find p s.page_table ≡ some f
      → e.page_id ≡ (s.frames f).page_id
      → e.pin_count ≡ (s.frames f).pin_count
      → e.contents ≡ (s.frames f).contents
      → Stays s (release_pin io s f e).1
  unfolding release_pin
  release_pin-Stays s p f e v h id pins same = elim (Bool-cases (e.pin_count == 0)) [
    | inl z ↦ rw z (record {
      valid = touch-IsValid s f e s.world v id pins;
      table = refl;
      contents = λ g. ground arith;
    })
    | inr z ↦ rw z (elim (Bool-cases (e.pin_count - 1 == 0)) [
      | inl o ↦ rw o (record {
        valid =
            let_go-IsValid s p f (record e { pin_count = e.pin_count - 1 }) v h id (ground arith);
        table = refl;
        contents = λ g. ground arith;
      })
      | inr o ↦ rw o (record {
        valid =
            loosen-IsValid s p f (record e { pin_count = e.pin_count - 1 }) v h id (ground arith)
              (ground arith);
        table = refl;
        contents = λ g. ground arith;
      })
    ])
  ]

  -- UnpinPage keeps a valid pool valid, and neither moves a page nor changes its bytes.
  pub unpin_page-Stays :
      (s : State io) (p : ℤ) (dirty : Bool) → IsValid s → Stays s (unpin_page io s p dirty).1
  unfolding unpin_page marked
  unpin_page-Stays s p dirty v = elim (Option-cases (find p s.page_table)) [
    | inl m ↦ rw (m, unpin_page) (record { valid = v; table = refl; contents = λ f. refl })
    | inr (f, m) ↦
        rw (m, unpin_page)
          (release_pin-Stays s p f _ v m (ground arith) (ground arith) (ground arith))
  ]

  -- In a valid pool, UnpinPage of a pinned page succeeds and drops one pin; the frame may be
  -- evicted from then on exactly if that was the last pin, and the dirty bit is set if it was set
  -- or is asked for.
  pub unpin_page_last :
      (s : State io) (p : ℤ) (f : ℕ) (dirty : Bool)
      → IsValid s
      → find p s.page_table ≡ some f
      → 0 < (s.frames f).pin_count
      → ((unpin_page io s p dirty).0 ≡ true)
        × (((unpin_page io s p dirty).1.frames f).pin_count + 1 ≡ (s.frames f).pin_count)
        × (((unpin_page io s p dirty).1.frames f).is_dirty ≡ (dirty || (s.frames f).is_dirty))
        × (elem f (unpin_page io s p dirty).1.replacer.lru_list ≡ ((s.frames f).pin_count == 1))
  unfolding unpin_page release_pin marked elem
  unpin_page_last s p f dirty v h k = (
    ground arith,
    ground arith,
    ground arith,
    ground (
      arith,
      unpin_room s p f v h,
      elem-append f (remove f s.replacer.lru_list) (f ∷ []),
      ==_refl f,
      v.evictable f,
    ),
  )
