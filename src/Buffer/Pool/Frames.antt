-- ===== src/Buffer/Pool/Frames.antt =====
-- FindFreeFrame and the first half of NewPage: how a frame is claimed.
use mathlib.Core.Path.{subst}
use franco_db.Prelude.{
  ℕ, ℤ, eqb_ℤ-eq, eqb_ℤ_refl, ◌≡◌, refl, ◌⊎◌, none, some, List, [], ◌∷◌, arith, elem, remove,
  distinct, inl, inr, ◌∙◌, ap, sym, Bool-cases, ◌&&◌,
}
use franco_db.Buffer.Lru
use franco_db.Buffer.Lru.{Lru}
use franco_db.Buffer.Lru.Validity
use franco_db.Buffer.PageTable.{find, erase, find-erase}
use franco_db.Buffer.Pool.{
  Io, Claim, found, no_frame, failed, Pool, State, log_first, evict, evict_unlogged, reuse,
  reuse_unlogged, find_free_frame, new_page_frame,
}
use franco_db.Buffer.Pool.Invariant.{IsValid, Claims, take_free-IsValid}

-- What the replacer's `victim` does, by its list.
pub victim_cases :
    (r : Lru) (l : List ℕ)
    → r.lru_list ≡ l
    → (l ≡ []) × (Lru.victim r ≡ (none, r))
      ⊎ ((f : ℕ) × (rest : List ℕ) × (r' : Lru) × (l ≡ f ∷ rest)
          × (Lru.victim r ≡ (some f, r'))
          × (r'.lru_list ≡ rest)
          × (r'.capacity ≡ r.capacity))
unfolding Lru.victim
victim_cases r [] e = inl (refl, ground arith)
victim_cases r (f ∷ rest) e = inr (
  f,
  rest,
  record r { lru_list = rest; lru_map = remove f r.lru_map },
  refl,
  ground arith,
  refl,
  refl,
)

module _ {Data World : Type 0} where
  -- Its page leaves the table, and the frame is claimed.
  pub drop_page-IsValid :
      (s : Pool Data World) (f : ℕ) (rest : List ℕ) (r' : Lru) (w : World)
      → IsValid s
      → s.replacer.lru_list ≡ f ∷ rest
      → r'.lru_list ≡ rest
      → r'.capacity ≡ s.replacer.capacity
      → Validity.IsValid r'
      → (t : Pool Data World)
      → t ≡ record s {
        replacer = r';
        world = w;
        page_table = erase (s.frames f).page_id s.page_table;
      }
      → IsValid t × Claims t f
  unfolding elem distinct
  drop_page-IsValid s f rest r' w v e same cap v' t is = rw is (
    record {
      replacer = v';
      capacity = cap ∙ v.capacity;
      table = λ p g h. ground (arith, find-erase (s.frames f).page_id p s.page_table, v.table p g);
      apart = v.apart;
      free = λ g h. ground (arith, v.free g h);
      free_out = λ g p h k.
          ground (arith, find-erase (s.frames f).page_id p s.page_table, v.free_out g p h);
      evictable = λ g h. ground (
        arith,
        find-erase (s.frames f).page_id (s.frames g).page_id s.page_table,
        eqb_ℤ-eq (s.frames g).page_id (s.frames f).page_id,
        v.evictable g,
        v.evictable f,
        v.replacer.apart,
      );
      idle = λ p g h z. ground (
        arith,
        find-erase (s.frames f).page_id p s.page_table,
        eqb_ℤ_refl p,
        v.idle p g,
        v.table p g,
      );
    },
    record {
      inside = ground (arith, v.evictable f);
      not_free = ground (arith, v.free f);
      not_evictable = ground (arith, v.replacer.apart);
      out = λ p h.
          ground (arith, find-erase (s.frames f).page_id p s.page_table, eqb_ℤ_refl p, v.table p f);
    },
  )

module _ (io : Io) where
  -- FindFreeFrame claims a frame that holds no page, or finds none; either way the pool is valid.
  -- It adds no page to the table, and leaves every pinned frame's page there.
  pub record Finds (s t : State io) : Type 0 where
    pub valid : IsValid t
    pub frames : t.frames ≡ s.frames
    pub size : t.pool_size ≡ s.pool_size
    pub table :
        (p : ℤ) (f : ℕ)
        → find p s.page_table ≡ some f
        → (find p t.page_table ≡ some f) ⊎ ((s.frames f).pin_count ≡ 0)
    pub absent : (p : ℤ) → find p s.page_table ≡ none → find p t.page_table ≡ none

  -- After an exception of its write, the victim is out of the replacer and still in the page table;
  -- nothing else of the pool has changed.
  abbrev pub LosesVictim : State io → State io → Type 0
  LosesVictim s t = t ≡ record s { replacer = (Lru.victim s.replacer).1; world = t.world }

  abbrev pub Found : State io → Claim × State io → Type 0
  Found s (no_frame, t) = Finds s t
  Found s (failed, t) = LosesVictim s t
  Found s (found f, t) = Finds s t × Claims t f

  drop_page-Found :
      (s : State io) (f : ℕ) (rest : List ℕ) (r' : Lru) (w : io.World)
      → IsValid s
      → s.replacer.lru_list ≡ f ∷ rest
      → Lru.victim s.replacer ≡ (some f, r')
      → r'.lru_list ≡ rest
      → r'.capacity ≡ s.replacer.capacity
      → (t : State io)
      → t ≡ record s {
        replacer = r';
        world = w;
        page_table = erase (s.frames f).page_id s.page_table;
      }
      → Finds s t × Claims t f
  unfolding elem
  drop_page-Found s f rest r' w v l e l' c t is =
      let (valid, claims) =
        drop_page-IsValid s f rest r' w v l l' c
          (rw e at (Validity.victim-IsValid s.replacer v.replacer)) t is in
      (
        record {
          valid = valid;
          frames = ap (λ (u : State io). u.frames) is;
          size = ap (λ (u : State io). u.pool_size) is;
          table = λ p g h. rw is (kept p g h);
          absent = λ p h. rw is (still p h);
        },
        claims,
      )
    where
      kept :
          (p : ℤ) (g : ℕ)
          → find p s.page_table ≡ some g
          → (find p (erase (s.frames f).page_id s.page_table) ≡ some g)
            ⊎ ((s.frames g).pin_count ≡ 0)
      kept p g h = ground (
        arith,
        find-erase (s.frames f).page_id p s.page_table,
        eqb_ℤ-eq p (s.frames f).page_id,
        v.evictable f,
        v.table p g h,
      )

      still :
          (p : ℤ)
          → find p s.page_table ≡ none
          → find p (erase (s.frames f).page_id s.page_table) ≡ none
      still p h = ground (arith, find-erase (s.frames f).page_id p s.page_table)

  unchanged-Finds : (s t : State io) → t ≡ s → IsValid s → Finds s t
  unchanged-Finds s t e v =
      rw e (record {
        valid = v;
        frames = refl;
        size = refl;
        table = λ p f h. inl h;
        absent = λ p h. h;
      })

  evict-Found :
      (s : State io) (f : ℕ) (rest : List ℕ) (r' : Lru)
      → IsValid s
      → s.replacer.lru_list ≡ f ∷ rest
      → Lru.victim s.replacer ≡ (some f, r')
      → r'.lru_list ≡ rest
      → r'.capacity ≡ s.replacer.capacity
      → Found s (evict io (record s { replacer = r' }) f)
  unfolding evict log_first
  evict-Found s f rest r' v l e l' c =
      elim (Bool-cases (
        (s.frames f).is_dirty
        && io.write_throws (log_first io s (s.frames f)) (s.frames f).page_id
            (s.frames f).contents)) [
              | inl k ↦ rw (k, e) refl
              | inr k ↦ rw k (drop_page-Found s f rest r' _ v l e l' c _ refl)
            ]

  reuse-Found : (s : State io) → IsValid s → Found s (reuse io s (Lru.victim s.replacer))
  unfolding reuse
  reuse-Found s v = elim (victim_cases s.replacer s.replacer.lru_list refl) [
    | inl (_, e) ↦ rw e (unchanged-Finds s _ refl v)
    | inr (f, rest, r', l, e, l', c) ↦
        subst (λ z. Found s (reuse io s z)) (sym e) (evict-Found s f rest r' v l e l' c)
  ]

  evict_unlogged-Found :
      (s : State io) (f : ℕ) (rest : List ℕ) (r' : Lru)
      → IsValid s
      → s.replacer.lru_list ≡ f ∷ rest
      → Lru.victim s.replacer ≡ (some f, r')
      → r'.lru_list ≡ rest
      → r'.capacity ≡ s.replacer.capacity
      → Found s (evict_unlogged io (record s { replacer = r' }) f)
  unfolding evict_unlogged
  evict_unlogged-Found s f rest r' v l e l' c =
      elim (Bool-cases (
        (s.frames f).is_dirty
        && io.write_throws s.world (s.frames f).page_id (s.frames f).contents)) [
          | inl k ↦ rw (k, e) refl
          | inr k ↦ rw k (drop_page-Found s f rest r' _ v l e l' c _ refl)
        ]

  reuse_unlogged-Found :
      (s : State io) → IsValid s → Found s (reuse_unlogged io s (Lru.victim s.replacer))
  unfolding reuse_unlogged
  reuse_unlogged-Found s v = elim (victim_cases s.replacer s.replacer.lru_list refl) [
    | inl (_, e) ↦ rw e (unchanged-Finds s _ refl v)
    | inr (f, rest, r', l, e, l', c) ↦
        subst (λ z. Found s (reuse_unlogged io s z)) (sym e)
          (evict_unlogged-Found s f rest r' v l e l' c)
  ]

  take_free-Found :
      (s : State io) (f : ℕ) (rest : List ℕ)
      → s.free_list ≡ f ∷ rest
      → IsValid s
      → Found s (found f, record s { free_list = rest })
  take_free-Found s f rest e v =
      let (valid, claims) = take_free-IsValid s f rest e v in
      (
        record {
          valid = valid;
          frames = refl;
          size = refl;
          table = λ p g h. inl h;
          absent = λ p h. h;
        },
        claims,
      )

  find_free_frame_free :
      (s : State io) (f : ℕ) (rest : List ℕ)
      → s.free_list ≡ f ∷ rest
      → find_free_frame io s ≡ (found f, record s { free_list = rest })
  unfolding find_free_frame
  find_free_frame_free s f rest e = ground arith

  find_free_frame_full :
      (s : State io) → s.free_list ≡ [] → find_free_frame io s ≡ reuse io s (Lru.victim s.replacer)
  unfolding find_free_frame
  find_free_frame_full s e = ground arith

  pub find_free_frame-Found : (s : State io) → IsValid s → Found s (find_free_frame io s)
  find_free_frame-Found s v = go s.free_list refl
    where
      go : (l : List ℕ) → s.free_list ≡ l → Found s (find_free_frame io s)
      go [] e = rw (find_free_frame_full s e) (reuse-Found s v)
      go (f ∷ rest) e = rw (find_free_frame_free s f rest e) (take_free-Found s f rest e v)

  new_page_frame_free :
      (s : State io) (f : ℕ) (rest : List ℕ)
      → s.free_list ≡ f ∷ rest
      → new_page_frame io s ≡ (found f, record s { free_list = rest })
  unfolding new_page_frame
  new_page_frame_free s f rest e = ground arith

  new_page_frame_full :
      (s : State io)
      → s.free_list ≡ []
      → new_page_frame io s ≡ reuse_unlogged io s (Lru.victim s.replacer)
  unfolding new_page_frame
  new_page_frame_full s e = ground arith

  pub new_page_frame-Found : (s : State io) → IsValid s → Found s (new_page_frame io s)
  new_page_frame-Found s v = go s.free_list refl
    where
      go : (l : List ℕ) → s.free_list ≡ l → Found s (new_page_frame io s)
      go [] e = rw (new_page_frame_full s e) (reuse_unlogged-Found s v)
      go (f ∷ rest) e = rw (new_page_frame_free s f rest e) (take_free-Found s f rest e v)
