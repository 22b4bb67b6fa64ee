-- ===== src/Buffer/Pool.antt =====
-- src/buffer/buffer_pool_manager.cpp, src/include/storage/page/page.h: the pool of frames. Every
-- method takes the latch first and keeps it, so a method is one step. The array `pages_` is a
-- function of which only the indices below `pool_size` are used; a `Page *` is the frame's index.
use franco_db.Prelude.{
  ℕ, zero, suc, ◌+◌, ◌-◌, ℤ, pos, invalid, is_negative, eqb_ℤ, Bool, true, false, not, ◌&&◌, ◌||◌,
  Option, none, some, List, [], ◌∷◌, ◌++◌, leb, ◌==◌, if◌then◌else◌,
}
use franco_db.Buffer.Lru
use franco_db.Buffer.Lru.{Lru}
use franco_db.Buffer.PageTable.{PageTable, find, insert, erase}
pub mod Invariant
pub mod Start
pub mod Frames
pub mod Pins
pub mod Unpins
pub mod Writes
pub mod Cleaning
pub mod Faults

-- What the pool calls: the disk manager, the log manager and the page allocator. `World` is the
-- state of the database file and the log together, so that the order of writes shows.
pub record Io : Type 1 where
  pub Data : Type 0
  pub World : Type 0
  pub zeroed : Data
  -- `none` is a ReadPage that throws.
  pub read_page : World → ℤ → Option Data
  -- What a WritePage leaves, and whether it throws.
  pub write_page : World → ℤ → Data → World
  pub write_throws : World → ℤ → Data → Bool
  pub num_pages : World → ℤ
  pub update_checksum : Data → ℤ → Data
  pub allocate_page : Data → ℤ → ℤ × Data
  pub flush_to_lsn : World → ℤ → World
  pub flush_log : World → World

pub data Outcome : Type 0 where
  page : ℕ → Outcome
  null thrown : Outcome

-- What a search for a frame ends with; `failed` is an exception of the write of the victim.
pub data Claim : Type 0 where
  found : ℕ → Claim
  no_frame failed : Claim

pub record Frame (Data : Type 0) : Type 0 where
  pub page_id : ℤ
  pub contents : Data
  pub pin_count : ℕ
  pub is_dirty : Bool
  pub page_lsn : ℤ

pub record Pool (Data World : Type 0) : Type 0 where
  pub pool_size : ℕ
  pub frames : ℕ → Frame Data
  pub page_table : PageTable
  pub free_list : List ℕ
  pub replacer : Lru
  pub world : World
  pub has_log : Bool

module _ {Data : Type 0} where
  -- `pages_[i] = e`
  abbrev pub store : (ℕ → Frame Data) → ℕ → Frame Data → ℕ → Frame Data
  store frames i e j = if j == i then e else frames j

  -- Page::Init
  unfoldable pub fresh : Data → ℤ → Frame Data
  fresh zeroed p = record {
    page_id = p;
    contents = zeroed;
    pin_count = 0;
    is_dirty = false;
    page_lsn = invalid;
  }

  -- Page::IncrementPinCount
  unfoldable pub pinned : Frame Data → Frame Data
  pinned e = record e { pin_count = e.pin_count + 1 }

-- 0, 1, ..., n - 1
unfoldable pub count_up : ℕ → ℕ → List ℕ
count_up i zero = []
count_up i (suc n) = i ∷ count_up (i + 1) n

module _ (io : Io) where
  open io use {Data, World}

  abbrev pub State : Type 0
  State = Pool Data World

  unfoldable pub init : ℕ → World → Bool → State
  unfolding count_up fresh
  init size world log = record {
    pool_size = size;
    frames = λ i. fresh io.zeroed invalid;
    page_table = [];
    free_list = count_up 0 size;
    replacer = Lru.init size;
    world = world;
    has_log = log;
  }

  -- SetLogManager, with a log manager or a null pointer.
  unfoldable pub set_log_manager : State → Bool → State
  set_log_manager s log = record s { has_log = log }

  -- The log reaches the page's LSN before the page is written.
  unfoldable pub log_first : State → Frame Data → World
  log_first s e =
      if s.has_log && not (eqb_ℤ e.page_lsn invalid)
      then io.flush_to_lsn s.world e.page_lsn
      else s.world

  unfoldable pub evict : State → ℕ → Claim × State
  evict s f =
      let e = s.frames f in
      let w = if e.is_dirty then io.write_page (log_first s e) e.page_id e.contents else s.world in
      if e.is_dirty && io.write_throws (log_first s e) e.page_id e.contents
      then (failed, record s { world = w })
      else (found f, record s { world = w; page_table = erase e.page_id s.page_table })

  unfoldable pub reuse : State → Option ℕ × Lru → Claim × State
  reuse s (some f, r) = evict (record s { replacer = r }) f
  reuse s (none, r) = (no_frame, record s { replacer = r })

  unfoldable pub find_free_frame : State → Claim × State
  find_free_frame s = elim s.free_list [
    | f ∷ rest ↦ (found f, record s { free_list = rest })
    | [] ↦ reuse s (Lru.victim s.replacer)
  ]

  -- FetchPage once a frame is found.
  unfoldable pub load : State → ℤ → ℕ → Outcome × State
  load s p f = elim (io.read_page s.world p) [
    | none ↦ (
      null,
      record s {
        frames = store s.frames f (fresh io.zeroed invalid);
        free_list = s.free_list ++ f ∷ [];
      },
    )
    | some d ↦ (
      page f,
      record s {
        frames = store s.frames f (pinned (record (fresh io.zeroed p) { contents = d }));
        page_table = insert p f s.page_table;
        replacer = Lru.pin s.replacer f;
      },
    )
  ]

  unfoldable pub load_into : ℤ → Claim × State → Outcome × State
  load_into p (no_frame, s) = (null, s)
  load_into p (failed, s) = (thrown, s)
  load_into p (found f, s) = load s p f

  unfoldable pub fetch_miss : State → ℤ → Outcome × State
  fetch_miss s p = load_into p (find_free_frame s)

  unfoldable pub fetch_hit : State → ℕ → Outcome × State
  fetch_hit s f = if leb s.pool_size f then (null, s) else (
    page f,
    record s { frames = store s.frames f (pinned (s.frames f)); replacer = Lru.pin s.replacer f },
  )

  unfoldable pub fetch_page : State → ℤ → Outcome × State
  fetch_page s p =
      if is_negative p
      then (null, s)
      else elim (find p s.page_table) [ none ↦ fetch_miss s p | some f ↦ fetch_hit s f ]

  -- NewPage writes a dirty victim without asking the log manager.
  unfoldable pub evict_unlogged : State → ℕ → Claim × State
  evict_unlogged s f =
      let e = s.frames f in
      let w = if e.is_dirty then io.write_page s.world e.page_id e.contents else s.world in
      if e.is_dirty && io.write_throws s.world e.page_id e.contents
      then (failed, record s { world = w })
      else (found f, record s { world = w; page_table = erase e.page_id s.page_table })

  unfoldable pub reuse_unlogged : State → Option ℕ × Lru → Claim × State
  reuse_unlogged s (some f, r) = evict_unlogged (record s { replacer = r }) f
  reuse_unlogged s (none, r) = (no_frame, record s { replacer = r })

  unfoldable pub new_page_frame : State → Claim × State
  new_page_frame s = elim s.free_list [
    | f ∷ rest ↦ (found f, record s { free_list = rest })
    | [] ↦ reuse_unlogged s (Lru.victim s.replacer)
  ]

  -- The new page is pinned in its frame; the replacer is not told.
  unfoldable pub place_new : State → ℕ → ℤ × Data → Outcome × State
  place_new s f (p, bitmap) =
      let w = io.write_page s.world (pos 2) bitmap in
      if io.write_throws s.world (pos 2) bitmap then (thrown, record s { world = w }) else (
        page f,
        record s {
          world = w;
          frames = store s.frames f (pinned (fresh io.zeroed p));
          page_table = insert p f s.page_table;
        },
      )

  unfoldable pub allocate_into : State → ℕ → Outcome × State
  allocate_into s f = elim (io.read_page s.world (pos 2)) [
    | none ↦ (thrown, s)
    | some bitmap ↦ place_new s f (io.allocate_page bitmap (io.num_pages s.world))
  ]

  unfoldable pub allocate_if : Claim × State → Outcome × State
  allocate_if (no_frame, s) = (null, s)
  allocate_if (failed, s) = (thrown, s)
  allocate_if (found f, s) = allocate_into s f

  unfoldable pub new_page : State → Outcome × State
  new_page s = allocate_if (new_page_frame s)

  -- UnpinPage behind its lookup; `e` is the frame with its dirty bit set as asked.
  unfoldable pub release_pin : State → ℕ → Frame Data → Bool × State
  release_pin s f e =
      if e.pin_count == 0 then (false, record s { frames = store s.frames f e }) else (
        true,
        record s {
          frames = store s.frames f (record e { pin_count = e.pin_count - 1 });
          replacer = if e.pin_count - 1 == 0 then Lru.unpin s.replacer f else s.replacer;
        },
      )

  unfoldable pub marked : Frame Data → Bool → Frame Data
  marked e dirty = if dirty then record e { is_dirty = true } else e

  unfoldable pub unpin_page : State → ℤ → Bool → Bool × State
  unpin_page s p dirty = elim (find p s.page_table) [
    | none ↦ (false, s)
    | some f ↦ release_pin s f (marked (s.frames f) dirty)
  ]

  abbrev pub stamped : State → ℤ → ℕ → Frame Data
  stamped s p f = record (s.frames f) {
    contents = io.update_checksum (s.frames f).contents p;
    is_dirty = false;
  }

  -- FlushPage and FlushAllPages are the runs in which no WritePage throws.
  unfoldable pub flush_page : State → ℤ → Bool × State
  flush_page s p = if eqb_ℤ p (pos 0) then (false, s) else elim (find p s.page_table) [
    | none ↦ (false, s)
    | some f ↦ (
      true,
      record s {
        world = io.write_page (log_first s (s.frames f)) p (stamped s p f).contents;
        frames = store s.frames f (stamped s p f);
      },
    )
  ]

  unfoldable pub delete_page : State → ℤ → Bool × State
  delete_page s p = elim (find p s.page_table) [
    | none ↦ (true, s)
    | some f ↦
        if (s.frames f).pin_count == 0
        then (
          true,
          record s {
            page_table = erase p s.page_table;
            frames = store s.frames f (fresh io.zeroed invalid);
            free_list = s.free_list ++ f ∷ [];
          },
        )
        else (false, s)
  ]

  unfoldable pub flush_entry : State → ℤ → ℕ → State
  flush_entry s p f = if eqb_ℤ p (pos 0) || not (s.frames f).is_dirty then s else record s {
    world = io.write_page s.world p (stamped s p f).contents;
    frames = store s.frames f (stamped s p f);
  }

  unfoldable pub flush_entries : PageTable → State → State
  flush_entries [] s = s
  flush_entries ((p, f) ∷ t) s = flush_entries t (flush_entry s p f)

  unfoldable pub flush_all_pages : State → State
  flush_all_pages s =
      flush_entries s.page_table
        (record s { world = if s.has_log then io.flush_log s.world else s.world })

  -- Every frame is reset, those beyond the pool (which do not exist) too.
  unfoldable pub clear : State → State
  clear s = init s.pool_size s.world s.has_log
