-- ===== src/Buffer/Pool/Faults.antt =====
-- Two faults of buffer_pool_manager.cpp: DeletePage leaves the frame in the replacer, and NewPage
-- evicts without the log.
use franco_db.Prelude.{ℕ, ℤ, pos, ◌≡◌, true, false, some, List, [], ◌∷◌, ◌++◌, arith, elem, ◌∙◌, ap}
use franco_db.Buffer.Lru
use franco_db.Buffer.Lru.{Lru}
use franco_db.Buffer.PageTable.{find}
use franco_db.Buffer.Pool.{
  Io, State, page, fresh, pinned, delete_page, new_page_frame, place_new, allocate_into,
  allocate_if, new_page, evict_unlogged, reuse_unlogged,
}
use franco_db.Buffer.Pool.Invariant.{IsValid}

module _ (io : Io) where
  -- A deleted page's frame is free, and the replacer may still choose it as a victim.
  delete_page_leaves :
      (s : State io) (p : ℤ) (f : ℕ)
      → IsValid s
      → find p s.page_table ≡ some f
      → (s.frames f).pin_count ≡ 0
      → ((delete_page io s p).1.free_list ≡ s.free_list ++ f ∷ [])
        × ((delete_page io s p).1.replacer ≡ s.replacer)
        × ((delete_page io s p).1.world ≡ s.world)
        × (elem f s.replacer.lru_list ≡ true)
  unfolding delete_page
  delete_page_leaves s p f v h k = (ground arith, ground arith, ground arith, v.idle p f h k)

  new_page_from_free :
      (s : State io) (f : ℕ) (d : io.Data)
      → s.free_list ≡ f ∷ []
      → io.read_page s.world (pos 2) ≡ some d
      → io.write_throws s.world (pos 2) (io.allocate_page d (io.num_pages s.world)).1 ≡ false
      → ((new_page io s).0 ≡ page f)
        × (((new_page io s).1.frames f).pin_count ≡ 1)
        × ((new_page io s).1.replacer ≡ s.replacer)
  unfolding new_page new_page_frame allocate_if allocate_into place_new fresh pinned
  new_page_from_free s f d e r k = (ground arith, ground arith, ground arith)

  -- In a valid pool with no free frame, DeletePage of an unpinned page and then NewPage, if the
  -- bitmap page can be read and written, return a frame that is pinned and yet stands in the
  -- replacer: a later search may evict a page in use.
  pub new_page-delete_page :
      (s : State io) (p : ℤ) (f : ℕ) (d : io.Data)
      → IsValid s
      → s.free_list ≡ []
      → find p s.page_table ≡ some f
      → (s.frames f).pin_count ≡ 0
      → io.read_page s.world (pos 2) ≡ some d
      → io.write_throws s.world (pos 2) (io.allocate_page d (io.num_pages s.world)).1 ≡ false
      → let t = new_page io (delete_page io s p).1 in
        (t.0 ≡ page f) × ((t.1.frames f).pin_count ≡ 1) × (elem f t.1.replacer.lru_list ≡ true)
  new_page-delete_page s p f d v none_free h k r c =
      let (free, same, world, listed) = delete_page_leaves s p f v h k in
      let (got, pins, kept) =
        new_page_from_free (delete_page io s p).1 f d (free ∙ ap (λ l. l ++ f ∷ []) none_free)
          (rw world r) (rw world c) in
      (got, pins, ap (λ (l : Lru). elem f l.lru_list) (kept ∙ same) ∙ listed)

  -- With a log manager, no free frame, a dirty page in the frame that the replacer lists first,
  -- that can be written, and a bitmap page that can be read, NewPage writes that dirty page and then the bitmap, and
  -- does not flush the log before.
  pub new_page_unlogged :
      (s : State io) (f : ℕ) (rest : List ℕ) (d : io.Data)
      → s.has_log ≡ true
      → s.free_list ≡ []
      → s.replacer.lru_list ≡ f ∷ rest
      → (s.frames f).is_dirty ≡ true
      → io.read_page (io.write_page s.world (s.frames f).page_id (s.frames f).contents) (pos 2)
        ≡ some d
      → io.write_throws s.world (s.frames f).page_id (s.frames f).contents ≡ false
      → let w = io.write_page s.world (s.frames f).page_id (s.frames f).contents in
        (new_page io s).1.world ≡ io.write_page w (pos 2) (io.allocate_page d (io.num_pages w)).1
  unfolding new_page new_page_frame reuse_unlogged evict_unlogged allocate_if allocate_into
      place_new Lru.victim
  new_page_unlogged s f rest d log none_free l dirty r k = ground arith
