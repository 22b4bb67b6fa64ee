-- ===== src/Buffer/Tests.antt =====
-- The replacers and the pool of src/buffer on small inputs.
use franco_db.Prelude.{
  inl, inr, ℕ, zero, suc, ◌+◌, ℤ, pos, ◌≡◌, refl, true, false, ◌||◌, ◌==◌, some, List, [], ◌∷◌,
  arith, elem, eqb_ℤ, ◌≢◌,
}
use franco_db.Buffer.Lru
use franco_db.Buffer.Lru.Order.{Call, pins, unpins, run, waiting, run-waiting}
use franco_db.Buffer.Clock
use franco_db.Buffer.Clock.{Clock, FrameInfo}
use franco_db.Buffer.Clock.Progress.{victim-some, GivesUp}
use franco_db.Buffer.PageTable.{find, insert, erase}
use franco_db.Buffer.Pool.{
  Io, page, thrown, State, init, fetch_page, new_page, unpin_page, delete_page, flush_all_pages,
  count_up, fresh, fetch_miss, find_free_frame, reuse, evict, load_into, load, pinned, release_pin,
  marked,
}
use franco_db.Buffer.Pool.Invariant.{IsValid}
use franco_db.Buffer.Pool.Start.{init_pool-IsValid}
use franco_db.Buffer.Pool.Pins.{fetch_page-Keeps}
use franco_db.Buffer.Pool.Unpins.{unpin_page-Stays, unpin_page_last}
use franco_db.Buffer.Pool.Writes.{WritesAhead, fetch_page-WritesAhead}
use franco_db.Buffer.Pool.Cleaning.{flush_all_pages-clean}
use franco_db.Buffer.Pool.Faults.{new_page-delete_page}

abbrev calls : List Call
calls = unpins 2 ∷ unpins 0 ∷ pins 2 ∷ unpins 1 ∷ []

run-waiting_example : (run calls (Lru.init 3)).lru_list ≡ waiting calls
run-waiting_example = run-waiting 3 calls (omega arith)

-- Frame 0 was used, frame 1 only held.
abbrev used_and_held : ℕ → FrameInfo
used_and_held zero = record { is_valid = true; ref_bit = true }
used_and_held (suc zero) = record { is_valid = true; ref_bit = false }
used_and_held (suc (suc _)) = record { is_valid = false; ref_bit = false }

abbrev clock : Clock
clock = record { capacity = 3; clock_hand = 0; frames = used_and_held }

victim-some_example :
    (f : ℕ) × ((Clock.victim clock).0 ≡ some f) × GivesUp clock (Clock.victim clock).1 f
victim-some_example = victim-some clock 1 (omega arith) (omega arith) refl

-- Frame 1 alone is held, and was used.
abbrev one_used : ℕ → FrameInfo
one_used zero = record { is_valid = false; ref_bit = false }
one_used (suc zero) = record { is_valid = true; ref_bit = true }
one_used (suc (suc _)) = record { is_valid = false; ref_bit = false }

abbrev one_clock : Clock
one_clock = record { capacity = 2; clock_hand = 0; frames = one_used }

-- A disk that answers every read with the number of writes so far, and an allocator that hands out
-- page ids from 3 on by the bitmap's count.
abbrev disk : Io
disk = record {
  Data = ℕ;
  World = List ℕ;
  zeroed = 0;
  read_page = λ w p. some 7;
  write_page = λ w p d. d ∷ w;
  write_throws = λ w p d. false;
  num_pages = λ w. pos 3;
  update_checksum = λ d p. d;
  allocate_page = λ d n. (pos (d + 3), d + 1);
  flush_to_lsn = λ w l. w;
  flush_log = λ w. w;
}

abbrev empty_pool : State disk
empty_pool = init disk 1 [] true

empty_pool-IsValid : IsValid empty_pool
empty_pool-IsValid = (init_pool-IsValid disk 1 [] true empty_pool).0

-- Page 5, pinned, and then unpinned and dirty.
abbrev pinned_page : State disk
pinned_page = (fetch_page disk empty_pool (pos 5)).1

pinned_page-IsValid : IsValid pinned_page
unfolding init count_up fresh fetch_page fetch_miss find_free_frame load_into load pinned insert
    find eqb_ℤ
pinned_page-IsValid = elim (fetch_page-Keeps disk empty_pool (pos 5) empty_pool-IsValid) [
  | inl k ↦ k.valid
  | inr (e, _) ↦ absurd (returned e)
]
  where
    returned : page 0 ≡ thrown → ⊥
    returned e = ground arith

abbrev dirty_page : State disk
dirty_page = (unpin_page disk pinned_page (pos 5) true).1

unpin_page_last_example :
    ((unpin_page disk pinned_page (pos 5) true).0 ≡ true)
    × ((dirty_page.frames 0).pin_count + 1 ≡ (pinned_page.frames 0).pin_count)
    × ((dirty_page.frames 0).is_dirty ≡ (true || (pinned_page.frames 0).is_dirty))
    × (elem 0 dirty_page.replacer.lru_list ≡ ((pinned_page.frames 0).pin_count == 1))
unfolding find init count_up fresh fetch_page fetch_miss find_free_frame load_into load pinned
    insert erase eqb_ℤ
unpin_page_last_example =
    unpin_page_last disk pinned_page (pos 5) 0 true pinned_page-IsValid refl (omega arith)

dirty_page-IsValid : IsValid dirty_page
dirty_page-IsValid = (unpin_page-Stays disk pinned_page (pos 5) true pinned_page-IsValid).valid

fetch_page-WritesAhead_example :
    WritesAhead disk dirty_page.frames dirty_page.world (fetch_page disk dirty_page (pos 6)).1.world
unfolding init count_up fresh fetch_page fetch_miss find_free_frame load_into load pinned insert
    erase unpin_page release_pin marked find eqb_ℤ
fetch_page-WritesAhead_example = fetch_page-WritesAhead disk dirty_page (pos 6) refl

flush_all_pages-clean_example :
    IsValid (flush_all_pages disk dirty_page)
    × ((p : ℤ) (f : ℕ)
        → find p dirty_page.page_table ≡ some f
        → p ≢ pos 0
        → ((flush_all_pages disk dirty_page).frames f).is_dirty ≡ false)
flush_all_pages-clean_example = flush_all_pages-clean disk dirty_page dirty_page-IsValid

new_page-delete_page_example :
    let t = new_page disk (delete_page disk dirty_page (pos 5)).1 in
    (t.0 ≡ page 0) × ((t.1.frames 0).pin_count ≡ 1) × (elem 0 t.1.replacer.lru_list ≡ true)
unfolding init count_up fresh fetch_page fetch_miss find_free_frame load_into load pinned insert
    erase unpin_page release_pin marked find eqb_ℤ
new_page-delete_page_example =
    new_page-delete_page disk dirty_page (pos 5) 0 7 dirty_page-IsValid refl refl refl refl refl

-- A disk on which no page can be written.
abbrev full_disk : Io
full_disk = record disk { write_throws = λ w p d. true }

-- The write of the dirty page 5 throws, and the page stays in its frame and is no victim any more.
fetch_page_throws :
    let r = fetch_page full_disk dirty_page (pos 6) in
    (r.0 ≡ thrown) × (find (pos 5) r.1.page_table ≡ some 0) × (r.1.replacer.lru_list ≡ [])
unfolding init count_up fresh fetch_page fetch_miss find_free_frame load_into load pinned insert
    erase unpin_page release_pin marked find eqb_ℤ reuse evict Lru.victim Lru.unpin Lru.pin Lru.init
    elem
fetch_page_throws = (refl, refl, refl)
