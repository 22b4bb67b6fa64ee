-- ===== src/Storage/TablePage/Init.antt =====
-- Init of table_page.cpp, and the links between pages.
use franco_db.Prelude.{ℕ, ◌+◌, ◌-◌, ◌≤◌, ◌<◌, ℤ, ◌≡◌, ◌⊎◌, none, arith, ◌∙◌}
use franco_db.Storage.Memory.{
  Bytes, read_u32, write_u32, to_word, Int32, of_word-to_word, to_word-lt, read_u32_ext,
  read_u32-write_u32, write_u32-other,
}
use franco_db.Storage.TablePage.{
  TablePage, page_size, size_header, init, get_tuple, get_next_page_id, get_prev_page_id,
  get_free_space_remaining,
}
use franco_db.Storage.TablePage.Insert.{IsValid, count_lem, remaining_lem}

read_other :
    (m : Bytes) (o v p : ℕ)
    → (p + 4 ≤ o) ⊎ (o + 4 ≤ p)
    → read_u32 (write_u32 m o v) p ≡ read_u32 m p
read_other m o v p h =
    read_u32_ext m (write_u32 m o v) p (λ a l u. write_u32-other m o v a (apart a l u))
  where
    apart : (a : ℕ) → p ≤ a → a < p + 4 → (a < o) ⊎ (o + 4 ≤ a)
    apart a l u = ground arith

init_words :
    (p : TablePage) (id prev next : ℤ)
    → Int32 prev
    → Int32 next
    → let m = (init p id prev next).bytes in
      (read_u32 m 4 ≡ to_word prev)
      × (read_u32 m 8 ≡ to_word next)
      × (read_u32 m 12 ≡ page_size)
      × (read_u32 m 16 ≡ 0)
unfolding init
init_words p id prev next hp hn = (
  read_other _ 16 0 4 (omega arith)
      ∙ read_other _ 12 page_size 4 (omega arith)
      ∙ read_other _ 8 (to_word next) 4 (omega arith)
      ∙ read_u32-write_u32 _ 4 (to_word prev) (to_word-lt prev hp),
  read_other _ 16 0 8 (omega arith)
      ∙ read_other _ 12 page_size 8 (omega arith)
      ∙ read_u32-write_u32 _ 8 (to_word next) (to_word-lt next hn),
  read_other _ 16 0 12 (omega arith) ∙ read_u32-write_u32 _ 12 page_size (omega arith),
  read_u32-write_u32 _ 16 0 (omega arith),
)

-- A new page with 32-bit links is well formed, links to the two given pages, holds no row, and
-- has all its bytes behind the header free.
pub init-IsValid :
    (p : TablePage) (id prev next : ℤ)
    → Int32 prev
    → Int32 next
    → let q = init p id prev next in
      IsValid q.bytes
      × (get_prev_page_id q ≡ prev)
      × (get_next_page_id q ≡ next)
      × (get_free_space_remaining q.bytes ≡ page_size - size_header)
      × ((i : ℕ) → get_tuple q i ≡ none)
unfolding get_prev_page_id get_next_page_id
init-IsValid p id prev next hp hn = (
  valid,
  rw words.0 (of_word-to_word prev hp),
  rw words.1 (of_word-to_word next hn),
  omega (arith, remaining_lem (init p id prev next).bytes valid, words),
  λ i. unfold get_tuple in ground (arith, count_lem (init p id prev next).bytes valid, words),
)
  where
    words :
        let m = (init p id prev next).bytes in
        (read_u32 m 4 ≡ to_word prev)
        × (read_u32 m 8 ≡ to_word next)
        × (read_u32 m 12 ≡ page_size)
        × (read_u32 m 16 ≡ 0)
    words = init_words p id prev next hp hn

    valid : IsValid (init p id prev next).bytes
    valid = record {
      counted = omega (arith, words);
      pointed = omega (arith, words);
      room = omega (arith, words);
      rows = λ i h. absurd (omega (arith, words));
    }
