-- ===== src/Buffer/Pool/Cleaning.antt =====
-- FlushAllPages leaves no dirty page behind, but for page 0.
use franco_db.Prelude.{
  ℕ, ℤ, pos, eqb_ℤ, eqb_ℤ-eq, eqb_ℤ_ne, ◌≡◌, refl, ◌≢◌, true, false, ◌||◌, not, some, [], ◌∷◌,
  arith, inl, inr, Bool-cases,
}
use franco_db.Buffer.PageTable.{PageTable, find}
use franco_db.Buffer.Pool.{Io, State, stamped, flush_entry, flush_entries, flush_all_pages}
use franco_db.Buffer.Pool.Invariant.{IsValid}
use franco_db.Buffer.Pool.Unpins.{touch-IsValid, world-IsValid}

module _ (io : Io) where
  flush_entry-clean :
      (s : State io) (p : ℤ) (f g : ℕ)
      → (s.frames g).is_dirty ≡ false
      → ((flush_entry io s p f).frames g).is_dirty ≡ false
  unfolding flush_entry
  flush_entry-clean s p f g h = ground arith

  flush_entry_cleans :
      (s : State io) (p : ℤ) (f : ℕ)
      → eqb_ℤ p (pos 0) ≡ false
      → ((flush_entry io s p f).frames f).is_dirty ≡ false
  unfolding flush_entry
  flush_entry_cleans s p f h = ground arith

  flush_entries-clean :
      (t : PageTable) (s : State io) (g : ℕ)
      → (s.frames g).is_dirty ≡ false
      → ((flush_entries io t s).frames g).is_dirty ≡ false
  unfolding flush_entries
  flush_entries-clean [] s g h = h
  flush_entries-clean ((p, f) ∷ t) s g h =
      flush_entries-clean t (flush_entry io s p f) g (flush_entry-clean s p f g h)

  flush_entries_clean_found :
      (t : PageTable) (s : State io) (p : ℤ) (f : ℕ)
      → find p t ≡ some f
      → eqb_ℤ p (pos 0) ≡ false
      → ((flush_entries io t s).frames f).is_dirty ≡ false
  unfolding flush_entries find
  flush_entries_clean_found [] s p f h k = absurd (cc)
  flush_entries_clean_found ((q, g) ∷ t) s p f h k = elim (Bool-cases (eqb_ℤ p q)) [
    | inl e ↦ flush_entries-clean t (flush_entry io s q g) f (here e)
    | inr e ↦ flush_entries_clean_found t (flush_entry io s q g) p f (ground arith) k
  ]
    where
      here : eqb_ℤ p q ≡ true → ((flush_entry io s q g).frames f).is_dirty ≡ false
      here e = ground (arith, eqb_ℤ-eq p q e, flush_entry_cleans s q g)

  flush_entry-IsValid : (s : State io) (p : ℤ) (f : ℕ) → IsValid s → IsValid (flush_entry io s p f)
  unfolding flush_entry
  flush_entry-IsValid s p f v = elim (Bool-cases (eqb_ℤ p (pos 0) || not (s.frames f).is_dirty)) [
    | inl e ↦ rw e v
    | inr e ↦ rw e (touch-IsValid s f (stamped io s p f) _ v refl refl)
  ]

  flush_entries-IsValid :
      (t : PageTable) (s : State io) → IsValid s → IsValid (flush_entries io t s)
  unfolding flush_entries
  flush_entries-IsValid [] s v = v
  flush_entries-IsValid ((p, f) ∷ t) s v =
      flush_entries-IsValid t (flush_entry io s p f) (flush_entry-IsValid s p f v)

  -- After FlushAllPages a valid pool is valid, and every page in it but page 0 is clean.
  pub flush_all_pages-clean :
      (s : State io)
      → IsValid s
      → IsValid (flush_all_pages io s)
        × ((p : ℤ) (f : ℕ)
            → find p s.page_table ≡ some f
            → p ≢ pos 0
            → ((flush_all_pages io s).frames f).is_dirty ≡ false)
  unfolding flush_all_pages
  flush_all_pages-clean s v = (
    flush_entries-IsValid s.page_table _ (world-IsValid s _ v),
    λ p f h k. flush_entries_clean_found s.page_table _ p f h (eqb_ℤ_ne p (pos 0) k),
  )
