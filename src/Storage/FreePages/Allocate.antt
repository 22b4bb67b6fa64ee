-- ===== src/Storage/FreePages/Allocate.antt =====
-- AllocatePage of free_page_manager.h finds the first free page, and marks it alone.
use franco_db.Prelude.{
  ℕ, zero, suc, ◌+◌, ◌*◌, ◌/◌, ◌%◌, ◌≤◌, ◌<◌, ◌≡◌, refl, ◌≢◌, Bool, true, false, Option, none, some,
  arith, ltb, ◌==◌, if◌then◌else◌, Bool-cases, Option-cases, inl, inr, ap,
}
use franco_db.Storage.Memory.{Bytes}
use franco_db.Storage.FreePages.{
  bitmap_size, bit, used, scan_bits, scan_bytes, mark_used, allocate_page, deallocate_page,
}
use franco_db.Storage.FreePages.Bits.{
  IsBytes, bit-full, used-mark_used, used-deallocate_page, mark_used-IsBytes,
  deallocate_page-IsBytes,
}

-- Where a scan of `[lo, hi)` stopped: at the first index that fails the test, or not at all.
abbrev pub Stops : (ℕ → Bool) → ℕ → ℕ → Option ℕ → Type 0
Stops test lo hi none = (k : ℕ) → lo ≤ k → k < hi → test k ≡ true
Stops test lo hi (some c) =
    (lo ≤ c) × (c < hi) × (test c ≡ false) × ((k : ℕ) → lo ≤ k → k < c → test k ≡ true)

-- One more index that passes the test stands before.
Stops-before :
    (test : ℕ → Bool) (lo mid hi : ℕ) (r : Option ℕ)
    → lo ≤ mid
    → ((k : ℕ) → lo ≤ k → k < mid → test k ≡ true)
    → Stops test mid hi r
    → Stops test lo hi r
Stops-before test lo mid hi none l before s = λ k p q. elim (Bool-cases (ltb k mid)) [
  | inl e ↦ before k p (ground arith)
  | inr e ↦ s k (ground arith) q
]
Stops-before test lo mid hi (some c) l before (p, q, e, s) = (
  omega arith,
  q,
  e,
  λ k h u. elim (Bool-cases (ltb k mid)) [
    | inl t ↦ before k h (ground arith)
    | inr t ↦ s k (ground arith) u
  ],
)

scan_bits-Stops : (n x b hi : ℕ) → b + n ≡ hi → Stops (bit x) b hi (scan_bits n x b)
unfolding scan_bits
scan_bits-Stops zero x b hi e = λ k p q. absurd (omega arith)
scan_bits-Stops (suc n) x b hi e = elim (Bool-cases (bit x b)) [
  | inl t ↦ rw t (
      Stops-before (bit x) b (b + 1) hi _ (omega arith) (λ k p q. only t k (omega arith))
        (scan_bits-Stops n x (b + 1) hi (omega arith)))
  | inr t ↦ rw t (omega arith, omega arith, t, λ k p q. absurd (omega arith))
]
  where
    only : bit x b ≡ true → (k : ℕ) → k ≡ b → bit x k ≡ true
    only t k q = rw q t

module _ (m : Bytes) (bytes : IsBytes m) where
  byte-used :
      (i : ℕ) → Stops (bit (m i)) 0 8 none → (k : ℕ) → i * 8 ≤ k → k < (i + 1) * 8 → used m k ≡ true
  unfolding used
  byte-used i s k p q =
      let e : k / 8 ≡ i = omega arith in rw e (s (k % 8) (omega arith) (omega arith))

  byte-found :
      (i b hi : ℕ)
      → i * 8 + 8 ≤ hi
      → Stops (bit (m i)) 0 8 (some b)
      → Stops (used m) (i * 8) hi (some (i * 8 + b))
  unfolding used
  byte-found i b hi h (p, q, e, s) =
      let d : (i * 8 + b) / 8 ≡ i = omega arith in
      let r : (i * 8 + b) % 8 ≡ b = omega arith in
      (
        omega arith,
        omega arith,
        rw (d, r) e,
        λ k l u. let g : k / 8 ≡ i = omega arith in rw g (s (k % 8) (omega arith) (omega arith)),
      )

  scan_bytes-Stops : (n i hi : ℕ) → (i + n) * 8 ≡ hi → Stops (used m) (i * 8) hi (scan_bytes n m i)
  unfolding scan_bytes
  scan_bytes-Stops zero i hi e = λ k p q. absurd (omega arith)
  scan_bytes-Stops (suc n) i hi e =
      let rest = scan_bytes-Stops n (i + 1) hi (omega arith) in
      let scanned = scan_bits-Stops 8 (m i) 0 8 refl in
      elim (Bool-cases (m i == 255)) [
        | inl full ↦ rw full (
            Stops-before (used m) (i * 8) ((i + 1) * 8) hi _ (omega arith)
              (byte-used i (λ k p q. bit-full (m i) k (bytes i) q (ground arith))) rest)
        | inr open_bits ↦ rw open_bits (elim (Option-cases (scan_bits 8 (m i) 0)) [
          | inl s ↦ rw s (
              Stops-before (used m) (i * 8) ((i + 1) * 8) hi _ (omega arith)
                (byte-used i (rw s at scanned)) rest)
          | inr (b, s) ↦ rw s (byte-found i b hi (omega arith) (rw s at scanned))
        ])
      ]

  found :
      (size k : ℕ)
      → k < bitmap_size * 8
      → used m k ≡ false
      → (id : ℕ) × (allocate_page m size ≡ (id, mark_used m id))
        × Stops (used m) 0 (bitmap_size * 8) (some id)
  unfolding allocate_page
  found size k h free = elim (Option-cases (scan_bytes bitmap_size m 0)) [
    | inl e ↦ absurd (clash (rw e at (scan_bytes-Stops bitmap_size 0 (bitmap_size * 8) refl)))
    | inr (id, e) ↦
        (id, rw (e, allocate_page), rw e at (scan_bytes-Stops bitmap_size 0 (bitmap_size * 8) refl))
  ]
    where
      clash : Stops (used m) 0 (bitmap_size * 8) none → ⊥
      clash s = ground (arith, s k (omega arith) h)

-- While some page of the bitmap is free, AllocatePage returns the first free page, marks it as
-- used, and leaves the mark of every other page as it was.
pub allocate_page_first :
    (m : Bytes) (size k : ℕ)
    → IsBytes m
    → k < bitmap_size * 8
    → used m k ≡ false
    → let (id, m') = allocate_page m size in
      (id ≤ k)
      × (used m id ≡ false)
      × ((j : ℕ) → j < id → used m j ≡ true)
      × ((j : ℕ) → used m' j ≡ (if j == id then true else used m j))
      × IsBytes m'
allocate_page_first m size k bytes h free =
    let (id, e, stops) = found m bytes size k h free in
    let low : id ≤ k = first id stops in
    rw e (
      low,
      stops.2,
      λ j q. stops.3 j (omega arith) q,
      λ j. used-mark_used m id j bytes,
      mark_used-IsBytes m id bytes,
    )
  where
    first : (id : ℕ) → Stops (used m) 0 (bitmap_size * 8) (some id) → id ≤ k
    first id s = elim (Bool-cases (ltb k id)) [
      | inl t ↦ absurd (ground (arith, s.3 k (omega arith) (ground arith)))
      | inr t ↦ ground arith
    ]

-- With every page of the bitmap in use, AllocatePage returns the size of the file and marks
-- nothing, so that the next call with the same size returns the same page again.
pub allocate_page_full :
    (m : Bytes) (size : ℕ)
    → IsBytes m
    → ((k : ℕ) → k < bitmap_size * 8 → used m k ≡ true)
    → (allocate_page m size ≡ (size, m))
      × ((allocate_page (allocate_page m size).1 size).0 ≡ (allocate_page m size).0)
unfolding allocate_page
allocate_page_full m size bytes all = elim (Option-cases (scan_bytes bitmap_size m 0)) [
  | inl e ↦ rw (e, allocate_page) (rw e (refl, refl))
  | inr (id, e) ↦
      absurd (clash id (rw e at (scan_bytes-Stops m bytes bitmap_size 0 (bitmap_size * 8) refl)))
]
  where
    clash : (id : ℕ) → Stops (used m) 0 (bitmap_size * 8) (some id) → ⊥
    clash id s = ground (arith, all id s.1)

-- Two calls of AllocatePage in a row return different pages, if the bitmap has a free page for
-- each.
pub allocate_page_twice :
    (m : Bytes) (size size' k k' : ℕ)
    → IsBytes m
    → k < bitmap_size * 8
    → used m k ≡ false
    → k' < bitmap_size * 8
    → used (allocate_page m size).1 k' ≡ false
    → (allocate_page (allocate_page m size).1 size').0 ≢ (allocate_page m size).0
allocate_page_twice m size size' k k' bytes h free h' free' e =
    let one = allocate_page_first m size k bytes h free in
    let two = allocate_page_first (allocate_page m size).1 size' k' one.4 h' free' in
    ground (arith, one.3 (allocate_page m size).0, two.1, ap (used (allocate_page m size).1) e)

-- A page of the bitmap that was freed is the next one to be allocated, if every page before it is
-- in use.
pub allocate_page-deallocate_page :
    (m : Bytes) (size k : ℕ)
    → IsBytes m
    → k < bitmap_size * 8
    → ((j : ℕ) → j < k → used m j ≡ true)
    → (allocate_page (deallocate_page m k) size).0 ≡ k
allocate_page-deallocate_page m size k bytes h before =
    let bytes' = deallocate_page-IsBytes m k bytes in
    let gone : used (deallocate_page m k) k ≡ false =
      ground (arith, used-deallocate_page m k k bytes) in
    let one = allocate_page_first (deallocate_page m k) size k bytes' h gone in
    ground (
      arith,
      one.0,
      one.1,
      before (allocate_page (deallocate_page m k) size).0,
      used-deallocate_page m k (allocate_page (deallocate_page m k) size).0 bytes,
    )
