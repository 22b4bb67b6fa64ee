-- ===== src/Storage/FreePages.antt =====
-- src/include/storage/page/free_page_manager.h: the bitmap of used pages on page 2.
use Prim.Native.Nat.{bit_and, bit_or}
use franco_db.Prelude.{
  ℕ, zero, suc, ◌+◌, ◌-◌, ◌*◌, ◌/◌, ◌%◌, ◌^◌, Bool, true, false, Option, none, some, ◌==◌,
  if◌then◌else◌,
}
use franco_db.Storage.Memory.{Bytes, write_u8}
pub mod Bits
pub mod Allocate

-- PAGE_SIZE bytes of eight pages each
abbrev pub bitmap_size : ℕ
bitmap_size = 4096

-- `data & (1 << b)`
unfoldable pub bit : ℕ → ℕ → Bool
bit x b = x / 2 ^ b % 2 == 1

-- Is page `k` marked as used?
unfoldable pub used : Bytes → ℕ → Bool
used m k = bit (m (k / 8)) (k % 8)

-- The inner loop, over the `n` bits from bit `b` on.
unfoldable pub scan_bits : ℕ → ℕ → ℕ → Option ℕ
scan_bits zero x b = none
scan_bits (suc n) x b = let rest = scan_bits n x (b + 1) in if bit x b then rest else some b

-- The outer loop, over the `n` bytes from byte `i` on: the page found.
unfoldable pub scan_bytes : ℕ → Bytes → ℕ → Option ℕ
scan_bytes zero m i = none
scan_bytes (suc n) m i =
    let rest = scan_bytes n m (i + 1) in
    if m i == 255
    then rest
    else elim (scan_bits 8 (m i) 0) [ none ↦ rest | some b ↦ some (i * 8 + b) ]

-- `bitmap_data[i] |= (1 << bit)`
unfoldable pub mark_used : Bytes → ℕ → Bytes
mark_used m k = write_u8 m (k / 8) (bit_or (m (k / 8)) (2 ^ (k % 8)))

unfoldable pub allocate_page : Bytes → ℕ → ℕ × Bytes
allocate_page m current_file_size = elim (scan_bytes bitmap_size m 0) [
  | none ↦ (current_file_size, m)
  | some k ↦ (k, mark_used m k)
]

-- `bitmap_data[byte_idx] &= ~(1 << bit_idx)`
unfoldable pub deallocate_page : Bytes → ℕ → Bytes
deallocate_page m k = write_u8 m (k / 8) (bit_and (m (k / 8)) (255 - 2 ^ (k % 8)))
