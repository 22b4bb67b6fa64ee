-- ===== src/Recovery/LogManager/Gap.antt =====
-- What a write claims to be on disk (Flush, FlushToLSN and FlushThread of
-- src/recovery/log_manager.cpp).
use franco_db.Prelude.{
  ℕ, ◌+◌, ◌-◌, ◌%◌, ◌^◌, ◌<◌, pos, leb_ℤ, ◌≡◌, refl, true, false, arith, if◌then◌else◌, eqb_ℤ,
  invalid,
}
use franco_db.Storage.Memory.{of_word}
use franco_db.Recovery.LogManager.{
  LogManager, Piece, write_piece, write_log, flush_to_lsn_extract, already_flushed, is_empty,
}

last_assigned :
    (n : ℕ) → 0 < n → n < 2147483648 → of_word ((n + (2 ^ 32 - 1)) % 2 ^ 32) ≡ pos (n - 1)
unfolding of_word
last_assigned n p q = ground arith

-- What a write does when the file is open.
pub write_piece_open :
    (s : LogManager) (p : Piece)
    → s.is_open ≡ true
    → is_empty p.bytes ≡ false
    → write_piece s p ≡ record (write_log s p.bytes) {
      last_written_lsn = if eqb_ℤ p.end_lsn invalid then s.last_written_lsn else p.end_lsn;
      persistent_lsn = of_word ((s.next_lsn + (2 ^ 32 - 1)) % 2 ^ 32);
    }
unfolding write_piece
write_piece_open s p o e = rw (o, e) refl

within : (t n : ℕ) → t < n → leb_ℤ (pos t) (pos (n - 1)) ≡ true
within t n h = ground arith

-- A write of any piece to the open log counts every LSN that was assigned by then as persistent:
-- the records that were appended after the piece was taken stay in the buffer, and a FlushToLSN for
-- one of them returns without taking the buffer.
pub write_piece-flush_to_lsn :
    (s : LogManager) (p : Piece) (target : ℕ)
    → s.is_open ≡ true
    → is_empty p.bytes ≡ false
    → target < s.next_lsn
    → s.next_lsn < 2147483648
    → (flush_to_lsn_extract (write_piece s p) (pos target) ≡ write_piece s p)
      × ((write_piece s p).log_buffer ≡ s.log_buffer)
unfolding flush_to_lsn_extract already_flushed write_log eqb_ℤ
write_piece-flush_to_lsn s p target o e h b = (
  rw
      (
        write_piece_open s p o e,
        last_assigned s.next_lsn (omega arith) b,
        within target s.next_lsn h,
      )
      refl,
  rw (write_piece_open s p o e) refl,
)
