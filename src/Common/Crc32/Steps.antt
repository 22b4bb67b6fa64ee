-- ===== src/Common/Crc32/Steps.antt =====
-- The checksum of a message that comes in pieces (src/include/common/crc32.h).
use franco_db.Prelude.{ℕ, ◌≡◌, List, [], ◌∷◌, ◌++◌, refl, true, ==_refl}
use franco_db.Common.Crc32.{feed, update, finalize, compute, verify}

update-append : (crc : ℕ) (xs ys : List ℕ) → update crc (xs ++ ys) ≡ update (update crc xs) ys
unfolding update
update-append crc [] ys = refl
update-append crc (x ∷ xs) ys = update-append (feed crc x) xs ys

-- Two calls of `update` from 0xFFFFFFFF and then `finalize` give a number that `verify` accepts for
-- the whole message.
pub verify-update :
    (xs ys : List ℕ) → verify (xs ++ ys) (finalize (update (update 0xFFFFFFFF xs) ys)) ≡ true
unfolding verify compute finalize
verify-update xs ys = rw (update-append 0xFFFFFFFF xs ys) (==_refl _)
