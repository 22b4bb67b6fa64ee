-- ===== src/Concurrency/Locks/Wakeup.antt =====
-- Waiting threads that wake out of the queue's order.
use franco_db.Prelude.{
  ◌≡◌, ◌≢◌, refl, true, false, Option, none, some, [], ◌∷◌, ℤ, arith, eqb_ℤ, eqb_ℤ_refl, eqb_ℤ_ne,
  invalid,
}
use franco_db.Concurrency.Locks.{
  LockMode, exclusive, LockRequestQueue, wake, ask, waiting, granted, erase_first, with_requests,
  own_waiting, can_grant_lock, compatible, set_granted, own_request,
}
use franco_db.Concurrency.Locks.Order.{holders, held_exclusive}

-- Two transactions wait for the lock, which nobody holds any longer.
abbrev pub two_waiting : ℤ → ℤ → LockMode → LockRequestQueue
two_waiting a b m = record {
  request_queue =
      record { txn_id = a; mode = exclusive; status = waiting }
      ∷ record { txn_id = b; mode = m; status = waiting }
      ∷ [];
  upgrading = false;
  upgrading_txn_id = invalid;
}

-- One transaction holds it exclusively.
abbrev pub holding : ℤ → LockRequestQueue
holding c = record {
  request_queue = record { txn_id = c; mode = exclusive; status = granted } ∷ [];
  upgrading = false;
  upgrading_txn_id = invalid;
}

abbrev pub wake_twice : LockRequestQueue → ℤ → ℤ → Option LockRequestQueue
wake_twice q b a = elim (wake q b) [ some q' ↦ wake q' a | none ↦ none ]

abbrev both_hold : ℤ → ℤ → LockMode → LockRequestQueue
both_hold a b m = record {
  request_queue =
      record { txn_id = a; mode = exclusive; status = granted }
      ∷ record { txn_id = b; mode = m; status = granted }
      ∷ [];
  upgrading = false;
  upgrading_txn_id = invalid;
}

abbrev second_holds : ℤ → ℤ → LockMode → LockRequestQueue
second_holds a b m = record {
  request_queue =
      record { txn_id = a; mode = exclusive; status = waiting }
      ∷ record { txn_id = b; mode = m; status = granted }
      ∷ [];
  upgrading = false;
  upgrading_txn_id = invalid;
}

second_wakes :
    (a b : ℤ) (m : LockMode)
    → eqb_ℤ a b ≡ false
    → wake (two_waiting a b m) b ≡ some (second_holds a b m)
unfolding wake own_waiting can_grant_lock compatible set_granted
second_wakes a b m ab = ground (arith, ab, eqb_ℤ_refl b)

first_wakes : (a b : ℤ) (m : LockMode) → wake (second_holds a b m) a ≡ some (both_hold a b m)
unfolding wake own_waiting can_grant_lock compatible set_granted
first_wakes a b m = ground (arith, eqb_ℤ_refl a)

asks_behind :
    (a b c : ℤ) (m : LockMode)
    → eqb_ℤ c a ≡ false
    → eqb_ℤ c b ≡ false
    → eqb_ℤ a b ≡ false
    → with_requests
        (ask (ask (holding c) a exclusive).1 b m).1
        (erase_first c (ask (ask (holding c) a exclusive).1 b m).1.request_queue)
      ≡ two_waiting a b m
unfolding ask own_request erase_first
asks_behind a b c m ca cb ab = ground (arith, ca, cb, ab, eqb_ℤ_refl c)

-- For three transactions: when one holds the lock exclusively, a second asks for it exclusively, a
-- third asks for it in any mode, and the holder unlocks, then the third and after it the second
-- can wake and be granted the lock. Both hold it then, one exclusively: CanGrantLock reads only
-- the requests before its own.
pub wake_out_of_order :
    (a b c : ℤ) (m : LockMode)
    → a ≢ b
    → c ≢ a
    → c ≢ b
    → (with_requests
          (ask (ask (holding c) a exclusive).1 b m).1
          (erase_first c (ask (ask (holding c) a exclusive).1 b m).1.request_queue)
        ≡ two_waiting a b m)
      × ((q : LockRequestQueue) × (wake_twice (two_waiting a b m) b a ≡ some q)
          × (held_exclusive q.request_queue ≡ true)
          × (holders q.request_queue ≡ 2))
unfolding holders held_exclusive
wake_out_of_order a b c m ab ca cb = (
  asks_behind a b c m (eqb_ℤ_ne c a ca) (eqb_ℤ_ne c b cb) (eqb_ℤ_ne a b ab),
  (
    both_hold a b m,
    rw (second_wakes a b m (eqb_ℤ_ne a b ab), wake_twice) (first_wakes a b m),
    refl,
    refl,
  ),
)
