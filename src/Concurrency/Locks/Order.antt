-- ===== src/Concurrency/Locks/Order.antt =====
-- The operations on one queue as steps, with every lock granted to the request that waits first.
use franco_db.Prelude.{
  ℕ, suc, ◌&&◌, ◌||◌, ◌≡◌, Bool, false, Option, none, some, List, [], ◌∷◌, ℤ, if◌then◌else◌,
}
use franco_db.Concurrency.Locks.{
  LockMode, LockRequest, LockRequestQueue, is_waiting, is_granted, is_exclusive, new_queue, ask,
  wake, wake_upgrade, erase_first, drop_requests, with_requests,
}

-- The transaction whose request waits first.
unfoldable pub next_waiting : List LockRequest → Option ℤ
next_waiting [] = none
next_waiting (r ∷ rs) = if is_waiting r.status then some r.txn_id else next_waiting rs

-- What may happen to a queue when locks are granted in its order. A call of LockTable or LockRow is
-- `asked`; its grant is `woken`, whether it comes at once or after a wait. The source also grants a
-- lock at once behind a request that waits, which is no such step.
pub data InTurn (q : LockRequestQueue) : LockRequestQueue → Type 0 where
  asked : (t : ℤ) (m : LockMode) → InTurn q ((ask q t m).1)
  woken :
      (t : ℤ) {q' : LockRequestQueue}
      → next_waiting q.request_queue ≡ some t
      → wake q t ≡ some q'
      → InTurn q q'
  upgraded : (t : ℤ) {q' : LockRequestQueue} → wake_upgrade q t ≡ some q' → InTurn q q'
  unlocked : (t : ℤ) → InTurn q (with_requests q (erase_first t q.request_queue))
  released : (t : ℤ) → InTurn q (with_requests q (drop_requests t q.request_queue))

pub data ReachedInTurn : LockRequestQueue → Type 0 where
  empty : ReachedInTurn new_queue
  after : {q q' : LockRequestQueue} → ReachedInTurn q → InTurn q q' → ReachedInTurn q'

-- How many hold the lock, and whether one of them holds it exclusively.
unfoldable pub holders : List LockRequest → ℕ
holders [] = 0
holders (r ∷ rs) = if is_granted r.status then suc (holders rs) else holders rs

unfoldable pub held_exclusive : List LockRequest → Bool
held_exclusive [] = false
held_exclusive (r ∷ rs) = (is_granted r.status && is_exclusive r.mode) || held_exclusive rs
