-- ===== src/Concurrency/Tests.antt =====
-- The lock manager on small inputs.
mod Deadlock
use franco_db.Prelude.{ℤ, pos, eqb_ℤ, ◌≡◌, ◌≢◌, refl, true, false, none, some, [], arith}
use franco_db.Concurrency.Locks.{
  shared, exclusive, LockRequestQueue, erase_first, with_requests, ask, own_request, wake,
  own_waiting, can_grant_lock, compatible, set_granted,
}
use franco_db.Concurrency.Locks.Order.{
  ReachedInTurn, empty, after, asked, woken, next_waiting, holders, held_exclusive,
}
use franco_db.Concurrency.Locks.Exclusion.{exclusion}
use franco_db.Concurrency.Locks.Behind.{writer_waits, grant_behind}
use franco_db.Concurrency.Locks.Wakeup.{holding}
use franco_db.Concurrency.Locks.Manager.{LockMap, lock_table, note_held, put_queue}

-- Transaction 1 holds the lock exclusively.
abbrev one_holder : LockRequestQueue
one_holder = holding (pos 1)

one_holder_reachable : ReachedInTurn one_holder
unfolding ask own_request wake own_waiting can_grant_lock compatible set_granted next_waiting eqb_ℤ
one_holder_reachable = after (after empty (asked (pos 1) exclusive)) (woken (pos 1) refl refl)

exclusion_example : holders one_holder.request_queue ≡ 1
unfolding held_exclusive
exclusion_example = exclusion one_holder one_holder_reachable refl

differ : {a b : ℤ} → eqb_ℤ a b ≡ false → a ≢ b
unfolding eqb_ℤ
differ {a} {b} h e = ground (arith, h, e)

abbrev no_locks : LockMap
no_locks = record { queues = λ k. none; held = λ t. [] }

-- Transaction 1 waits for table 7, and gets it.
abbrev asking : LockMap
asking = (lock_table no_locks (pos 1) 7 exclusive).1

abbrev holding_table : LockMap
holding_table = note_held (put_queue asking 7 (holding (pos 1))) (pos 1) 7

grant_behind_example :
    (wake (writer_waits (pos 1) (pos 2)) (pos 2) ≡ none)
    × ((q : LockRequestQueue) × (wake (ask (writer_waits (pos 1) (pos 2)) (pos 3) shared).1 (pos 3)
          ≡ some q)
        × ((q' : LockRequestQueue) × (wake
                (with_requests q (erase_first (pos 1) q.request_queue))
                (pos 2)
              ≡ some q')
            × (held_exclusive q'.request_queue ≡ true)
            × (holders q'.request_queue ≡ 2)))
unfolding eqb_ℤ
grant_behind_example =
    grant_behind (pos 1) (pos 2) (pos 3) (differ refl) (differ refl) (differ refl)
