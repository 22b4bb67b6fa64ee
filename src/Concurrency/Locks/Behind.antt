-- ===== src/Concurrency/Locks/Behind.antt =====
-- A lock of LockTable or LockRow (src/include/concurrency/lock_manager.h) that is granted at once
-- behind a request that waits.
use franco_db.Prelude.{
  ◌≡◌, ◌≢◌, refl, true, false, none, some, List, [], ◌∷◌, ℤ, arith, eqb_ℤ, eqb_ℤ_refl, eqb_ℤ_ne,
  invalid,
}
use franco_db.Concurrency.Locks.{
  LockMode, shared, exclusive, LockRequest, LockRequestStatus, LockRequestQueue, wake, ask, waiting,
  granted, erase_first, with_requests, own_waiting, can_grant_lock, compatible, set_granted,
  own_request,
}
use franco_db.Concurrency.Locks.Order.{holders, held_exclusive}

abbrev pub request : ℤ → LockMode → LockRequestStatus → LockRequest
request t m status = record { txn_id = t; mode = m; status = status }

abbrev pub queue : List LockRequest → LockRequestQueue
queue rs = record { request_queue = rs; upgrading = false; upgrading_txn_id = invalid }

-- `a` holds the lock in shared mode, and `b` has asked for it exclusively.
abbrev pub writer_waits : ℤ → ℤ → LockRequestQueue
writer_waits a b = (ask (queue (request a shared granted ∷ [])) b exclusive).1

abbrev reader_behind : ℤ → ℤ → ℤ → LockRequestQueue
reader_behind a b c =
    queue (request a shared granted ∷ request b exclusive waiting ∷ request c shared granted ∷ [])

writer_blocked : (a b : ℤ) → eqb_ℤ a b ≡ false → wake (writer_waits a b) b ≡ none
unfolding ask own_request wake own_waiting can_grant_lock compatible set_granted
writer_blocked a b ab = ground (arith, ab, eqb_ℤ_refl b)

reader_granted :
    (a b c : ℤ)
    → eqb_ℤ a b ≡ false
    → eqb_ℤ a c ≡ false
    → eqb_ℤ b c ≡ false
    → wake (ask (writer_waits a b) c shared).1 c ≡ some (reader_behind a b c)
unfolding ask own_request wake own_waiting can_grant_lock compatible set_granted
reader_granted a b c ab ac bc = ground (arith, ab, ac, bc, eqb_ℤ_refl c)

writer_granted :
    (a b c : ℤ)
    → wake
        (with_requests (reader_behind a b c) (erase_first a (reader_behind a b c).request_queue))
        b
      ≡ some (queue (request b exclusive granted ∷ request c shared granted ∷ []))
unfolding erase_first wake own_waiting can_grant_lock compatible set_granted
writer_granted a b c = ground (arith, eqb_ℤ_refl a, eqb_ℤ_refl b)

-- When one transaction holds the lock in shared mode and a second asks for it exclusively and has to
-- wait, a third that asks for it in shared mode is granted it at once. Once the first unlocks, the
-- second is granted it too, though the third holds it: two hold the lock, one of them exclusively.
pub grant_behind :
    (a b c : ℤ)
    → a ≢ b
    → a ≢ c
    → b ≢ c
    → (wake (writer_waits a b) b ≡ none)
      × ((q : LockRequestQueue) × (wake (ask (writer_waits a b) c shared).1 c ≡ some q)
          × ((q' : LockRequestQueue) × (wake (with_requests q (erase_first a q.request_queue)) b
                ≡ some q')
              × (held_exclusive q'.request_queue ≡ true)
              × (holders q'.request_queue ≡ 2)))
unfolding holders held_exclusive
grant_behind a b c ab ac bc = (
  writer_blocked a b (eqb_ℤ_ne a b ab),
  (
    reader_behind a b c,
    reader_granted a b c (eqb_ℤ_ne a b ab) (eqb_ℤ_ne a c ac) (eqb_ℤ_ne b c bc),
    (
      queue (request b exclusive granted ∷ request c shared granted ∷ []),
      writer_granted a b c,
      refl,
      refl,
    ),
  ),
)
