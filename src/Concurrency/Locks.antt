-- ===== src/Concurrency/Locks.antt =====
-- LockManager of src/include/concurrency/lock_manager.h. A table's
-- name and a RID are numbers here; a key without a queue has `none`. A call that waits on the
-- condition variable is two operations: the one before the wait, whose reply says what it waits
-- for, and the one that a woken thread runs, which is `none` while the wait's condition fails. The
-- request a thread waits with, which the source knows by its address, is the one of its
-- transaction that is still waiting.
use franco_db.Prelude.{
  ℕ, ◌+◌, Bool, true, false, not, ◌&&◌, ◌||◌, Option, none, some, List, [], ◌∷◌, ◌++◌, ◌==◌, leb,
  if◌then◌else◌, ℤ, invalid, eqb_ℤ, remove, elem,
}
pub mod Order
pub mod InOrder
pub mod Exclusion
pub mod Wakeup
pub mod Behind
pub mod Manager
pub mod Deadlock

pub data LockMode : Type 0 where
  shared : LockMode
  exclusive : LockMode

pub data LockRequestStatus : Type 0 where
  waiting : LockRequestStatus
  granted : LockRequestStatus
  aborted : LockRequestStatus

pub record LockRequest : Type 0 where
  pub txn_id : ℤ
  pub mode : LockMode
  pub status : LockRequestStatus

pub record LockRequestQueue : Type 0 where
  pub request_queue : List LockRequest
  pub upgrading : Bool
  pub upgrading_txn_id : ℤ

abbrev pub new_queue : LockRequestQueue
new_queue = record { request_queue = []; upgrading = false; upgrading_txn_id = invalid }

abbrev pub is_exclusive : LockMode → Bool
is_exclusive shared = false
is_exclusive exclusive = true

abbrev pub is_granted : LockRequestStatus → Bool
is_granted granted = true
is_granted _ = false

abbrev pub is_waiting : LockRequestStatus → Bool
is_waiting waiting = true
is_waiting _ = false

-- The request that the transaction waits with.
abbrev pub awaits : ℤ → LockRequest → Bool
awaits t r = eqb_ℤ r.txn_id t && is_waiting r.status

-- CanGrantLock's loop, up to the request itself.
unfoldable pub compatible : ℤ → LockMode → List LockRequest → Bool
compatible t m [] = true
compatible t m (r ∷ rs) =
    if awaits t r
    then true
    else (if is_granted r.status && (is_exclusive m || is_exclusive r.mode)
        then false
        else compatible t m rs)

unfoldable pub can_grant_lock : LockRequestQueue → ℤ → LockMode → Bool
unfolding compatible
can_grant_lock q t m =
    compatible t m q.request_queue
    && not (q.upgrading && not (eqb_ℤ q.upgrading_txn_id t) && is_exclusive m)

-- CanGrantUpgrade's loop, with `holders` counted so far.
unfoldable pub sole_holder : ℕ → ℤ → List LockRequest → Bool
sole_holder holders t [] = leb holders 1
sole_holder holders t (r ∷ rs) =
    if is_granted r.status
    then (if eqb_ℤ r.txn_id t then sole_holder (holders + 1) t rs else false)
    else sole_holder holders t rs

unfoldable pub can_grant_upgrade : LockRequestQueue → ℤ → Bool
unfolding sole_holder
can_grant_upgrade q t = sole_holder 0 t q.request_queue

-- The first request of the transaction.
unfoldable pub own_request : ℤ → List LockRequest → Option LockRequest
own_request t [] = none
own_request t (r ∷ rs) = if eqb_ℤ r.txn_id t then some r else own_request t rs

unfoldable pub own_waiting : ℤ → List LockRequest → Option LockRequest
own_waiting t [] = none
own_waiting t (r ∷ rs) = if awaits t r then some r else own_waiting t rs

-- Whether a call returns or waits.
pub data Reply : Type 0 where
  returned : Bool → Reply
  waits : Reply
  waits_upgrade : Reply

-- A mode that is held suffices for the mode that is asked.
abbrev pub suffices : LockMode → LockMode → Bool
suffices exclusive m = true
suffices shared m = not (is_exclusive m)

abbrev pub ask_upgrade : LockRequestQueue → ℤ → LockRequest → LockMode → Reply × LockRequestQueue
ask_upgrade q t r m =
    if suffices r.mode m
    then (returned true, q)
    else (if q.upgrading then (returned false, q) else (
      waits_upgrade,
      record { request_queue = q.request_queue; upgrading = true; upgrading_txn_id = t },
    ))

abbrev pub enqueue : LockRequestQueue → ℤ → LockMode → LockRequestQueue
enqueue q t m = record {
  request_queue = q.request_queue ++ (record { txn_id = t; mode = m; status = waiting } ∷ []);
  upgrading = q.upgrading;
  upgrading_txn_id = q.upgrading_txn_id;
}

-- LockTable and LockRow up to the wait.
unfoldable pub ask : LockRequestQueue → ℤ → LockMode → Reply × LockRequestQueue
unfolding own_request
ask q t m = elim (own_request t q.request_queue) [
  | some r ↦ ask_upgrade q t r m
  | none ↦ (waits, enqueue q t m)
]

-- request.status = GRANTED
unfoldable pub set_granted : ℤ → List LockRequest → List LockRequest
set_granted t [] = []
set_granted t (r ∷ rs) =
    if awaits t r
    then record { txn_id = r.txn_id; mode = r.mode; status = granted } ∷ rs
    else r ∷ set_granted t rs

abbrev pub grant_if : Bool → LockRequestQueue → ℤ → Option LockRequestQueue
unfolding set_granted
grant_if b q t =
    if b
    then some (record {
      request_queue = set_granted t q.request_queue;
      upgrading = q.upgrading;
      upgrading_txn_id = q.upgrading_txn_id;
    })
    else none

-- A thread that waits for a lock wakes.
unfoldable pub wake : LockRequestQueue → ℤ → Option LockRequestQueue
unfolding own_waiting can_grant_lock
wake q t = elim (own_waiting t q.request_queue) [
  | some r ↦ grant_if (can_grant_lock q t r.mode) q t
  | none ↦ none
]

-- req.mode = LockMode::EXCLUSIVE
unfoldable pub set_exclusive : ℤ → List LockRequest → List LockRequest
set_exclusive t [] = []
set_exclusive t (r ∷ rs) =
    if eqb_ℤ r.txn_id t
    then record { txn_id = r.txn_id; mode = exclusive; status = r.status } ∷ rs
    else r ∷ set_exclusive t rs

-- A thread that waits for an upgrade wakes.
unfoldable pub wake_upgrade : LockRequestQueue → ℤ → Option LockRequestQueue
unfolding can_grant_upgrade set_exclusive
wake_upgrade q t =
    if can_grant_upgrade q t
    then some (record {
      request_queue = set_exclusive t q.request_queue;
      upgrading = false;
      upgrading_txn_id = invalid;
    })
    else none

-- The loop of UnlockTable and UnlockRow: the first request of the transaction is erased.
unfoldable pub erase_first : ℤ → List LockRequest → List LockRequest
erase_first t [] = []
erase_first t (r ∷ rs) = if eqb_ℤ r.txn_id t then rs else r ∷ erase_first t rs

-- The remove_if of ReleaseAllLocks.
unfoldable pub drop_requests : ℤ → List LockRequest → List LockRequest
drop_requests t [] = []
drop_requests t (r ∷ rs) = if eqb_ℤ r.txn_id t then drop_requests t rs else r ∷ drop_requests t rs

abbrev pub with_requests : LockRequestQueue → List LockRequest → LockRequestQueue
with_requests q rs = record {
  request_queue = rs;
  upgrading = q.upgrading;
  upgrading_txn_id = q.upgrading_txn_id;
}
