-- ===== src/Concurrency/Locks/Manager.antt =====
-- The lock manager's maps: the queues of the tables and of the rows, the locks that each
-- transaction is noted to hold, and the wait-for graph; LockTable, UnlockTable, LockRow, UnlockRow,
-- ReleaseAllLocks and AbortTransaction of src/include/concurrency/lock_manager.h.
use franco_db.Prelude.{
  ℕ, Bool, true, false, not, ◌&&◌, ◌||◌, Option, none, some, List, [], ◌∷◌, ◌++◌, map, ◌==◌,
  if◌then◌else◌, ℤ, eqb_ℤ, elem, remove,
}
use franco_db.Concurrency.Locks.{
  LockMode, LockRequest, LockRequestStatus, aborted, LockRequestQueue, new_queue, is_granted,
  is_waiting, can_grant_lock, own_request, own_waiting, Reply, returned, waits, waits_upgrade, ask,
  wake, wake_upgrade, erase_first, drop_requests, with_requests, awaits,
}
pub mod Release

-- lock_map_ and txn_locks_, for tables or for rows.
pub record LockMap : Type 0 where
  pub queues : ℕ → Option LockRequestQueue
  pub held : ℤ → List ℕ

pub record LockManager : Type 0 where
  pub tables : LockMap
  pub rows : LockMap
  pub wait_for : ℤ → List ℤ

-- lock_map_[k], which makes an empty queue where there is none.
abbrev pub queue_at : LockMap → ℕ → LockRequestQueue
queue_at l k = elim (l.queues k) [ some q ↦ q | none ↦ new_queue ]

abbrev pub put_queue : LockMap → ℕ → LockRequestQueue → LockMap
put_queue l k q = record { queues = λ j. if k == j then some q else l.queues j; held = l.held }

-- insert and erase of a set of keys.
unfoldable pub insert_key : ℕ → List ℕ → List ℕ
unfolding elem
insert_key k ks = if elem k ks then ks else k ∷ ks

unfoldable pub note_held : LockMap → ℤ → ℕ → LockMap
unfolding insert_key
note_held l t k = record {
  queues = l.queues;
  held = λ s. if eqb_ℤ t s then insert_key k (l.held s) else l.held s;
}

unfoldable pub forget_held : LockMap → ℤ → ℕ → LockMap
unfolding remove
forget_held l t k = record {
  queues = l.queues;
  held = λ s. if eqb_ℤ t s then remove k (l.held s) else l.held s;
}

-- LockTable up to the wait.
unfoldable pub lock_table : LockMap → ℤ → ℕ → LockMode → Reply × LockMap
unfolding ask
lock_table l t k m = let (reply, q) = ask (queue_at l k) t m in (reply, put_queue l k q)

-- A thread that waits in LockTable or LockRow wakes with the lock; `none` if it waits on.
unfoldable pub finish_lock : LockMap → ℤ → ℕ → Option LockMap
unfolding wake note_held
finish_lock l t k = elim (wake (queue_at l k) t) [
  | some q ↦ some (note_held (put_queue l k q) t k)
  | none ↦ none
]

-- A thread that waits for an upgrade wakes with it.
unfoldable pub finish_upgrade : LockMap → ℤ → ℕ → Option LockMap
unfolding wake_upgrade
finish_upgrade l t k = elim (wake_upgrade (queue_at l k) t) [
  | some q ↦ some (put_queue l k q)
  | none ↦ none
]

abbrev pub unlock_if : LockMap → ℤ → ℕ → LockRequestQueue → Option LockRequest → Bool × LockMap
unfolding erase_first forget_held
unlock_if l t k q none = (false, l)
unlock_if l t k q (some r) =
    (true, forget_held (put_queue l k (with_requests q (erase_first t q.request_queue))) t k)

-- UnlockTable and UnlockRow.
unfoldable pub unlock : LockMap → ℤ → ℕ → Bool × LockMap
unfolding own_request
unlock l t k = elim (l.queues k) [
  | none ↦ (false, l)
  | some q ↦ unlock_if l t k q (own_request t q.request_queue)
]

-- The body of ReleaseAllLocks's loops.
unfoldable pub release_key : LockMap → ℤ → ℕ → LockMap
unfolding drop_requests
release_key l t k = elim (l.queues k) [
  | some q ↦ put_queue l k (with_requests q (drop_requests t q.request_queue))
  | none ↦ l
]

unfoldable pub release_keys : LockMap → ℤ → List ℕ → LockMap
unfolding release_key
release_keys l t [] = l
release_keys l t (k ∷ ks) = release_keys (release_key l t k) t ks

-- One of the two blocks of ReleaseAllLocks.
unfoldable pub release_held : LockMap → ℤ → LockMap
unfolding release_keys
release_held l t =
    let l' = release_keys l t (l.held t) in
    record { queues = l'.queues; held = λ s. if eqb_ℤ t s then [] else l'.held s }

-- erase of a set of transactions.
unfoldable pub erase_txn : ℤ → List ℤ → List ℤ
erase_txn t [] = []
erase_txn t (s ∷ ss) = if eqb_ℤ t s then erase_txn t ss else s ∷ erase_txn t ss

-- RemoveWaitForEdges
unfoldable pub remove_wait_for_edges : LockManager → ℤ → LockManager
unfolding erase_txn
remove_wait_for_edges l t = record {
  tables = l.tables;
  rows = l.rows;
  wait_for = λ s. if eqb_ℤ t s then [] else erase_txn t (l.wait_for s);
}

unfoldable pub elem_txn : ℤ → List ℤ → Bool
elem_txn t [] = false
elem_txn t (s ∷ ss) = eqb_ℤ t s || elem_txn t ss

-- AddWaitForEdges's loop.
unfoldable pub granted_txns : List LockRequest → List ℤ → List ℤ
unfolding elem_txn
granted_txns [] ss = ss
granted_txns (r ∷ rs) ss =
    if is_granted r.status && not (elem_txn r.txn_id ss)
    then granted_txns rs (r.txn_id ∷ ss)
    else granted_txns rs ss

-- AddWaitForEdges
unfoldable pub add_wait_for_edges : LockManager → ℤ → LockRequestQueue → LockManager
unfolding granted_txns
add_wait_for_edges l t q = record {
  tables = l.tables;
  rows = l.rows;
  wait_for = λ s. if eqb_ℤ t s then granted_txns q.request_queue (l.wait_for s) else l.wait_for s;
}

abbrev pub with_rows : LockManager → LockMap → LockManager
with_rows l rows = record { tables = l.tables; rows = rows; wait_for = l.wait_for }

abbrev pub note_waiting : LockManager → ℤ → LockMode → LockRequestQueue → Reply → LockManager
unfolding can_grant_lock add_wait_for_edges
note_waiting l t m q waits = if can_grant_lock q t m then l else add_wait_for_edges l t q
note_waiting l t m q _ = l

-- LockRow up to the wait.
unfoldable pub lock_row : LockManager → ℤ → ℕ → LockMode → Reply × LockManager
unfolding ask
lock_row l t k m =
    let (reply, q) = ask (queue_at l.rows k) t m in
    (reply, note_waiting (with_rows l (put_queue l.rows k q)) t m q reply)

-- A thread that waits in LockRow wakes with the lock.
unfoldable pub finish_lock_row : LockManager → ℤ → ℕ → Option LockManager
unfolding finish_lock remove_wait_for_edges
finish_lock_row l t k = elim (finish_lock l.rows t k) [
  | some rows ↦ some (remove_wait_for_edges (with_rows l rows) t)
  | none ↦ none
]

-- ReleaseAllLocks
unfoldable pub release_all_locks : LockManager → ℤ → LockManager
unfolding release_held remove_wait_for_edges
release_all_locks l t =
    remove_wait_for_edges
      (record {
        tables = release_held l.tables t;
        rows = release_held l.rows t;
        wait_for = l.wait_for;
      })
      t

unfoldable pub abort_requests : ℤ → List LockRequest → List LockRequest
abort_requests t [] = []
abort_requests t (r ∷ rs) =
    if awaits t r
    then record { txn_id = r.txn_id; mode = r.mode; status = aborted } ∷ abort_requests t rs
    else r ∷ abort_requests t rs

-- AbortTransaction
unfoldable pub abort_transaction : LockManager → ℤ → LockManager
unfolding abort_requests
abort_transaction l t = with_rows l (record {
  queues = λ k. elim (l.rows.queues k) [
    | some q ↦ some (with_requests q (abort_requests t q.request_queue))
    | none ↦ none
  ];
  held = l.rows.held;
})

-- A thread that waits in LockRow wakes with its request aborted, and leaves the queue.
unfoldable pub abandon_row : LockManager → ℤ → ℕ → LockManager
unfolding drop_requests remove_wait_for_edges
abandon_row l t k =
    let q = queue_at l.rows k in
    remove_wait_for_edges
      (with_rows l (put_queue l.rows k (with_requests q (drop_requests t q.request_queue)))) t
