-- ===== src/Concurrency/Locks/InOrder.antt =====
-- A queue in which the lock's holders stand before those that wait, and what keeps it so.
use franco_db.Prelude.{
  ◌≡◌, refl, inl, inr, true, false, List, [], ◌∷◌, ◌++◌, ℤ, arith, Bool-cases, Option-cases, eqb_ℤ,
}
use franco_db.Concurrency.Locks.{
  LockMode, LockRequest, LockRequestStatus, waiting, LockRequestQueue, is_waiting, is_granted,
  is_exclusive, own_request, ask_upgrade, ask, erase_first, drop_requests,
}

pub data AllWaiting : List LockRequest → Type 0 where
  none_waits : AllWaiting []
  waits_too :
      {r : LockRequest} {rs : List LockRequest}
      → is_waiting r.status ≡ true
      → AllWaiting rs
      → AllWaiting (r ∷ rs)

pub data SharedPrefix : List LockRequest → Type 0 where
  no_holder : {rs : List LockRequest} → AllWaiting rs → SharedPrefix rs
  holds :
      {r : LockRequest} {rs : List LockRequest}
      → is_granted r.status ≡ true
      → is_exclusive r.mode ≡ false
      → SharedPrefix rs
      → SharedPrefix (r ∷ rs)

pub data InOrder : List LockRequest → Type 0 where
  by_many : {rs : List LockRequest} → SharedPrefix rs → InOrder rs
  by_one :
      {r : LockRequest} {rs : List LockRequest}
      → is_granted r.status ≡ true
      → AllWaiting rs
      → InOrder (r ∷ rs)

pub not_both : (s : LockRequestStatus) → is_waiting s ≡ true → is_granted s ≡ false
not_both s h = ground (arith, h)

AllWaiting-snoc :
    {rs : List LockRequest} (r : LockRequest)
    → is_waiting r.status ≡ true
    → AllWaiting rs
    → AllWaiting (rs ++ (r ∷ []))
AllWaiting-snoc r h none_waits = waits_too h none_waits
AllWaiting-snoc r h (waits_too k a) = waits_too k (AllWaiting-snoc r h a)

SharedPrefix-snoc :
    {rs : List LockRequest} (r : LockRequest)
    → is_waiting r.status ≡ true
    → SharedPrefix rs
    → SharedPrefix (rs ++ (r ∷ []))
SharedPrefix-snoc r h (no_holder a) = no_holder (AllWaiting-snoc r h a)
SharedPrefix-snoc r h (holds g m a) = holds g m (SharedPrefix-snoc r h a)

InOrder-snoc :
    {rs : List LockRequest} (r : LockRequest)
    → is_waiting r.status ≡ true
    → InOrder rs
    → InOrder (rs ++ (r ∷ []))
InOrder-snoc r h (by_many a) = by_many (SharedPrefix-snoc r h a)
InOrder-snoc r h (by_one g a) = by_one g (AllWaiting-snoc r h a)

ask_upgrade_lem :
    (q : LockRequestQueue) (t : ℤ) (r : LockRequest) (m : LockMode)
    → (ask_upgrade q t r m).1.request_queue ≡ q.request_queue
ask_upgrade_lem q t r m = ground arith

pub InOrder-ask :
    (q : LockRequestQueue) (t : ℤ) (m : LockMode)
    → InOrder q.request_queue
    → InOrder (ask q t m).1.request_queue
unfolding ask
InOrder-ask q t m i = elim (Option-cases (own_request t q.request_queue)) [
  | inl e ↦ rw (e, ask) (InOrder-snoc (record { txn_id = t; mode = m; status = waiting }) refl i)
  | inr (r, e) ↦ rw (e, ask) (rw (ask_upgrade_lem q t r m) i)
]

AllWaiting-drop : (t : ℤ) {rs : List LockRequest} → AllWaiting rs → AllWaiting (drop_requests t rs)
unfolding drop_requests
AllWaiting-drop t none_waits = none_waits
AllWaiting-drop t (waits_too {r} {rs} h a) = elim (Bool-cases (eqb_ℤ r.txn_id t)) [
  | inl e ↦ rw e (AllWaiting-drop t a)
  | inr e ↦ rw e (waits_too h (AllWaiting-drop t a))
]

SharedPrefix-drop :
    (t : ℤ) {rs : List LockRequest} → SharedPrefix rs → SharedPrefix (drop_requests t rs)
unfolding drop_requests
SharedPrefix-drop t (no_holder a) = no_holder (AllWaiting-drop t a)
SharedPrefix-drop t (holds {r} {rs} g m a) = elim (Bool-cases (eqb_ℤ r.txn_id t)) [
  | inl e ↦ rw e (SharedPrefix-drop t a)
  | inr e ↦ rw e (holds g m (SharedPrefix-drop t a))
]

pub InOrder-drop : (t : ℤ) {rs : List LockRequest} → InOrder rs → InOrder (drop_requests t rs)
unfolding drop_requests
InOrder-drop t (by_many a) = by_many (SharedPrefix-drop t a)
InOrder-drop t (by_one {r} {rs} g a) = elim (Bool-cases (eqb_ℤ r.txn_id t)) [
  | inl e ↦ rw e (by_many (no_holder (AllWaiting-drop t a)))
  | inr e ↦ rw e (by_one g (AllWaiting-drop t a))
]

AllWaiting-erase : (t : ℤ) {rs : List LockRequest} → AllWaiting rs → AllWaiting (erase_first t rs)
unfolding erase_first
AllWaiting-erase t none_waits = none_waits
AllWaiting-erase t (waits_too {r} {rs} h a) = elim (Bool-cases (eqb_ℤ r.txn_id t)) [
  | inl e ↦ rw e a
  | inr e ↦ rw e (waits_too h (AllWaiting-erase t a))
]

SharedPrefix-erase :
    (t : ℤ) {rs : List LockRequest} → SharedPrefix rs → SharedPrefix (erase_first t rs)
unfolding erase_first
SharedPrefix-erase t (no_holder a) = no_holder (AllWaiting-erase t a)
SharedPrefix-erase t (holds {r} {rs} g m a) = elim (Bool-cases (eqb_ℤ r.txn_id t)) [
  | inl e ↦ rw e a
  | inr e ↦ rw e (holds g m (SharedPrefix-erase t a))
]

pub InOrder-erase : (t : ℤ) {rs : List LockRequest} → InOrder rs → InOrder (erase_first t rs)
unfolding erase_first
InOrder-erase t (by_many a) = by_many (SharedPrefix-erase t a)
InOrder-erase t (by_one {r} {rs} g a) = elim (Bool-cases (eqb_ℤ r.txn_id t)) [
  | inl e ↦ rw e (by_many (no_holder a))
  | inr e ↦ rw e (by_one g (AllWaiting-erase t a))
]
