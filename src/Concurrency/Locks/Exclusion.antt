-- ===== src/Concurrency/Locks/Exclusion.antt =====
-- When the waiting threads wake in the queue's order, the lock's holders stand before those that
-- wait, and one that holds it exclusively is alone.
use franco_db.Prelude.{
  ℕ, ◌+◌, ◌≤◌, ◌≡◌, refl, ◌⊎◌, inl, inr, Bool, true, false, Option, none, some, List, [], ◌∷◌, ℤ,
  arith, Bool-cases, Option-cases, eqb_ℤ, eqb_ℤ_refl,
}
use franco_db.Concurrency.Locks.{
  LockRequest, LockRequestStatus, LockRequestQueue, is_waiting, is_granted, is_exclusive, awaits,
  compatible, can_grant_lock, sole_holder, can_grant_upgrade, own_waiting, grant_if, set_granted,
  set_exclusive, wake, wake_upgrade,
}
use franco_db.Concurrency.Locks.Order.{
  next_waiting, InTurn, asked, woken, upgraded, unlocked, released, ReachedInTurn, empty, after,
  holders, held_exclusive,
}
use franco_db.Concurrency.Locks.InOrder.{
  AllWaiting, none_waits, waits_too, SharedPrefix, no_holder, holds, InOrder, by_many, by_one,
  not_both, InOrder-ask, InOrder-drop, InOrder-erase,
}

-- The first that waits is the one that wakes.
first_awaits :
    (t : ℤ) (r : LockRequest) (rs : List LockRequest)
    → is_waiting r.status ≡ true
    → next_waiting (r ∷ rs) ≡ some t
    → awaits t r ≡ true
unfolding next_waiting
first_awaits t r rs h e = ground (arith, h, e, eqb_ℤ_refl t)

granted_awaits : (t : ℤ) (r : LockRequest) → is_granted r.status ≡ true → awaits t r ≡ false
granted_awaits t r g = ground (arith, g)

granted_waits : (s : LockRequestStatus) → is_granted s ≡ true → is_waiting s ≡ false
granted_waits s g = ground (arith, g)

SharedPrefix-set_granted :
    (t : ℤ) (r : LockRequest) (rs : List LockRequest)
    → SharedPrefix rs
    → next_waiting rs ≡ some t
    → own_waiting t rs ≡ some r
    → is_exclusive r.mode ≡ false
    → SharedPrefix (set_granted t rs)
unfolding next_waiting own_waiting set_granted
SharedPrefix-set_granted t r [] i e o m = no_holder none_waits
SharedPrefix-set_granted t r (x ∷ rs) (no_holder (waits_too h a)) e o m =
    let k = first_awaits t x rs h e in rw k (holds refl (ground (arith, k, o, m)) (no_holder a))
SharedPrefix-set_granted t r (x ∷ rs) (holds g n a) e o m =
    let k = granted_awaits t x g in
    let w = granted_waits x.status g in
    rw k (holds g n (SharedPrefix-set_granted t r rs a (rw w at e) (rw k at o) m))

InOrder-set_granted :
    (t : ℤ) (r : LockRequest) (rs : List LockRequest)
    → InOrder rs
    → next_waiting rs ≡ some t
    → own_waiting t rs ≡ some r
    → compatible t r.mode rs ≡ true
    → InOrder (set_granted t rs)
unfolding next_waiting own_waiting compatible set_granted
InOrder-set_granted t r [] i e o c = by_many (no_holder none_waits)
InOrder-set_granted t r (x ∷ rs) (by_many (no_holder (waits_too h a))) e o c =
    rw (first_awaits t x rs h e) (by_one refl a)
InOrder-set_granted t r (x ∷ rs) (by_many (holds g n a)) e o c = by_many (
    SharedPrefix-set_granted t r (x ∷ rs) (holds g n a) e o
      (ground (arith, c, g, granted_awaits t x g)))
InOrder-set_granted t r (x ∷ rs) (by_one g a) e o c = by_many (
    SharedPrefix-set_granted t r (x ∷ rs)
      (holds g (ground (arith, c, g, granted_awaits t x g)) (no_holder a)) e o
      (ground (arith, c, g, granted_awaits t x g)))

AllWaiting-set_exclusive :
    (t : ℤ) {rs : List LockRequest} → AllWaiting rs → AllWaiting (set_exclusive t rs)
unfolding set_exclusive
AllWaiting-set_exclusive t none_waits = none_waits
AllWaiting-set_exclusive t (waits_too {r} {rs} h a) = elim (Bool-cases (eqb_ℤ r.txn_id t)) [
  | inl e ↦ rw e (waits_too h a)
  | inr e ↦ rw e (waits_too h (AllWaiting-set_exclusive t a))
]

-- CanGrantUpgrade counts the holders.
sole_holder-holders :
    (k : ℕ) (t : ℤ) (rs : List LockRequest) → sole_holder k t rs ≡ true → k + holders rs ≤ 1
unfolding sole_holder holders
sole_holder-holders k t [] h = ground (arith, h)
sole_holder-holders k t (r ∷ rs) h = elim (Bool-cases (is_granted r.status)) [
  | inl e ↦ elim (Bool-cases (eqb_ℤ r.txn_id t)) [
    | inl i ↦ rw e (omega (arith, sole_holder-holders (k + 1) t rs (rw (e, i) at h)))
    | inr i ↦ absurd (ground (arith, rw (e, i) at h))
  ]
  | inr e ↦ rw e (sole_holder-holders k t rs (rw e at h))
]

SharedPrefix-AllWaiting : {rs : List LockRequest} → SharedPrefix rs → holders rs ≡ 0 → AllWaiting rs
unfolding holders
SharedPrefix-AllWaiting (no_holder a) h = a
SharedPrefix-AllWaiting (holds g n a) h = absurd (ground (arith, rw g at h))

sole_holder-by_one :
    (t : ℤ) (r : LockRequest) (rs : List LockRequest)
    → is_granted r.status ≡ true
    → SharedPrefix rs ⊎ AllWaiting rs
    → sole_holder 0 t (r ∷ rs) ≡ true
    → InOrder (set_exclusive t (r ∷ rs))
unfolding sole_holder set_exclusive
sole_holder-by_one t r rs g a h = elim (Bool-cases (eqb_ℤ r.txn_id t)) [
  | inl e ↦
      rw e (by_one g (waiting_rest a (omega (arith, sole_holder-holders 1 t rs (rw (g, e) at h)))))
  | inr e ↦ absurd (ground (arith, rw (g, e) at h))
]
  where
    waiting_rest : SharedPrefix rs ⊎ AllWaiting rs → holders rs ≡ 0 → AllWaiting rs
    waiting_rest (inl s) k = SharedPrefix-AllWaiting s k
    waiting_rest (inr w) k = w

InOrder-set_exclusive :
    (t : ℤ) {rs : List LockRequest}
    → InOrder rs
    → sole_holder 0 t rs ≡ true
    → InOrder (set_exclusive t rs)
InOrder-set_exclusive t (by_many (no_holder a)) h =
    by_many (no_holder (AllWaiting-set_exclusive t a))
InOrder-set_exclusive t (by_many (holds {r} {rs} g n a)) h = sole_holder-by_one t r rs g (inl a) h
InOrder-set_exclusive t (by_one {r} {rs} g a) h = sole_holder-by_one t r rs g (inr a) h

requests_of : Option LockRequestQueue → List LockRequest
requests_of none = []
requests_of (some q) = q.request_queue

InOrder-requests_of :
    (o : Option LockRequestQueue) (q : LockRequestQueue)
    → InOrder (requests_of o)
    → o ≡ some q
    → InOrder q.request_queue
unfolding requests_of
InOrder-requests_of o q i e = rw e at i

grant_if-InOrder :
    (b : Bool) (q : LockRequestQueue) (t : ℤ)
    → (b ≡ true → InOrder (set_granted t q.request_queue))
    → InOrder (requests_of (grant_if b q t))
unfolding requests_of grant_if
grant_if-InOrder true q t i = i refl
grant_if-InOrder false q t i = by_many (no_holder none_waits)

InOrder-wake :
    (q q' : LockRequestQueue) (t : ℤ)
    → InOrder q.request_queue
    → next_waiting q.request_queue ≡ some t
    → wake q t ≡ some q'
    → InOrder q'.request_queue
unfolding wake can_grant_lock
InOrder-wake q q' t i n w = elim (Option-cases (own_waiting t q.request_queue)) [
  | inl e ↦ absurd (ground (arith, rw (e, wake) at w))
  | inr (r, e) ↦
      InOrder-requests_of _ q'
        (grant_if-InOrder _ q t
          (λ c. InOrder-set_granted t r q.request_queue i n e (ground (arith, c))))
        (rw (e, wake) at w)
]

InOrder-wake_upgrade :
    (q q' : LockRequestQueue) (t : ℤ)
    → InOrder q.request_queue
    → wake_upgrade q t ≡ some q'
    → InOrder q'.request_queue
unfolding wake_upgrade can_grant_upgrade requests_of
InOrder-wake_upgrade q q' t i w = elim (Bool-cases (sole_holder 0 t q.request_queue)) [
  | inl e ↦ InOrder-requests_of _ q' (InOrder-set_exclusive t i e) (rw e at w)
  | inr e ↦ absurd (ground (arith, rw e at w))
]

InTurn-InOrder :
    {q q' : LockRequestQueue} → InTurn q q' → InOrder q.request_queue → InOrder q'.request_queue
InTurn-InOrder {q} (asked t m) i = InOrder-ask q t m i
InTurn-InOrder {q} (woken t {q'} n w) i = InOrder-wake q q' t i n w
InTurn-InOrder {q} (upgraded t {q'} w) i = InOrder-wake_upgrade q q' t i w
InTurn-InOrder (unlocked t) i = InOrder-erase t i
InTurn-InOrder (released t) i = InOrder-drop t i

ReachedInTurn-InOrder : {q : LockRequestQueue} → ReachedInTurn q → InOrder q.request_queue
ReachedInTurn-InOrder empty = by_many (no_holder none_waits)
ReachedInTurn-InOrder (after r s) = InTurn-InOrder s (ReachedInTurn-InOrder r)

AllWaiting-holders :
    {rs : List LockRequest} → AllWaiting rs → (holders rs ≡ 0) × (held_exclusive rs ≡ false)
unfolding holders held_exclusive
AllWaiting-holders none_waits = (refl, refl)
AllWaiting-holders (waits_too {r} h a) = ground (arith, not_both r.status h, AllWaiting-holders a)

SharedPrefix-held : {rs : List LockRequest} → SharedPrefix rs → held_exclusive rs ≡ false
unfolding held_exclusive
SharedPrefix-held (no_holder a) = (AllWaiting-holders a).1
SharedPrefix-held (holds g n a) = ground (arith, g, n, SharedPrefix-held a)

InOrder-exclusion : {rs : List LockRequest} → InOrder rs → held_exclusive rs ≡ true → holders rs ≡ 1
unfolding holders
InOrder-exclusion (by_many a) h = absurd (ground (arith, h, SharedPrefix-held a))
InOrder-exclusion (by_one g a) h = rw g (omega (arith, AllWaiting-holders a))

-- When every lock is granted to the request that waits first, at once or after a wait, so that none
-- is granted behind a request that waits, then after any sequence of LockTable or LockRow calls,
-- such grants, upgrades, unlocks and releases of all locks, a transaction that holds the lock
-- exclusively is the only one that holds it.
pub exclusion :
    (q : LockRequestQueue)
    → ReachedInTurn q
    → held_exclusive q.request_queue ≡ true
    → holders q.request_queue ≡ 1
exclusion q r h = InOrder-exclusion (ReachedInTurn-InOrder r) h
