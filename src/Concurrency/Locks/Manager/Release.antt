-- ===== src/Concurrency/Locks/Manager/Release.antt =====
-- What ReleaseAllLocks leaves of a transaction's locks, and of the others'.
use franco_db.Prelude.{
  ℕ, ◌≡◌, ◌≢◌, refl, ◌∙◌, Bool, true, inl, inr, Option, none, some, List, [], ◌∷◌, ℤ, arith, eqb_ℤ,
  eqb_ℤ_refl, eqb_ℤ_ne, eqb_ℤ-eq, if◌then◌else◌, Bool-cases, Option-cases, elem, ◌==◌,
}
use franco_db.Concurrency.Locks.{LockRequest, own_request, drop_requests, wake}
use franco_db.Concurrency.Locks.Manager.{
  LockMap, queue_at, insert_key, note_held, finish_lock, release_key, release_keys, release_held,
}

unfoldable pub requests_at : LockMap → ℕ → List LockRequest
requests_at l k = elim (l.queues k) [ some q ↦ q.request_queue | none ↦ [] ]

own_request-drop_self : (t : ℤ) (rs : List LockRequest) → own_request t (drop_requests t rs) ≡ none
unfolding own_request drop_requests
own_request-drop_self t [] = refl
own_request-drop_self t (r ∷ rs) = elim (Bool-cases (eqb_ℤ r.txn_id t)) [
  | inl e ↦ ground (arith, e, own_request-drop_self t rs)
  | inr e ↦ ground (arith, e, own_request-drop_self t rs)
]

own_request-drop_ne :
    (t s : ℤ) (rs : List LockRequest)
    → t ≢ s
    → own_request s (drop_requests t rs) ≡ own_request s rs
unfolding own_request drop_requests
own_request-drop_ne t s [] n = refl
own_request-drop_ne t s (r ∷ rs) n = elim (Bool-cases (eqb_ℤ r.txn_id t)) [
  | inl e ↦ ground (arith, e, eqb_ℤ-eq r.txn_id t e, eqb_ℤ_ne t s n, own_request-drop_ne t s rs n)
  | inr e ↦ ground (arith, e, own_request-drop_ne t s rs n)
]

requests_at-release_key :
    (l : LockMap) (t : ℤ) (k j : ℕ)
    → requests_at (release_key l t k) j
      ≡ (if k == j then drop_requests t (requests_at l j) else requests_at l j)
unfolding requests_at release_key drop_requests
requests_at-release_key l t k j = elim (Option-cases (l.queues k)) [
  | inl e ↦ elim (Bool-cases (k == j)) [
    | inl h ↦ ground (arith, e, h)
    | inr h ↦ ground (arith, e, h)
  ]
  | inr (q, e) ↦ elim (Bool-cases (k == j)) [
    | inl h ↦ ground (arith, e, h)
    | inr h ↦ ground (arith, e, h)
  ]
]

release_key-none :
    (l : LockMap) (t : ℤ) (k j : ℕ)
    → own_request t (requests_at l j) ≡ none
    → own_request t (requests_at (release_key l t k) j) ≡ none
release_key-none l t k j h = elim (Bool-cases (k == j)) [
  | inl e ↦ rw (requests_at-release_key l t k j, e) (own_request-drop_self t (requests_at l j))
  | inr e ↦ rw (requests_at-release_key l t k j, e) h
]

release_keys-none :
    (l : LockMap) (t : ℤ) (ks : List ℕ) (j : ℕ)
    → own_request t (requests_at l j) ≡ none
    → own_request t (requests_at (release_keys l t ks) j) ≡ none
unfolding release_keys
release_keys-none l t [] j h = h
release_keys-none l t (k ∷ ks) j h =
    release_keys-none (release_key l t k) t ks j (release_key-none l t k j h)

release_keys-gone :
    (l : LockMap) (t : ℤ) (ks : List ℕ) (j : ℕ)
    → elem j ks ≡ true
    → own_request t (requests_at (release_keys l t ks) j) ≡ none
unfolding release_keys elem
release_keys-gone l t [] j h = absurd (ground (arith, h))
release_keys-gone l t (k ∷ ks) j h = elim (Bool-cases (k == j)) [
  | inl e ↦
      release_keys-none (release_key l t k) t ks j
        (rw (requests_at-release_key l t k j, e) (own_request-drop_self t (requests_at l j)))
  | inr e ↦ release_keys-gone (release_key l t k) t ks j (ground (arith, e, h))
]

release_keys-ne :
    (l : LockMap) (t s : ℤ) (ks : List ℕ) (j : ℕ)
    → t ≢ s
    → own_request s (requests_at (release_keys l t ks) j) ≡ own_request s (requests_at l j)
unfolding release_keys
release_keys-ne l t s [] j n = refl
release_keys-ne l t s (k ∷ ks) j n =
    release_keys-ne (release_key l t k) t s ks j n ∙ (elim (Bool-cases (k == j)) [
      | inl e ↦
          rw (requests_at-release_key l t k j, e) (own_request-drop_ne t s (requests_at l j) n)
      | inr e ↦ rw (requests_at-release_key l t k j, e) refl
    ])

-- ReleaseAllLocks takes every request of the transaction out of each queue in which the transaction
-- is noted to hold a lock, and leaves the requests that another transaction has in any queue.
pub release_held-own_request :
    (l : LockMap) (t s : ℤ) (k : ℕ)
    → t ≢ s
    → (elem k (l.held t) ≡ true → own_request t (requests_at (release_held l t) k) ≡ none)
      × (own_request s (requests_at (release_held l t) k) ≡ own_request s (requests_at l k))
unfolding release_held requests_at
release_held-own_request l t s k n =
    (release_keys-gone l t (l.held t) k, release_keys-ne l t s (l.held t) k n)

elem-insert_key : (k : ℕ) (ks : List ℕ) → elem k (insert_key k ks) ≡ true
unfolding insert_key elem
elem-insert_key k ks = elim (Bool-cases (elem k ks)) [
  | inl e ↦ rw (e, insert_key) e
  | inr e ↦ rw (e, insert_key) (ground arith)
]

notes : ℤ → ℕ → Option LockMap → Bool
unfolding elem
notes t k none = true
notes t k (some l) = elem k (l.held t)

notes-finish_lock : (l : LockMap) (t : ℤ) (k : ℕ) → notes t k (finish_lock l t k) ≡ true
unfolding finish_lock notes note_held
notes-finish_lock l t k = elim (Option-cases (wake (queue_at l k) t)) [
  | inl e ↦ rw (e, finish_lock) refl
  | inr (q, e) ↦ rw (e, finish_lock, eqb_ℤ_refl t) (elem-insert_key k (l.held t))
]

noted :
    (l : LockMap) (t : ℤ) (k : ℕ) (o : Option LockMap)
    → o ≡ some l
    → notes t k o ≡ true
    → elem k (l.held t) ≡ true
unfolding notes
noted l t k o e h = rw e at h

-- A lock that LockTable or LockRow has granted to a waiting transaction is gone after the
-- transaction's ReleaseAllLocks: the transaction has no request for it.
pub finish_lock-release_held :
    (l l' : LockMap) (t : ℤ) (k : ℕ)
    → finish_lock l t k ≡ some l'
    → own_request t (requests_at (release_held l' t) k) ≡ none
unfolding release_held requests_at
finish_lock-release_held l l' t k h =
    release_keys-gone l' t (l'.held t) k (noted l' t k _ h (notes-finish_lock l t k))
