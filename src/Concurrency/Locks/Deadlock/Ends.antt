-- ===== src/Concurrency/Locks/Deadlock/Ends.antt =====
-- DetectDeadlock of src/include/concurrency/lock_manager.h returns: every call of HasCycle visits
-- a transaction that none visited before.
use mathlib.Core.Path.{subst}
use franco_db.Prelude.{
  ℕ, zero, suc, ◌+◌, ◌≤◌, ◌<◌, ℤ, invalid, eqb_ℤ, eqb_ℤ-eq, eqb_ℤ_refl, ◌≡◌, ◌≢◌, refl, sym, ap,
  ◌∙◌, inl, inr, Bool, true, false, ◌||◌, Option, some, List, [], ◌∷◌, length, arith, Bool-cases,
  if◌then◌else◌,
}
use franco_db.Concurrency.Locks.Manager.{elem_txn, LockManager}
use franco_db.Concurrency.Locks.Deadlock.{
  Graph, Search, Step, enter, leave, visit_all, finish, has_cycle, highest, detect_from,
  detect_deadlock, Deadlock, detection_round,
}
use franco_db.Concurrency.Locks.Deadlock.Complete.{Numbered, names-none}
use franco_db.Concurrency.Locks.Deadlock.Sound.{
  turn-found, turn-clear, turn-back, turn-seen, Within, names-Deadlock,
}

-- How many of the transactions `us` are not visited.
unfoldable unseen : List ℤ → List ℤ → ℕ
unfolding elem_txn
unseen [] vs = 0
unseen (u ∷ us) vs = (if elem_txn u vs then 0 else 1) + unseen us vs

unseen_le : (us vs ws : List ℤ) → Within vs ws → unseen us ws ≤ unseen us vs
unfolding unseen
unseen_le [] vs ws w = omega arith
unseen_le (u ∷ us) vs ws w = bound (w u) (unseen_le us vs ws w)
  where
    bound :
        {b c : Bool} {m n : ℕ}
        → (b ≡ true → c ≡ true)
        → m ≤ n
        → ((if c then 0 else 1) + m) ≤ ((if b then 0 else 1) + n)
    bound i h = ground arith

length-unseen : (us vs : List ℤ) → unseen us vs ≤ length us
unfolding unseen length
length-unseen [] vs = omega arith
length-unseen (u ∷ us) vs = bound (elem_txn u vs) (length-unseen us vs)
  where
    bound : (c : Bool) {m n : ℕ} → m ≤ n → ((if c then 0 else 1) + m) ≤ suc n
    bound c h = ground arith

unseen_lt :
    (us vs : List ℤ) (t : ℤ)
    → elem_txn t us ≡ true
    → elem_txn t vs ≡ false
    → unseen us (t ∷ vs) < unseen us vs
unfolding unseen elem_txn
unseen_lt [] vs t i n = absurd (nothing i)
  where
    nothing : false ≡ true → ⊥
    nothing h = ground arith
unseen_lt (u ∷ us) vs t i n = elim (Bool-cases (eqb_ℤ t u)) [
  | inl e ↦
      first (elem_txn u vs) (subst (λ y. eqb_ℤ y t ≡ true) (eqb_ℤ-eq t u e) (eqb_ℤ_refl t))
        (subst (λ y. elem_txn y vs ≡ false) (eqb_ℤ-eq t u e) n)
        (unseen_le us vs (t ∷ vs) (λ a i. later (eqb_ℤ a t) i))
  | inr e ↦ other (eqb_ℤ u t) (elem_txn u vs) (unseen_lt us vs t (rest e i) n)
]
  where
    later : (b : Bool) {c : Bool} → c ≡ true → (b || c) ≡ true
    later b h = ground arith

    rest : {b c : Bool} → b ≡ false → (b || c) ≡ true → c ≡ true
    rest k h = ground arith

    first :
        {b : Bool} (v : Bool) {m n : ℕ}
        → b ≡ true
        → v ≡ false
        → m ≤ n
        → ((if (b || v) then 0 else 1) + m) < ((if v then 0 else 1) + n)
    first v k l h = ground arith

    other :
        (b v : Bool) {m n : ℕ}
        → m < n
        → ((if (b || v) then 0 else 1) + m) < ((if v then 0 else 1) + n)
    other b v h = ground arith

-- A call that returns and leaves no fewer transactions visited.
abbrev Returns : List ℤ → Option (Bool × Search) → Type 0
Returns vs o = (r : Bool × Search) × (o ≡ some r) × Within vs r.1.visited

visit_all-Returns :
    (f : Step) (us ns : List ℤ) (k : ℕ) (s : Search)
    → ((s : Search) (n : ℤ)
        → elem_txn n us ≡ true
        → elem_txn n s.visited ≡ false
        → unseen us s.visited ≤ k
        → Returns s.visited (f s n))
    → Within ns us
    → unseen us s.visited ≤ k
    → Returns s.visited (visit_all f ns s)
unfolding visit_all elem_txn
visit_all-Returns f us [] k s ih w h = ((false, s), refl, λ a i. i)
visit_all-Returns f us (n ∷ ns) k s ih w h = elim (Bool-cases (elem_txn n s.visited)) [
  | inl v ↦ elim (Bool-cases (elem_txn n s.rec_stack)) [
    | inl j ↦ ((true, s), turn-back f n ns s v j, λ a i. i)
    | inr j ↦
        let (r, e, m) = visit_all-Returns f us ns k s ih (rest w) h in
        (r, turn-seen f n ns s v j ∙ e, m)
  ]
  | inr v ↦ after v (λ r. visit_all-Returns f us ns k r ih (rest w)) (ih s n (head w) v h)
]
  where
    later : (b : Bool) {c : Bool} → c ≡ true → (b || c) ≡ true
    later b h = ground arith

    rest : Within (n ∷ ns) us → Within ns us
    rest w a i = w a (later (eqb_ℤ a n) i)

    head : Within (n ∷ ns) us → elem_txn n us ≡ true
    head w = w n (rw (eqb_ℤ_refl n) refl)

    trans : {a b c : ℕ} → a ≤ b → b ≤ c → a ≤ c
    trans p q = omega arith

    after :
        elem_txn n s.visited ≡ false
        → ((r : Search) → unseen us r.visited ≤ k → Returns r.visited (visit_all f ns r))
        → Returns s.visited (f s n)
        → Returns s.visited (visit_all f (n ∷ ns) s)
    after v go ((true, r), e, m) = ((true, r), turn-found f n ns s r v e, m)
    after v go ((false, r), e, m) =
        let (q, d, l) = go r (trans (unseen_le us s.visited r.visited m) h) in
        (q, turn-clear f n ns s r v e ∙ d, λ a i. l a (m a i))

finish-Returns :
    (t : ℤ) (vs : List ℤ) (o : Option (Bool × Search)) → Returns vs o → Returns vs (finish t o)
unfolding finish leave
finish-Returns t vs o ((true, r), e, m) = ((true, r), rw e refl, m)
finish-Returns t vs o ((false, r), e, m) = ((false, leave r t), rw e refl, m)

-- All the transactions stand in `us`.
module _ (g : Graph) (us : List ℤ) (closed : (a : ℤ) → Within (g a) us) where
  has_cycle-Returns :
      (fuel : ℕ) (s : Search) (t : ℤ)
      → elem_txn t us ≡ true
      → elem_txn t s.visited ≡ false
      → unseen us s.visited ≤ fuel
      → Returns s.visited (has_cycle fuel g s t)
  unfolding has_cycle enter elem_txn
  has_cycle-Returns zero s t i n h = absurd (none_left (unseen_lt us s.visited t i n) h)
    where
      none_left : {a b : ℕ} → a < b → b ≤ 0 → ⊥
      none_left p q = omega arith
  has_cycle-Returns (suc fuel) s t i n h =
      finish-Returns t s.visited (visit_all (has_cycle fuel g) (g t) (enter s t)) (
        wider (
          visit_all-Returns (has_cycle fuel g) us (g t) fuel (enter s t) (has_cycle-Returns fuel)
            (closed t) (less (unseen_lt us s.visited t i n) h)))
    where
      later : (b : Bool) {c : Bool} → c ≡ true → (b || c) ≡ true
      later b h = ground arith

      less : {a b k : ℕ} → a < b → b ≤ suc k → a ≤ k
      less p q = omega arith

      wider : {o : Option (Bool × Search)} → Returns (t ∷ s.visited) o → Returns s.visited o
      wider (r, e, m) = (r, e, λ a i. m a (later (eqb_ℤ a t) i))

  detect_from-some :
      (fuel : ℕ) (ts : List ℤ) (s : Search)
      → Within ts us
      → unseen us s.visited ≤ fuel
      → (v : ℤ) × (detect_from fuel g ts s ≡ some v)
  unfolding detect_from elem_txn
  detect_from-some fuel [] s w h = (invalid, refl)
  detect_from-some fuel (t ∷ ts) s w h = elim (Bool-cases (elem_txn t s.visited)) [
    | inl k ↦ rw (k, detect_from) (detect_from-some fuel ts s (rest w) h)
    | inr k ↦
        after k (λ r. detect_from-some fuel ts r (rest w))
          (has_cycle-Returns fuel s t (w t (rw (eqb_ℤ_refl t) refl)) k h)
  ]
    where
      later : (b : Bool) {c : Bool} → c ≡ true → (b || c) ≡ true
      later b h = ground arith

      rest : Within (t ∷ ts) us → Within ts us
      rest w a i = w a (later (eqb_ℤ a t) i)

      trans : {a b c : ℕ} → a ≤ b → b ≤ c → a ≤ c
      trans p q = omega arith

      after :
          elem_txn t s.visited ≡ false
          → ((r : Search)
              → unseen us r.visited ≤ fuel
              → (v : ℤ) × (detect_from fuel g ts r ≡ some v))
          → Returns s.visited (has_cycle fuel g s t)
          → (v : ℤ) × (detect_from fuel g (t ∷ ts) s ≡ some v)
      after k go ((true, r), e, m) = (highest t r.rec_stack, rw (k, e, detect_from) refl)
      after k go ((false, r), e, m) =
          let (v, d) = go r (trans (unseen_le us s.visited r.visited m) h) in
          (v, rw (k, e, detect_from) d)

-- For transactions that all stand in one list, as long as the fuel, with every transaction that
-- waits numbered from 0 and given to the search: the detection returns. It names a victim only
-- when some transaction waits for itself along the edges of the graph, and it names none only when
-- no transaction does.
pub detect_deadlock-Deadlock :
    (g : Graph) (fuel : ℕ) (us waiting : List ℤ)
    → Within waiting us
    → ((a : ℤ) → Within (g a) us)
    → length us ≤ fuel
    → Numbered waiting
    → ((a b : ℤ) → elem_txn b (g a) ≡ true → elem_txn a waiting ≡ true)
    → (v : ℤ) × (detect_deadlock fuel g waiting ≡ some v)
      × (v ≢ invalid → Deadlock g)
      × (v ≡ invalid → ¬ Deadlock g)
unfolding detect_deadlock
detect_deadlock-Deadlock g fuel us waiting w closed h p keys =
    let (v, e) =
      detect_from-some g us closed fuel waiting (record { visited = []; rec_stack = [] }) w
        (trans (length-unseen us []) h) in
    (v, e, names-Deadlock g fuel waiting v e, λ q. names-none g fuel waiting p keys (e ∙ ap some q))
  where
    trans : {a b c : ℕ} → a ≤ b → b ≤ c → a ≤ c
    trans p q = omega arith

-- Without a deadlock a round of the detection leaves the lock manager as it is.
detection_round_idle :
    (l : LockManager) (fuel : ℕ) (us waiting : List ℤ)
    → Within waiting us
    → ((a : ℤ) → Within (l.wait_for a) us)
    → length us ≤ fuel
    → Numbered waiting
    → ((a b : ℤ) → elem_txn b (l.wait_for a) ≡ true → elem_txn a waiting ≡ true)
    → ¬ Deadlock l.wait_for
    → detection_round fuel waiting l ≡ some l
unfolding detection_round
detection_round_idle l fuel us waiting w closed h p keys n =
    let (v, e, d, q) = detect_deadlock-Deadlock l.wait_for fuel us waiting w closed h p keys in
    elim (Bool-cases (eqb_ℤ v invalid)) [
      | inl k ↦ rw (detection_round, e, k) refl
      | inr k ↦ absurd (n (d (eqb_ℤ_apart v invalid k)))
    ]
  where
    differ : true ≡ false → ⊥
    differ h = ground arith

    eqb_ℤ_apart : (a b : ℤ) → eqb_ℤ a b ≡ false → a ≢ b
    eqb_ℤ_apart a b k c = absurd (differ (sym (subst (λ y. eqb_ℤ a y ≡ true) c (eqb_ℤ_refl a)) ∙ k))
