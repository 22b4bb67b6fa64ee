-- ===== src/Concurrency/Locks/Deadlock/Safe.antt =====
-- The transactions that HasCycle of src/include/concurrency/lock_manager.h leaves without a cycle.
use mathlib.Core.Path.{subst}
use franco_db.Prelude.{
  ℤ, eqb_ℤ, eqb_ℤ-eq, ◌≡◌, ◌≢◌, refl, sym, ◌⊎◌, inl, inr, Bool, true, false, ◌||◌, Option, none,
  some, List, [], ◌∷◌, arith, Bool-cases,
}
use franco_db.Concurrency.Locks.Manager.{elem_txn}
use franco_db.Concurrency.Locks.Deadlock.{Graph, Search, Step, visit_all, Walk, stay, go}
use franco_db.Concurrency.Locks.Deadlock.Sound.{
  turn-found, turn-clear, turn-back, turn-seen, turn-none,
}

-- A transaction that waits for none, or only for such as are safe.
pub data Safe (g : Graph) : ℤ → Type 0 where
  safe : {a : ℤ} → ((c : ℤ) → elem_txn c (g a) ≡ true → Safe g c) → Safe g a

pub first_step :
    (g : Graph) (a b : ℤ)
    → Walk g a b
    → (a ≡ b) ⊎ ((c : ℤ) × (elem_txn c (g a) ≡ true) × Walk g c b)
first_step g a b stay = inl refl
first_step g a b (go {b = p} w e) = after (first_step g a p w)
  where
    after :
        (a ≡ p) ⊎ ((c : ℤ) × (elem_txn c (g a) ≡ true) × Walk g c p)
        → (a ≡ b) ⊎ ((c : ℤ) × (elem_txn c (g a) ≡ true) × Walk g c b)
    after (inl q) = inr (b, subst (λ y. elem_txn b (g y) ≡ true) (sym q) e, stay)
    after (inr (c, d, v)) = inr (c, d, go v e)

-- No walk of a safe transaction comes back to it.
pub Safe-Walk : (g : Graph) (a b : ℤ) → Safe g a → Walk g a b → elem_txn a (g b) ≢ true
Safe-Walk g a b (safe f) w e = elim (first_step g a b w) [
  | inl q ↦ Safe-Walk g a a (f a (edge q)) stay (edge q)
  | inr (c, d, v) ↦ Safe-Walk g c a (f c d) (go v e) d
]
  where
    edge : a ≡ b → elem_txn a (g a) ≡ true
    edge q = subst (λ y. elem_txn a (g y) ≡ true) (sym q) e

-- The visited transactions off the stack are safe.
abbrev pub Settled : Graph → Search → Type 0
Settled g s = (a : ℤ) → elem_txn a s.visited ≡ true → elem_txn a s.rec_stack ≡ false → Safe g a

-- What a call leaves that found no cycle.
abbrev pub Clear : Graph → Type 0 → Option (Bool × Search) → Type 0
Clear g P none = Unit
Clear g P (some (true, r)) = Unit
Clear g P (some (false, r)) = P × Settled g r

abbrev pub AllSafe : Graph → List ℤ → Type 0
AllSafe g ns = (a : ℤ) → elem_txn a ns ≡ true → Safe g a

pub AllSafe-cons : (g : Graph) (n : ℤ) (ns : List ℤ) → Safe g n → AllSafe g ns → AllSafe g (n ∷ ns)
unfolding elem_txn
AllSafe-cons g n ns h hs a i = elim (Bool-cases (eqb_ℤ a n)) [
  | inl e ↦ subst (Safe g) (sym (eqb_ℤ-eq a n e)) h
  | inr e ↦ hs a (other e i)
]
  where
    other : {b c : Bool} → b ≡ false → (b || c) ≡ true → c ≡ true
    other k h = ground arith

Clear-cons :
    (g : Graph) (n : ℤ) (ns : List ℤ) (o : Option (Bool × Search))
    → Safe g n
    → Clear g (AllSafe g ns) o
    → Clear g (AllSafe g (n ∷ ns)) o
Clear-cons g n ns none h c = tt
Clear-cons g n ns (some (true, r)) h c = tt
Clear-cons g n ns (some (false, r)) h (c, s) = (AllSafe-cons g n ns h c, s)

pub visit_all-Clear :
    (g : Graph) (f : Step) (ns : List ℤ) (s : Search)
    → ((s : Search) (n : ℤ) → Settled g s → Clear g (Safe g n) (f s n))
    → Settled g s
    → Clear g (AllSafe g ns) (visit_all f ns s)
unfolding visit_all elem_txn
visit_all-Clear g f [] s ih h = (λ a i. absurd (nothing i), h)
  where
    nothing : false ≡ true → ⊥
    nothing h = ground arith
visit_all-Clear g f (n ∷ ns) s ih h = elim (Bool-cases (elem_txn n s.visited)) [
  | inl v ↦ elim (Bool-cases (elem_txn n s.rec_stack)) [
    | inl k ↦ subst Goal (sym (turn-back f n ns s v k)) tt
    | inr k ↦
        subst Goal (sym (turn-seen f n ns s v k))
          (Clear-cons g n ns (visit_all f ns s) (h n v k) (visit_all-Clear g f ns s ih h))
  ]
  | inr v ↦ after v (f s n) refl (λ r. visit_all-Clear g f ns r ih) (ih s n h)
]
  where
    Goal : Option (Bool × Search) → Type 0
    Goal = Clear g (AllSafe g (n ∷ ns))

    after :
        elem_txn n s.visited ≡ false
        → (o : Option (Bool × Search)) → f s n ≡ o
        → ((r : Search) → Settled g r → Clear g (AllSafe g ns) (visit_all f ns r))
        → Clear g (Safe g n) o
        → Clear g (AllSafe g (n ∷ ns)) (visit_all f (n ∷ ns) s)
    after v none e rec c = subst Goal (sym (turn-none f n ns s v e)) tt
    after v (some (true, r)) e rec c = subst Goal (sym (turn-found f n ns s r v e)) tt
    after v (some (false, r)) e rec (c, t) =
        subst Goal (sym (turn-clear f n ns s r v e))
          (Clear-cons g n ns (visit_all f ns r) c (rec r t))
