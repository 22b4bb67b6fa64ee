-- ===== src/Concurrency/Locks/Deadlock/Sound.antt =====
-- DetectDeadlock of src/include/concurrency/lock_manager.h only reports deadlocks.
use mathlib.Core.Path.{subst}
use franco_db.Prelude.{
  ℕ, zero, suc, ℤ, invalid, eqb_ℤ, eqb_ℤ-eq, eqb_ℤ_refl, eqb_ℤ_ne, ◌≡◌, ◌≢◌, refl, sym, ap, ◌∙◌,
  inl, inr, Bool, true, false, ◌||◌, Option, none, some, List, [], ◌∷◌, arith, Bool-cases,
  Option-cases,
}
use franco_db.Concurrency.Locks.Manager.{elem_txn, erase_txn}
use franco_db.Concurrency.Locks.Deadlock.{
  Graph, Search, Step, enter, leave, visit_all, finish, has_cycle, detect_from, detect_deadlock,
  Walk, stay, go, Deadlock,
}

-- The turns of the loop.
module _ (f : Step) (n : ℤ) (ns : List ℤ) (s : Search) where
  pub turn-none : elem_txn n s.visited ≡ false → f s n ≡ none → visit_all f (n ∷ ns) s ≡ none
  unfolding visit_all
  turn-none v e = rw (v, visit_all) (rw e refl)

  pub turn-found :
      (r : Search)
      → elem_txn n s.visited ≡ false
      → f s n ≡ some (true, r)
      → visit_all f (n ∷ ns) s ≡ some (true, r)
  unfolding visit_all
  turn-found r v e = rw (v, visit_all) (rw e refl)

  pub turn-clear :
      (r : Search)
      → elem_txn n s.visited ≡ false
      → f s n ≡ some (false, r)
      → visit_all f (n ∷ ns) s ≡ visit_all f ns r
  unfolding visit_all
  turn-clear r v e = rw (v, visit_all) (rw e refl)

  pub turn-back :
      elem_txn n s.visited ≡ true
      → elem_txn n s.rec_stack ≡ true
      → visit_all f (n ∷ ns) s ≡ some (true, s)
  unfolding visit_all
  turn-back v e = rw (v, visit_all) (rw e refl)

  pub turn-seen :
      elem_txn n s.visited ≡ true
      → elem_txn n s.rec_stack ≡ false
      → visit_all f (n ∷ ns) s ≡ visit_all f ns s
  unfolding visit_all
  turn-seen v e = rw (v, visit_all) (rw e refl)

-- Everything on the stack waits for `t`.
abbrev pub Above : Graph → List ℤ → ℤ → Type 0
Above g st t = (a : ℤ) → elem_txn a st ≡ true → Walk g a t

abbrev pub Within : List ℤ → List ℤ → Type 0
Within xs ys = (a : ℤ) → elem_txn a xs ≡ true → elem_txn a ys ≡ true

-- A result that reports only a real deadlock, and else leaves no more on the stack.
abbrev pub Good : Graph → List ℤ → Option (Bool × Search) → Type 0
Good g st none = Unit
Good g st (some (true, r)) = Deadlock g
Good g st (some (false, r)) = Within r.rec_stack st

visit_all-Good :
    (g : Graph) (f : Step) (t : ℤ) (ns : List ℤ) (s : Search) (st : List ℤ)
    → ((s : Search) (n : ℤ) → Above g s.rec_stack n → Good g s.rec_stack (f s n))
    → Within ns (g t)
    → Above g st t
    → Within s.rec_stack st
    → Good g st (visit_all f ns s)
unfolding visit_all elem_txn
visit_all-Good g f t [] s st ih edges up w = w
visit_all-Good g f t (n ∷ ns) s st ih edges up w = elim (Bool-cases (elem_txn n s.visited)) [
  | inl v ↦ elim (Bool-cases (elem_txn n s.rec_stack)) [
    | inl k ↦
        subst (Good g st) (sym (turn-back f n ns s v k)) (n, t, up n (w n k), edges n (head n))
    | inr k ↦
        subst (Good g st) (sym (turn-seen f n ns s v k))
          (visit_all-Good g f t ns s st ih (λ a i. edges a (later (eqb_ℤ a n) i)) up w)
  ]
  | inr v ↦ elim (Option-cases (f s n)) [
    | inl e ↦ subst (Good g st) (sym (turn-none f n ns s v e)) tt
    | inr ((b, r), e) ↦ elim (Bool-cases b) [
      | inl k ↦
          let e' = e ∙ ap (λ b. some (b, r)) k in
          subst (Good g st) (sym (turn-found f n ns s r v e')) (subst (Good g s.rec_stack) e' here)
      | inr k ↦
          let e' = e ∙ ap (λ b. some (b, r)) k in
          subst (Good g st) (sym (turn-clear f n ns s r v e')) (
            visit_all-Good g f t ns r st ih (λ a i. edges a (later (eqb_ℤ a n) i)) up
              (λ a i. w a (subst (Good g s.rec_stack) e' here a i)))
    ]
  ]
]
  where
    head : (n : ℤ) → (eqb_ℤ n n || elem_txn n ns) ≡ true
    head n = rw (eqb_ℤ_refl n) refl

    later : (b : Bool) {c : Bool} → c ≡ true → (b || c) ≡ true
    later b h = ground arith

    here : Good g s.rec_stack (f s n)
    here = ih s n (λ a i. go (up a (w a i)) (edges n (head n)))

elem_txn-erase_txn :
    (a t : ℤ) (xs : List ℤ)
    → elem_txn a (erase_txn t xs) ≡ true
    → (elem_txn a xs ≡ true) × (eqb_ℤ a t ≡ false)
unfolding elem_txn erase_txn
elem_txn-erase_txn a t [] h = absurd (ground arith)
elem_txn-erase_txn a t (x ∷ xs) h = elim (Bool-cases (eqb_ℤ t x)) [
  | inl e ↦ let (k, n) = elem_txn-erase_txn a t xs (rw e at h) in (later (eqb_ℤ a x) k, n)
  | inr e ↦ elim (Bool-cases (eqb_ℤ a x)) [
    | inl k ↦ (first (elem_txn a xs) k, eqb_ℤ_ne a t (apart e (eqb_ℤ-eq a x k)))
    | inr k ↦
        let (i, n) = elem_txn-erase_txn a t xs (other k (rw e at h)) in (later (eqb_ℤ a x) i, n)
  ]
]
  where
    later : (b : Bool) {c : Bool} → c ≡ true → (b || c) ≡ true
    later b h = ground arith

    first : {b : Bool} (c : Bool) → b ≡ true → (b || c) ≡ true
    first c h = ground arith

    other : {b c : Bool} → b ≡ false → (b || c) ≡ true → c ≡ true
    other k h = ground arith

    differ : true ≡ false → ⊥
    differ h = ground arith

    apart : eqb_ℤ t x ≡ false → a ≡ x → a ≢ t
    apart e p q =
        absurd (differ (sym (subst (λ y. eqb_ℤ t y ≡ true) (sym q ∙ p) (eqb_ℤ_refl t)) ∙ e))

Above-self : (g : Graph) (st : List ℤ) (t : ℤ) → Above g st t → Above g (t ∷ st) t
unfolding elem_txn
Above-self g st t up a i = elim (Bool-cases (eqb_ℤ a t)) [
  | inl e ↦ subst (λ b. Walk g a b) (eqb_ℤ-eq a t e) stay
  | inr e ↦ up a (other e i)
]
  where
    other : {b c : Bool} → b ≡ false → (b || c) ≡ true → c ≡ true
    other k h = ground arith

finish-Good :
    (g : Graph) (t : ℤ) (st : List ℤ) (o : Option (Bool × Search))
    → Good g (t ∷ st) o
    → Good g st (finish t o)
unfolding finish leave elem_txn
finish-Good g t st none h = tt
finish-Good g t st (some (true, r)) h = h
finish-Good g t st (some (false, r)) h =
    λ a i. let (k, n) = elem_txn-erase_txn a t r.rec_stack i in second n (h a k)
  where
    second : {b c : Bool} → b ≡ false → (b || c) ≡ true → c ≡ true
    second k h = ground arith

pub has_cycle-Good :
    (g : Graph) (fuel : ℕ) (s : Search) (t : ℤ)
    → Above g s.rec_stack t
    → Good g s.rec_stack (has_cycle fuel g s t)
unfolding has_cycle enter
has_cycle-Good g zero s t up = tt
has_cycle-Good g (suc fuel) s t up =
    finish-Good g t s.rec_stack (visit_all (has_cycle fuel g) (g t) (enter s t)) (
      visit_all-Good g (has_cycle fuel g) t (g t) (enter s t) (t ∷ s.rec_stack)
        (has_cycle-Good g fuel) (λ a i. i) (Above-self g s.rec_stack t up) (λ a i. i))

detect_from-Deadlock :
    (g : Graph) (fuel : ℕ) (ts : List ℤ) (s : Search) (v : ℤ)
    → Within s.rec_stack []
    → detect_from fuel g ts s ≡ some v
    → v ≢ invalid
    → Deadlock g
unfolding detect_from elem_txn
detect_from-Deadlock g fuel [] s v w e n = absurd (n (ground arith))
detect_from-Deadlock g fuel (t ∷ ts) s v w e n = elim (Bool-cases (elem_txn t s.visited)) [
  | inl k ↦ detect_from-Deadlock g fuel ts s v w (rw (detect_from, k) at e) n
  | inr k ↦ elim (Option-cases (has_cycle fuel g s t)) [
    | inl h ↦ absurd (stuck (rw (detect_from, k, h) at e))
    | inr ((true, r), h) ↦ subst (Good g s.rec_stack) h good
    | inr ((false, r), h) ↦
        detect_from-Deadlock g fuel ts r v (λ a i. w a (subst (Good g s.rec_stack) h good a i))
          (rw (detect_from, k, h) at e) n
  ]
]
  where
    stuck : {v : ℤ} → none ≡ some v → ⊥
    stuck h = ground arith

    nothing : false ≡ true → ⊥
    nothing h = ground arith

    good : Good g s.rec_stack (has_cycle fuel g s t)
    good = has_cycle-Good g fuel s t (λ a i. absurd (nothing (w a i)))

pub names-Deadlock :
    (g : Graph) (fuel : ℕ) (waiting : List ℤ) (v : ℤ)
    → detect_deadlock fuel g waiting ≡ some v
    → v ≢ invalid
    → Deadlock g
unfolding detect_deadlock
names-Deadlock g fuel waiting v e n =
    detect_from-Deadlock g fuel waiting (record { visited = []; rec_stack = [] }) v (λ a i. i) e n
