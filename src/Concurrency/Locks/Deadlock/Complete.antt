-- ===== src/Concurrency/Locks/Deadlock/Complete.antt =====
-- DetectDeadlock of src/include/concurrency/lock_manager.h misses no deadlock.
use mathlib.Core.Path.{subst}
use franco_db.Prelude.{
  ℕ, zero, suc, ℤ, invalid, eqb_ℤ, eqb_ℤ-eq, eqb_ℤ_refl, leb_ℤ, ◌≡◌, refl, sym, ◌∙◌, ◌⊎◌, inl, inr,
  Bool, true, false, ◌||◌, Option, none, some, List, [], ◌∷◌, arith, Bool-cases, if◌then◌else◌,
}
use franco_db.Concurrency.Locks.Manager.{elem_txn, erase_txn}
use franco_db.Concurrency.Locks.Deadlock.{
  Graph, Search, enter, leave, visit_all, finish, has_cycle, highest, detect_from, detect_deadlock,
  Walk, Deadlock,
}
use franco_db.Concurrency.Locks.Deadlock.Sound.{Within, Good, has_cycle-Good}
use franco_db.Concurrency.Locks.Deadlock.Safe.{
  Safe, safe, first_step, Safe-Walk, Settled, Clear, AllSafe, AllSafe-cons, visit_all-Clear,
}

elem_txn-erase_txn_ne :
    (a t : ℤ) (xs : List ℤ)
    → eqb_ℤ a t ≡ false
    → elem_txn a (erase_txn t xs) ≡ false
    → elem_txn a xs ≡ false
unfolding elem_txn erase_txn
elem_txn-erase_txn_ne a t [] n h = refl
elem_txn-erase_txn_ne a t (x ∷ xs) n h = elim (Bool-cases (eqb_ℤ t x)) [
  | inl e ↦
      both (subst (λ y. eqb_ℤ a y ≡ false) (eqb_ℤ-eq t x e) n)
        (elem_txn-erase_txn_ne a t xs n (rw e at h))
  | inr e ↦
      both (first (elem_txn a (erase_txn t xs)) (rw e at h))
        (elem_txn-erase_txn_ne a t xs n (second (eqb_ℤ a x) (rw e at h)))
]
  where
    both : {b c : Bool} → b ≡ false → c ≡ false → (b || c) ≡ false
    both p q = ground arith

    first : {b : Bool} (c : Bool) → (b || c) ≡ false → b ≡ false
    first c p = ground arith

    second : (b : Bool) {c : Bool} → (b || c) ≡ false → c ≡ false
    second b p = ground arith

Settled-enter : (g : Graph) (s : Search) (t : ℤ) → Settled g s → Settled g (enter s t)
unfolding enter elem_txn
Settled-enter g s t h a v k =
    h a (rest (eqb_ℤ a t) (elem_txn a s.rec_stack) v k) (second (eqb_ℤ a t) k)
  where
    second : (b : Bool) {c : Bool} → (b || c) ≡ false → c ≡ false
    second b p = ground arith

    rest : (b d : Bool) {c : Bool} → (b || c) ≡ true → (b || d) ≡ false → c ≡ true
    rest b d p q = ground arith

Settled-leave : (g : Graph) (r : Search) (t : ℤ) → Safe g t → Settled g r → Settled g (leave r t)
unfolding leave
Settled-leave g r t c h a v k = elim (Bool-cases (eqb_ℤ a t)) [
  | inl e ↦ subst (Safe g) (sym (eqb_ℤ-eq a t e)) c
  | inr e ↦ h a v (elem_txn-erase_txn_ne a t r.rec_stack e k)
]

finish-Clear :
    (g : Graph) (t : ℤ) (o : Option (Bool × Search))
    → Clear g (AllSafe g (g t)) o
    → Clear g (Safe g t) (finish t o)
unfolding finish
finish-Clear g t none c = tt
finish-Clear g t (some (true, r)) c = tt
finish-Clear g t (some (false, r)) (c, h) = (safe c, Settled-leave g r t (safe c) h)

has_cycle-Clear :
    (g : Graph) (fuel : ℕ) (s : Search) (t : ℤ)
    → Settled g s
    → Clear g (Safe g t) (has_cycle fuel g s t)
unfolding has_cycle
has_cycle-Clear g zero s t h = tt
has_cycle-Clear g (suc fuel) s t h =
    finish-Clear g t (visit_all (has_cycle fuel g) (g t) (enter s t)) (
      visit_all-Clear g (has_cycle fuel g) (g t) (enter s t) (has_cycle-Clear g fuel)
        (Settled-enter g s t h))

highest_pos :
    (best : ℤ) (ts : List ℤ) → leb_ℤ best invalid ≡ false → leb_ℤ (highest best ts) invalid ≡ false
unfolding highest
highest_pos best [] h = h
highest_pos best (t ∷ ts) h = highest_pos (if leb_ℤ t best then best else t) ts (over t best h)
  where
    over : (t b : ℤ) → leb_ℤ b invalid ≡ false → leb_ℤ (if leb_ℤ t b then b else t) invalid ≡ false
    over t b h = ground arith

-- Every transaction that waits has a number from 0.
abbrev pub Numbered : List ℤ → Type 0
Numbered ts = (t : ℤ) → elem_txn t ts ≡ true → leb_ℤ t invalid ≡ false

detect_from-Safe :
    (g : Graph) (fuel : ℕ) (ts : List ℤ) (s : Search)
    → Numbered ts
    → Settled g s
    → ((a : ℤ) → elem_txn a s.rec_stack ≡ false)
    → detect_from fuel g ts s ≡ some invalid
    → AllSafe g ts
unfolding detect_from elem_txn
detect_from-Safe g fuel [] s p h k e = λ a i. absurd (nothing i)
  where
    nothing : false ≡ true → ⊥
    nothing h = ground arith
detect_from-Safe g fuel (t ∷ ts) s p h k e = elim (Bool-cases (elem_txn t s.visited)) [
  | inl v ↦ AllSafe-cons g t ts (h t v (k t)) (
      detect_from-Safe g fuel ts s (λ a i. p a (later (eqb_ℤ a t) i)) h k
        (rw (detect_from, v) at e))
  | inr v ↦
      after v (has_cycle fuel g s t) refl
        (λ r. detect_from-Safe g fuel ts r (λ a i. p a (later (eqb_ℤ a t) i)))
        (has_cycle-Clear g fuel s t h)
        (has_cycle-Good g fuel s t (λ a i. absurd (differ (sym (k a) ∙ i))))
]
  where
    later : (b : Bool) {c : Bool} → c ≡ true → (b || c) ≡ true
    later b h = ground arith

    differ : false ≡ true → ⊥
    differ h = ground arith

    stuck : {v : ℤ} → none ≡ some v → ⊥
    stuck h = ground arith

    some_eq : {v w : ℤ} → some v ≡ some w → v ≡ w
    some_eq q = cc

    head : (eqb_ℤ t t || elem_txn t ts) ≡ true
    head = rw (eqb_ℤ_refl t) refl

    low : {v : ℤ} → some v ≡ some invalid → leb_ℤ v invalid ≡ false → ⊥
    low q h = differ (sym (subst (λ v. leb_ℤ v invalid ≡ false) (some_eq q) h))

    within :
        (r : Search) → Within r.rec_stack s.rec_stack → (a : ℤ) → elem_txn a r.rec_stack ≡ false
    within r w a = elim (Bool-cases (elem_txn a r.rec_stack)) [
      | inl i ↦ absurd (differ (sym (k a) ∙ w a i))
      | inr i ↦ i
    ]

    after :
        elem_txn t s.visited ≡ false
        → (o : Option (Bool × Search)) → has_cycle fuel g s t ≡ o
        → ((r : Search)
            → Settled g r
            → ((a : ℤ) → elem_txn a r.rec_stack ≡ false)
            → detect_from fuel g ts r ≡ some invalid
            → AllSafe g ts)
        → Clear g (Safe g t) o
        → Good g s.rec_stack o
        → AllSafe g (t ∷ ts)
    after v none q rec c w = absurd (stuck (rw (detect_from, v, q) at e))
    after v (some (true, r)) q rec c w =
        absurd (low (rw (detect_from, v, q) at e) (highest_pos t r.rec_stack (p t head)))
    after v (some (false, r)) q rec (c, h') w =
        AllSafe-cons g t ts c (rec r h' (within r w) (rw (detect_from, v, q) at e))

pub names-none :
    (g : Graph) (fuel : ℕ) (waiting : List ℤ)
    → Numbered waiting
    → ((a b : ℤ) → elem_txn b (g a) ≡ true → elem_txn a waiting ≡ true)
    → detect_deadlock fuel g waiting ≡ some invalid
    → ¬ Deadlock g
unfolding detect_deadlock elem_txn
names-none g fuel waiting p keys e (a, b, w, c) =
    Safe-Walk g a b (all (start (first_step g a b w))) w c
  where
    differ : false ≡ true → ⊥
    differ h = ground arith

    all : elem_txn a waiting ≡ true → Safe g a
    all =
        detect_from-Safe g fuel waiting (record { visited = []; rec_stack = [] }) p
          (λ a i j. absurd (differ i)) (λ a. refl) e a

    start : (a ≡ b) ⊎ ((c : ℤ) × (elem_txn c (g a) ≡ true) × Walk g c b) → elem_txn a waiting ≡ true
    start (inl q) = keys a a (subst (λ y. elem_txn a (g y) ≡ true) (sym q) c)
    start (inr (d, i, v)) = keys a d i
