-- ===== src/Prelude/Lists.antt =====
-- Lists of numbers as sets and queues, and lists measured and indexed by native numbers.
use Prim.Native.Nat.{ℕ, zero, suc, ◌+◌, ◌≤◌, ◌<◌}
use mathlib.Core.Path.{◌≡◌, refl, ap}
use mathlib.Core.Logic.{◌≢◌, inl, inr}
use mathlib.Core.Bool.{Bool, true, false, ◌||◌, ◌&&◌, not}
use mathlib.Core.List.{List, [], ◌∷◌, ◌++◌}
use mathlib.Core.Option.{Option, none, some}
use native.Mathlib.Omega.{arith}
use franco_db.Prelude.Tests.{◌==◌, if◌then◌else◌, Bool-cases, ==_refl}

module _ {ℓ} {A : Type ℓ} where
  abbrev pub length : List A → ℕ
  length [] = 0
  length (x ∷ xs) = suc (length xs)

  abbrev pub get_elem? : List A → ℕ → Option A
  get_elem? [] i = none
  get_elem? (x ∷ xs) zero = some x
  get_elem? (x ∷ xs) (suc i) = get_elem? xs i

  -- A write out of bounds changes nothing.
  abbrev pub set : List A → ℕ → A → List A
  set [] i v = []
  set (x ∷ xs) zero v = v ∷ xs
  set (x ∷ xs) (suc i) v = x ∷ set xs i v

  abbrev pub replicate : ℕ → A → List A
  replicate zero a = []
  replicate (suc n) a = a ∷ replicate n a

  abbrev pub take : ℕ → List A → List A
  take zero xs = []
  take (suc n) [] = []
  take (suc n) (x ∷ xs) = x ∷ take n xs

  pub take-length : (xs : List A) → take (length xs) xs ≡ xs
  take-length [] = refl
  take-length (x ∷ xs) = ap (◌∷◌ x) (take-length xs)

  pub length-append : (xs ys : List A) → length (xs ++ ys) ≡ length xs + length ys
  length-append [] ys = omega arith
  length-append (x ∷ xs) ys = omega (arith, length-append xs ys)

module _ {ℓ} {A : Type ℓ} where
  pub length-set : (xs : List A) (i : ℕ) (v : A) → length (set xs i v) ≡ length xs
  length-set [] i v = refl
  length-set (x ∷ xs) zero v = refl
  length-set (x ∷ xs) (suc i) v = ap suc (length-set xs i v)

  pub get_elem?_beyond : (xs : List A) (i : ℕ) → length xs ≤ i → get_elem? xs i ≡ none
  get_elem?_beyond [] i h = refl
  get_elem?_beyond (x ∷ xs) zero h = absurd (omega arith)
  get_elem?_beyond (x ∷ xs) (suc i) h = get_elem?_beyond xs i (omega arith)

  pub get_elem?-set_self :
      (xs : List A) (i : ℕ) (v : A) → i < length xs → get_elem? (set xs i v) i ≡ some v
  get_elem?-set_self [] i v h = elim h [ ]
  get_elem?-set_self (x ∷ xs) zero v h = refl
  get_elem?-set_self (x ∷ xs) (suc i) v h = get_elem?-set_self xs i v (omega arith)

  pub get_elem?-set_ne :
      (xs : List A) (i j : ℕ) (v : A) → i ≢ j → get_elem? (set xs i v) j ≡ get_elem? xs j
  get_elem?-set_ne [] i j v h = refl
  get_elem?-set_ne (x ∷ xs) zero zero v h = absurd (h refl)
  get_elem?-set_ne (x ∷ xs) zero (suc j) v h = refl
  get_elem?-set_ne (x ∷ xs) (suc i) zero v h = refl
  get_elem?-set_ne (x ∷ xs) (suc i) (suc j) v h = get_elem?-set_ne xs i j v (λ e. h (ap suc e))

-- Membership as a test.
unfoldable pub elem : ℕ → List ℕ → Bool
elem a [] = false
elem a (x ∷ xs) = a == x || elem a xs

-- Every occurrence of `a` is dropped.
unfoldable pub remove : ℕ → List ℕ → List ℕ
remove a [] = []
remove a (x ∷ xs) = if a == x then remove a xs else x ∷ remove a xs

-- No number stands twice.
unfoldable pub distinct : List ℕ → Bool
unfolding elem
distinct [] = true
distinct (x ∷ xs) = not (elem x xs) && distinct xs

pub elem-append : (a : ℕ) (xs ys : List ℕ) → elem a (xs ++ ys) ≡ (elem a xs || elem a ys)
unfolding elem
elem-append a [] ys = refl
elem-append a (x ∷ xs) ys = ground (arith, elem-append a xs ys)

pub elem-remove_self : (a : ℕ) (xs : List ℕ) → elem a (remove a xs) ≡ false
unfolding elem remove
elem-remove_self a [] = refl
elem-remove_self a (x ∷ xs) = ground (arith, elem-remove_self a xs)

pub elem-remove_ne : (a b : ℕ) (xs : List ℕ) → b ≢ a → elem b (remove a xs) ≡ elem b xs
unfolding elem remove
elem-remove_ne a b [] h = refl
elem-remove_ne a b (x ∷ xs) h = ground (arith, elem-remove_ne a b xs h)

-- Both in one equation, without a condition.
pub elem-remove :
    (a b : ℕ) (xs : List ℕ) → elem b (remove a xs) ≡ (if b == a then false else elem b xs)
elem-remove a b xs = ground (arith, elem-remove_self a xs, elem-remove_ne a b xs)

pub remove_absent : (a : ℕ) (xs : List ℕ) → elem a xs ≡ false → remove a xs ≡ xs
unfolding elem remove
remove_absent a [] h = refl
remove_absent a (x ∷ xs) h = ground (arith, remove_absent a xs)

pub length-remove-le : (a : ℕ) (xs : List ℕ) → length (remove a xs) ≤ length xs
unfolding remove
length-remove-le a [] = omega arith
length-remove-le a (x ∷ xs) = ground (arith, length-remove-le a xs)

pub remove-distinct : (a : ℕ) (xs : List ℕ) → distinct xs ≡ true → distinct (remove a xs) ≡ true
unfolding distinct remove
remove-distinct a [] h = refl
remove-distinct a (x ∷ xs) h = ground (arith, remove-distinct a xs, elem-remove a x xs)

pub snoc-distinct :
    (a : ℕ) (xs : List ℕ) → distinct xs ≡ true → elem a xs ≡ false → distinct (xs ++ a ∷ []) ≡ true
unfolding distinct elem
snoc-distinct a [] h e = refl
snoc-distinct a (x ∷ xs) h e = ground (arith, snoc-distinct a xs, elem-append x xs (a ∷ []))

module _ (P : ℕ → Type 0) where
  abbrev pub Each : List ℕ → Type 0
  Each [] = Unit
  Each (x ∷ xs) = P x × Each xs

  pub Each-of_elem : (xs : List ℕ) → ((x : ℕ) → elem x xs ≡ true → P x) → Each xs
  unfolding elem
  Each-of_elem [] h = tt
  Each-of_elem (x ∷ xs) h =
      (h x (ground (arith, ==_refl x)), Each-of_elem xs (λ y k. h y (ground arith)))

  pub Each-remove : (a : ℕ) (xs : List ℕ) → Each xs → Each (remove a xs)
  unfolding remove
  Each-remove a [] h = tt
  Each-remove a (x ∷ xs) h = elim (Bool-cases (a == x)) [
    | inl e ↦ rw e (Each-remove a xs h.1)
    | inr e ↦ rw e (h.0, Each-remove a xs h.1)
  ]

below_narrow :
    (n : ℕ) (xs : List ℕ) → Each (λ x. x < suc n) xs → elem n xs ≡ false → Each (λ x. x < n) xs
unfolding elem
below_narrow n [] h e = tt
below_narrow n (x ∷ xs) h e = (ground arith, below_narrow n xs h.1 (ground arith))

length-remove-ge : (a : ℕ) (xs : List ℕ) → distinct xs ≡ true → length xs ≤ length (remove a xs) + 1
unfolding distinct remove
length-remove-ge a [] h = omega arith
length-remove-ge a (x ∷ xs) h = ground (arith, length-remove-ge a xs, remove_absent a xs)

-- Distinct numbers below `n` are at most `n` many.
pub pigeonhole : (n : ℕ) (xs : List ℕ) → distinct xs ≡ true → Each (λ x. x < n) xs → length xs ≤ n
unfolding distinct
pigeonhole zero [] d h = omega arith
pigeonhole zero (x ∷ xs) d h = absurd (omega arith)
pigeonhole (suc n) xs d h = omega (
  arith,
  length-remove-ge n xs d,
  pigeonhole n (remove n xs) (remove-distinct n xs d)
      (below_narrow n (remove n xs) (Each-remove (λ x. x < suc n) n xs h) (elem-remove_self n xs)),
)
