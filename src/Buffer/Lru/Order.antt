-- ===== src/Buffer/Lru/Order.antt =====
-- The order in which lru_replacer.cpp gives up frames, against the history of the calls.
use franco_db.Prelude.{
  ℕ, suc, ◌≤◌, ◌<◌, ◌≡◌, refl, sym, ap, ◌∙◌, Bool, false, none, some, List, [], ◌∷◌, ◌++◌, arith,
  length, remove, distinct, if◌then◌else◌, ◌==◌, ◌||◌, inl, inr, ◌⊎◌, Each, Each-remove, pigeonhole,
  elem-remove_self,
}
use mathlib.Core.Path.{ap₂}
use mathlib.Core.List.{append_assoc, append-nil}
use franco_db.Buffer.Lru.{Lru, victim, pin, unpin, init}
use franco_db.Buffer.Lru.Validity.{
  IsValid, pin-IsValid, unpin-IsValid, pin-list, pin-capacity, init-IsValid,
}

pub data Call : Type 0 where
  pins unpins : ℕ → Call

unfoldable pub run : List Call → Lru → Lru
run [] s = s
run (pins f ∷ calls) s = run calls (pin s f)
run (unpins f ∷ calls) s = run calls (unpin s f)

unfoldable pub touches : ℕ → List Call → Bool
touches f [] = false
touches f (pins g ∷ calls) = f == g || touches f calls
touches f (unpins g ∷ calls) = f == g || touches f calls

-- The frames whose last call is an unpin, by the time of that call.
unfoldable pub waiting : List Call → List ℕ
unfolding touches
waiting [] = []
waiting (pins f ∷ calls) = waiting calls
waiting (unpins f ∷ calls) = if touches f calls then waiting calls else f ∷ waiting calls

abbrev pub Within : ℕ → List Call → Type 0
Within n [] = Unit
Within n (pins f ∷ calls) = f < n × Within n calls
Within n (unpins f ∷ calls) = f < n × Within n calls

-- The frames that no later call touches.
untouched : List Call → List ℕ → List ℕ
untouched calls [] = []
untouched calls (x ∷ xs) = if touches x calls then untouched calls xs else x ∷ untouched calls xs

untouched-append :
    (calls : List Call) (xs ys : List ℕ)
    → untouched calls (xs ++ ys) ≡ untouched calls xs ++ untouched calls ys
unfolding untouched
untouched-append calls [] ys = refl
untouched-append calls (x ∷ xs) ys = ground (arith, untouched-append calls xs ys)

untouched-pins :
    (f : ℕ) (calls : List Call) (xs : List ℕ)
    → untouched (pins f ∷ calls) xs ≡ untouched calls (remove f xs)
unfolding untouched remove touches
untouched-pins f calls [] = refl
untouched-pins f calls (x ∷ xs) = ground (arith, untouched-pins f calls xs)

untouched-unpins :
    (f : ℕ) (calls : List Call) (xs : List ℕ)
    → untouched (unpins f ∷ calls) xs ≡ untouched calls (remove f xs)
unfolding untouched remove touches
untouched-unpins f calls [] = refl
untouched-unpins f calls (x ∷ xs) = ground (arith, untouched-unpins f calls xs)

untouched_nothing : (xs : List ℕ) → untouched [] xs ≡ xs
unfolding untouched touches
untouched_nothing [] = refl
untouched_nothing (x ∷ xs) = ap (◌∷◌ x) (untouched_nothing xs)

-- Frames below the capacity never fill the list, so that `unpin` drops none.
pub unpin-list :
    (s : Lru) (f : ℕ)
    → IsValid s
    → f < s.capacity
    → Each (λ x. x < s.capacity) s.lru_list
    → (unpin s f).lru_list ≡ remove f s.lru_list ++ f ∷ []
unfolding unpin distinct
unpin-list s f v h each = ground (arith, pin-list s f v, pin-capacity s f, room)
  where
    room : suc (length (remove f s.lru_list)) ≤ s.capacity
    room =
        pigeonhole s.capacity (f ∷ remove f s.lru_list)
          (ground (arith, elem-remove_self f s.lru_list, pin-list s f v, (pin-IsValid s f v).apart))
          (h, Each-remove (λ x. x < s.capacity) f s.lru_list each)

pub unpin-capacity : (s : Lru) (f : ℕ) → (unpin s f).capacity ≡ s.capacity
unfolding unpin
unpin-capacity s f = ground (arith, pin-capacity s f)

Each-snoc :
    (n a : ℕ) (xs : List ℕ) → Each (λ x. x < n) xs → a < n → Each (λ x. x < n) (xs ++ a ∷ [])
Each-snoc n a [] h p = (p, tt)
Each-snoc n a (x ∷ xs) h p = (h.0, Each-snoc n a xs h.1 p)

newest :
    (f : ℕ) (calls : List Call)
    → untouched calls (f ∷ []) ++ waiting calls ≡ waiting (unpins f ∷ calls)
unfolding untouched waiting
newest f calls = ground arith

run-list :
    (n : ℕ) (calls : List Call) (s : Lru)
    → s.capacity ≡ n
    → Within n calls
    → IsValid s
    → Each (λ x. x < n) s.lru_list
    → (run calls s).lru_list ≡ untouched calls s.lru_list ++ waiting calls
unfolding run waiting
run-list n [] s e w v h = rw (untouched_nothing s.lru_list) (sym (append-nil s.lru_list))
run-list n (pins f ∷ calls) s e w v h =
    run-list n calls (pin s f) (ground (arith, pin-capacity s f)) w.1 (pin-IsValid s f v)
      (rw (pin-list s f v) (Each-remove (λ x. x < n) f s.lru_list h))
    ∙ ap (λ l. untouched calls l ++ waiting calls) (pin-list s f v)
    ∙ ap (λ l. l ++ waiting calls) (sym (untouched-pins f calls s.lru_list))
run-list n (unpins f ∷ calls) s e w v h =
    run-list n calls (unpin s f) (ground (arith, unpin-capacity s f)) w.1 (unpin-IsValid s f v)
      (rw grown (Each-snoc n f (remove f s.lru_list) (Each-remove (λ x. x < n) f s.lru_list h) w.0))
    ∙ ap (λ l. untouched calls l ++ waiting calls) grown
    ∙ ap (λ l. l ++ waiting calls) (untouched-append calls (remove f s.lru_list) (f ∷ []))
    ∙ append_assoc (untouched calls (remove f s.lru_list)) (untouched calls (f ∷ []))
        (waiting calls)
    ∙ ap₂ ◌++◌ (sym (untouched-unpins f calls s.lru_list)) (newest f calls)
  where
    grown : (unpin s f).lru_list ≡ remove f s.lru_list ++ f ∷ []
    grown = unpin-list s f v (rw e w.0) (rw e h)

-- Whatever is pinned and unpinned, the replacer lists exactly the frames whose last call was an
-- unpin, the one that was unpinned first at the front, if the frames are below the capacity.
pub run-waiting :
    (n : ℕ) (calls : List Call) → Within n calls → (run calls (init n)).lru_list ≡ waiting calls
unfolding init untouched
run-waiting n calls w = run-list n calls (init n) refl w (init-IsValid n) tt

victim_first :
    (s : Lru) (l : List ℕ)
    → s.lru_list ≡ l
    → ((victim s).0 ≡ none) × (l ≡ [])
      ⊎ ((f : ℕ) × (rest : List ℕ) × (l ≡ f ∷ rest) × ((victim s).0 ≡ some f))
unfolding victim
victim_first s [] e = inl (rw (e, victim), refl)
victim_first s (f ∷ rest) e = inr (f, rest, refl, rw (e, victim))

-- After any calls of Pin and Unpin on frames below the capacity, there is no victim exactly when
-- no frame waits, and otherwise the victim is the waiting frame that was unpinned first.
pub victim-run :
    (n : ℕ) (calls : List Call)
    → Within n calls
    → ((victim (run calls (init n))).0 ≡ none) × (waiting calls ≡ [])
      ⊎ ((f : ℕ) × (rest : List ℕ) × (waiting calls ≡ f ∷ rest)
          × ((victim (run calls (init n))).0 ≡ some f))
victim-run n calls w = victim_first (run calls (init n)) (waiting calls) (run-waiting n calls w)
