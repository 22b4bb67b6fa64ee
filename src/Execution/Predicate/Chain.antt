-- ===== src/Execution/Predicate/Chain.antt =====
-- Conditions joined by AND and OR.
use franco_db.Prelude.{
  ℕ, ◌≡◌, refl, ap, ◌⊎◌, inl, inr, ◌↔◌, Bool, true, false, ◌&&◌, ◌||◌, Option, none, some, List, [],
  ◌∷◌, arith, Bool-cases,
}
use franco_db.Execution.Predicate.{
  Value, Doubles, LogicType, and_logic, or_logic, Condition, match_column, chain, evaluate_rest,
  evaluate,
}

module _ {D : Type 0} (d : Doubles D) (schema : List (List ℕ)) (tuple : ℕ → Value D) where
  abbrev pub Holds : Condition D → Type 0
  Holds c = match_column d schema tuple c ≡ some (some true)

  -- The condition's column exists, and its comparison returns that.
  abbrev pub Returns : Condition D → Bool → Type 0
  Returns c b = match_column d schema tuple c ≡ some (some b)

  abbrev pub AllHold : List (Condition D) → Type 0
  AllHold [] = Unit
  AllHold (c ∷ cs) = Holds c × AllHold cs

  -- Every condition that another follows is joined to it by `l`; what the last one has is free.
  abbrev pub Joined : LogicType → List (Condition D) → Type 0
  Joined l [] = Unit
  Joined l (c ∷ []) = Unit
  Joined l (c ∷ e ∷ cs) = (c.next_logic ≡ l) × Joined l (e ∷ cs)

  Joined-tail :
      (l : LogicType) (c : Condition D) (cs : List (Condition D)) → Joined l (c ∷ cs) → Joined l cs
  Joined-tail l c [] j = tt
  Joined-tail l c (e ∷ cs) j = j.1

  -- The join behind the last condition is not looked at.
  rest-Joined :
      (l : LogicType) (c : Condition D) (cs : List (Condition D)) (b : Bool)
      → Joined l (c ∷ cs)
      → evaluate_rest d schema tuple c.next_logic b cs ≡ evaluate_rest d schema tuple l b cs
  unfolding evaluate_rest
  rest-Joined l c [] b j = refl
  rest-Joined l c (e ∷ cs) b j = ap (λ m. evaluate_rest d schema tuple m b (e ∷ cs)) j.0

  rest-AllHold :
      (cs : List (Condition D)) (b : Bool)
      → Joined and_logic cs
      → (evaluate_rest d schema tuple and_logic b cs ≡ some true) ↔ ((b ≡ true) × AllHold cs)
  unfolding evaluate_rest chain
  rest-AllHold [] b j = ground arith
  rest-AllHold (c ∷ cs) b j =
      by_match (match_column d schema tuple c) refl (λ r.
        rw (rest-Joined and_logic c cs r j) (rest-AllHold cs r (Joined-tail and_logic c cs j)))
    where
      by_match :
          (m : Option (Option Bool))
          → match_column d schema tuple c ≡ m
          → ((r : Bool)
              → (evaluate_rest d schema tuple c.next_logic r cs ≡ some true)
                ↔ ((r ≡ true) × AllHold cs))
          → (evaluate_rest d schema tuple and_logic b (c ∷ cs) ≡ some true)
            ↔ ((b ≡ true) × AllHold (c ∷ cs))
      by_match none e ih =
          rw (e, evaluate_rest)
            (λ h. absurd (ground (arith, h)), λ (a, (h, k)). absurd (ground (arith, h)))
      by_match (some none) e ih =
          rw (e, evaluate_rest)
            (λ h. absurd (ground (arith, h)), λ (a, (h, k)). absurd (ground (arith, h)))
      by_match (some (some true)) e ih =
          rw (e, evaluate_rest)
            (
              λ h. let (p, q) = (ih (b && true)).0 h in (ground (arith, p), (refl, q)),
              λ (a, (h, k)). (ih (b && true)).1 (ground (arith, a), k),
            )
      by_match (some (some false)) e ih =
          rw (e, evaluate_rest)
            (
              λ h. absurd (ground (arith, (ih (b && false)).0 h)),
              λ (a, (h, k)). absurd (ground (arith, h)),
            )

  -- When every condition but the last is joined to the next by AND, whatever the last one has, a tuple matches the WHERE clause exactly when
  -- each condition's column exists and its comparison is true.
  pub evaluate-AllHold :
      (cs : List (Condition D))
      → Joined and_logic cs
      → (evaluate d schema tuple cs ≡ some true) ↔ AllHold cs
  unfolding evaluate
  evaluate-AllHold [] j = (λ _. tt, λ _. refl)
  evaluate-AllHold (c ∷ cs) j =
      by_match (match_column d schema tuple c) refl (λ r.
        rw (rest-Joined and_logic c cs r j) (rest-AllHold cs r (Joined-tail and_logic c cs j)))
    where
      by_match :
          (m : Option (Option Bool))
          → match_column d schema tuple c ≡ m
          → ((r : Bool)
              → (evaluate_rest d schema tuple c.next_logic r cs ≡ some true)
                ↔ ((r ≡ true) × AllHold cs))
          → (evaluate d schema tuple (c ∷ cs) ≡ some true) ↔ AllHold (c ∷ cs)
      by_match none e ih =
          rw (e, evaluate) (λ h. absurd (ground (arith, h)), λ (h, k). absurd (ground (arith, h)))
      by_match (some none) e ih =
          rw (e, evaluate) (λ h. absurd (ground (arith, h)), λ (h, k). absurd (ground (arith, h)))
      by_match (some (some b)) e ih =
          rw (e, evaluate)
            (
              λ h. let (p, q) = (ih b).0 h in (ground (arith, p), q),
              λ (h, k). (ih b).1 (ground (arith, h), k),
            )

  abbrev pub SomeHolds : List (Condition D) → Type 0
  SomeHolds [] = ⊥
  SomeHolds (c ∷ cs) = Holds c ⊎ SomeHolds cs

  abbrev pub AllReturn : List (Condition D) → Type 0
  AllReturn [] = Unit
  AllReturn (c ∷ cs) = ((b : Bool) × Returns c b) × AllReturn cs

  rest-SomeHolds :
      (cs : List (Condition D)) (b : Bool)
      → Joined or_logic cs
      → AllReturn cs
      → (evaluate_rest d schema tuple or_logic b cs ≡ some true) ↔ ((b ≡ true) ⊎ SomeHolds cs)
  unfolding evaluate_rest chain
  rest-SomeHolds [] b j r = ground arith
  rest-SomeHolds (c ∷ cs) b j ((x, e), r) =
      let ih = rest-SomeHolds cs (b || x) (Joined-tail or_logic c cs j) r in
      rw (e, evaluate_rest, rest-Joined or_logic c cs (b || x) j)
        (
          λ h. elim (ih.0 h) [
            | inl k ↦ elim (Bool-cases b) [
              | inl l ↦ inl l
              | inr l ↦ inr (inl (ground (arith, k, l)))
            ]
            | inr k ↦ inr (inr k)
          ],
          λ h. ih.1 (elim h [
            | inl k ↦ inl (ground (arith, k))
            | inr (inl k) ↦ inl (ground (arith, k))
            | inr (inr k) ↦ inr k
          ]),
        )

  -- When conditions are joined by OR, at least one, and each one's column exists and its comparison
  -- returns, a tuple matches the WHERE clause exactly when one of the conditions is true.
  pub evaluate-SomeHolds :
      (c : Condition D) (cs : List (Condition D))
      → Joined or_logic (c ∷ cs)
      → AllReturn (c ∷ cs)
      → (evaluate d schema tuple (c ∷ cs) ≡ some true) ↔ SomeHolds (c ∷ cs)
  unfolding evaluate
  evaluate-SomeHolds c cs j ((x, e), r) =
      let ih = rest-SomeHolds cs x (Joined-tail or_logic c cs j) r in
      rw (e, evaluate, rest-Joined or_logic c cs x j)
        (
          λ h. elim (ih.0 h) [ inl k ↦ inl (ground (arith, k)) | inr k ↦ inr k ],
          λ h. ih.1 (elim h [ inl k ↦ inl (ground (arith, k)) | inr k ↦ inr k ]),
        )

  -- Three conditions joined by OR and then by AND, whose columns exist and whose comparisons return,
  -- are taken from left to right: the last one decides together with the first two, so AND binds no
  -- tighter than OR.
  pub evaluate_or_and :
      (c₁ c₂ c₃ : Condition D) (x y z : Bool)
      → c₁.next_logic ≡ or_logic
      → c₂.next_logic ≡ and_logic
      → Returns c₁ x
      → Returns c₂ y
      → Returns c₃ z
      → evaluate d schema tuple (c₁ ∷ c₂ ∷ c₃ ∷ []) ≡ some ((x || y) && z)
  unfolding evaluate evaluate_rest chain
  evaluate_or_and c₁ c₂ c₃ x y z j k e f g = ground (arith, j, k, e, f, g)
