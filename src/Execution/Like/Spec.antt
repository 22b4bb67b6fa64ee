-- ===== src/Execution/Like/Spec.antt =====
-- What LIKE means: `%` stands for any characters, `_` for one, any other character for itself.
use franco_db.Prelude.{ℕ, ◌≡◌, ◌≢◌, ◌⊎◌, List, [], ◌∷◌}
use franco_db.Execution.Like.{percent, underscore}

pub data Like : List ℕ → List ℕ → Type 0 where
  done : Like [] []
  one :
      {u c : ℕ} {p t : List ℕ}
      → u ≢ percent
      → (u ≡ underscore) ⊎ (u ≡ c)
      → Like p t
      → Like (u ∷ p) (c ∷ t)
  nothing : {u : ℕ} {p t : List ℕ} → u ≡ percent → Like p t → Like (u ∷ p) t
  more : {u c : ℕ} {p t : List ℕ} → u ≡ percent → Like (u ∷ p) t → Like (u ∷ p) (c ∷ t)
