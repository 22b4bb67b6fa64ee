-- ===== src/Execution/Like/Alignment.antt =====
-- Why EvaluateLike may forget every `%` but the last: what an earlier one could still reach by
-- taking more characters, the last one reaches too.
use franco_db.Prelude.{ℕ, ◌≤◌, ◌≡◌, ◌≢◌, List, [], ◌∷◌, arith, length}
use franco_db.Execution.Like.{percent}
use franco_db.Execution.Like.Spec.{Like, one, nothing, more}

-- `z` ends the text `t`.
pub data Suffix (z : List ℕ) : List ℕ → Type 0 where
  here : Suffix z z
  later : {c : ℕ} {t : List ℕ} → Suffix z t → Suffix z (c ∷ t)

-- `z` ends the text behind its first character.
abbrev pub Proper : List ℕ → List ℕ → Type 0
Proper z [] = ⊥
Proper z (c ∷ t) = Suffix z t

-- Since the last `%`, with `s` behind it tried at `m`, every character of the pattern was met: what
-- is left are `p` and `t`.
pub data Aligned (s m : List ℕ) : List ℕ → List ℕ → Type 0 where
  start : Aligned s m s m
  step : {u c : ℕ} {p t : List ℕ} → Aligned s m (u ∷ p) (c ∷ t) → u ≢ percent → Aligned s m p t

Suffix-tail : {d : ℕ} {z : List ℕ} {t : List ℕ} → Suffix (d ∷ z) t → Proper z t
Suffix-tail here = here
Suffix-tail (later h) = later_of (Suffix-tail h)
  where
    later_of : {z t : List ℕ} → Proper z t → Suffix z t
    later_of {z} {t = []} h = absurd h
    later_of {z} {t = c ∷ t} h = later h

pub Proper-Suffix : (z t : List ℕ) → Proper z t → Suffix z t
Proper-Suffix z [] h = absurd h
Proper-Suffix z (c ∷ t) h = later h

Proper-tail : {d : ℕ} {z : List ℕ} (c : ℕ) (t : List ℕ) → Proper (d ∷ z) (c ∷ t) → Proper z t
Proper-tail c t h = Suffix-tail h

abbrev pub Reach : List ℕ → List ℕ → Type 0
Reach p t = (z : List ℕ) × Like p z × Proper z t

-- A character that is no `%` takes one character of the text.
Reach-step :
    {u : ℕ} {p : List ℕ} (c : ℕ) (t : List ℕ) → u ≢ percent → Reach (u ∷ p) (c ∷ t) → Reach p t
Reach-step c t n (z, one ne o l, h) = (_, l, Proper-tail c t h)
Reach-step c t n (z, nothing e l, h) = absurd (n e)
Reach-step c t n (z, more e l, h) = absurd (n e)

pub Aligned-Reach : {s m p t : List ℕ} → Aligned s m p t → Reach s m → Reach p t
Aligned-Reach start r = r
Aligned-Reach (step {c = c} {t = t} a n) r = Reach-step c t n (Aligned-Reach a r)

-- `%` takes any characters.
pub Like-Suffix :
    {u : ℕ} {p z t : List ℕ} → u ≡ percent → Like (u ∷ p) z → Suffix z t → Like (u ∷ p) t
Like-Suffix e l here = l
Like-Suffix e l (later h) = more e (Like-Suffix e l h)

-- Behind a `%` the pattern is met at some end of the text.
pub Like-percent :
    {u : ℕ} {p t : List ℕ} → u ≡ percent → Like (u ∷ p) t → (z : List ℕ) × Like p z × Suffix z t
Like-percent e (one n o l) = absurd (n e)
Like-percent e (nothing _ l) = (_, l, here)
Like-percent e (more _ l) = let (z, k, h) = Like-percent e l in (z, k, later h)

pub Aligned-length : {s m p t : List ℕ} → Aligned s m p t → length t ≤ length m
Aligned-length start = omega arith
Aligned-length (step a n) = omega (arith, Aligned-length a)

pub Aligned-pattern : {s m p t : List ℕ} → Aligned s m p t → length p ≤ length s
Aligned-pattern start = omega arith
Aligned-pattern (step a n) = omega (arith, Aligned-pattern a)
