-- ===== src/Execution/Like/Decides.antt =====
-- EvaluateLike decides LIKE on a text without the character '%'.
use franco_db.Prelude.{
  ℕ, zero, suc, ◌+◌, ◌*◌, ◌<◌, ◌≡◌, refl, inl, inr, List, [], ◌∷◌, arith, length, Bool, true,
  Option, none, some, ◌↔◌,
}
use franco_db.Execution.Like.{
  percent, Star, only_percent, Move, go, stop, round, loop, evaluate_like,
}
use franco_db.Execution.Like.Spec.{Like}
use franco_db.Execution.Like.Alignment.{Aligned, Aligned-Reach, Like-percent}
use franco_db.Execution.Like.Rounds.{
  Plain, Later, Target, Within, left, Sound, round-Sound, only_percent-Like,
}

-- What the loop answers is decided.
abbrev Decided : Option Bool → Type 0 → Type 0
Decided r goal = (b : Bool) × (r ≡ some b) × ((b ≡ true) ↔ goal)

carry : {P Q : Type 0} (r : Option Bool) → P ↔ Q → Decided r P → Decided r Q
carry r (f, g) (b, e, (h, k)) = (b, e, (λ x. f (h x), λ y. k (g y)))

empty-Decided :
    (n : ℕ) (p : List ℕ) (star : Star)
    → Within n [] p star
    → Decided (some (only_percent p)) (Target [] p star)
empty-Decided n p none w = (only_percent p, refl, only_percent-Like p)
empty-Decided n p (some (s, m)) (pl, lp, pm, ls, a) = (
  only_percent p,
  refl,
  (
    λ h. inl ((only_percent-Like p).0 h),
    λ h. (only_percent-Like p).1 (elim h [ inl l ↦ l | inr l ↦ ended a l ]),
  ),
)
  where
    ended : {s m p : List ℕ} → Aligned s m p [] → Later s m → Like p []
    ended {m = []} a l = absurd l
    ended {m = d ∷ m} a l =
        let (z, k, h) = Like-percent refl l in
        let (y, k', h') = Aligned-Reach a (z, k, h) in absurd h'

loop-Decided :
    (n k : ℕ) (t p : List ℕ) (star : Star)
    → Within n t p star
    → left n t p star < k
    → Decided (loop k t p star) (Target t p star)
unfolding loop
loop-Decided n zero t p star w h = absurd (omega (arith, h))
loop-Decided n (suc k) [] p star w h = empty-Decided n p star w
loop-Decided n (suc k) (c ∷ t) p star w h =
    next (round c t p star) (round-Sound n c t p star w)
      (λ t' p' s' v l. loop-Decided n k t' p' s' v (omega (arith, l, h)))
  where
    next :
        (move : Move)
        → Sound n c t p star move
        → ((t' p' : List ℕ) (s' : Star)
            → Within n t' p' s'
            → left n t' p' s' < left n (c ∷ t) p star
            → Decided (loop k t' p' s') (Target t' p' s'))
        → Decided
            (elim move [ stop b ↦ some b | go t' p' star' ↦ loop k t' p' star' ])
            (Target (c ∷ t) p star)
    next (stop b) (e, g) ih = (b, refl, (ground (arith, e), λ x. absurd (g x)))
    next (go t' p' s') (v, l, i) ih = carry (loop k t' p' s') i (ih t' p' s' v l)

-- On a text that has no '%', with any pattern, EvaluateLike returns within the model's fuel, and it
-- returns true exactly when the text is LIKE the pattern.
pub evaluate_like-Like :
    (text pattern' : List ℕ)
    → Plain text
    → (b : Bool) × (evaluate_like text pattern' ≡ some b) × ((b ≡ true) ↔ Like pattern' text)
unfolding evaluate_like
evaluate_like-Like text pattern' plain =
    loop-Decided (length pattern') _ text pattern' none (plain, omega arith) (omega arith)

loop-percent :
    (k : ℕ) (t p : List ℕ)
    → Plain t
    → suc (length t * (length p + 1) + length p) < k
    → Decided (loop k (percent ∷ t) (percent ∷ p) none) (Like p t)
unfolding loop round
loop-percent zero t p plain h = absurd (omega (arith, h))
loop-percent (suc k) t p plain h =
    loop-Decided (length p) k t p none (plain, omega arith) (omega (arith, h))

-- On a text whose one '%' is its first character, a leading '%' of the pattern is taken for that
-- character: EvaluateLike returns true exactly when the rest of the text is LIKE the rest of the
-- pattern, although the '%' of the pattern may stand for any characters.
pub evaluate_like-percent :
    (text pattern' : List ℕ)
    → Plain text
    → (b : Bool) × (evaluate_like (percent ∷ text) (percent ∷ pattern') ≡ some b)
      × ((b ≡ true) ↔ Like pattern' text)
unfolding evaluate_like
evaluate_like-percent text pattern' plain = loop-percent _ text pattern' plain (omega arith)
