-- ===== src/Execution/Like.antt =====
-- PredicateEvaluator::EvaluateLike of src/include/execution/predicate_evaluator.h. An index into the
-- text or the pattern is the rest of the characters from there on, so that `t < text.size()` reads
-- "the rest is not empty"; `star_idx` is the pattern behind the last `%`, and `match_idx` the text
-- from which that `%` was last tried.
use franco_db.Prelude.{
  ℕ, zero, suc, ◌+◌, ◌*◌, Bool, true, false, ◌||◌, Option, none, some, List, [], ◌∷◌, length, ◌==◌,
  if◌then◌else◌,
}
pub mod Spec
pub mod Alignment
pub mod Rounds
pub mod Decides

-- '%'
abbrev pub percent : ℕ
percent = 37

-- '_'
abbrev pub underscore : ℕ
underscore = 95

-- `star_idx` and `match_idx`, if there was a `%`.
abbrev pub Star : Type 0
Star = Option (List ℕ × List ℕ)

-- The last loop: only `%` may be left.
unfoldable pub only_percent : List ℕ → Bool
only_percent [] = true
only_percent (u ∷ p) = if u == percent then only_percent p else false

-- What a round of the loop does.
pub data Move : Type 0 where
  go : List ℕ → List ℕ → Star → Move
  stop : Bool → Move

-- The third branch: the last `%` takes one more character.
unfoldable pub backtrack : Star → Move
backtrack none = stop false
backtrack (some (s, [])) = stop false
backtrack (some (s, c ∷ m)) = go m s (some (s, m))

unfoldable pub round : ℕ → List ℕ → List ℕ → Star → Move
unfolding backtrack
round c t [] star = backtrack star
round c t (u ∷ p) star =
    if u == c || u == underscore
    then go t p star
    else (if u == percent then go (c ∷ t) p (some (p, c ∷ t)) else backtrack star)

-- The loop, for at most that many rounds; `none` if they do not suffice.
unfoldable pub loop : ℕ → List ℕ → List ℕ → Star → Option Bool
unfolding only_percent
loop zero t p star = none
loop (suc k) [] p star = some (only_percent p)
loop (suc k) (c ∷ t) p star = elim (round c t p star) [
  | stop b ↦ some b
  | go t' p' star' ↦ loop k t' p' star'
]

unfoldable pub evaluate_like : List ℕ → List ℕ → Option Bool
evaluate_like text pattern' =
    loop ((length text + 1) * (length pattern' + 1) + length pattern' + 1) text pattern' none
