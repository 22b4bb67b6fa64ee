-- ===== src/Execution/Like/Rounds.antt =====
-- A round of EvaluateLike's loop keeps what the loop has to decide, and leaves less to do.
use franco_db.Prelude.{
  ℕ, zero, suc, ◌+◌, ◌*◌, ◌≤◌, ◌<◌, ◌≡◌, refl, ◌≢◌, ◌⊎◌, inl, inr, List, [], ◌∷◌, arith, length,
  true, false, none, some, ◌↔◌, ◌==◌, Bool-cases, Each, sym,
}
use franco_db.Execution.Like.{
  percent, underscore, Star, only_percent, Move, go, stop, backtrack, round,
}
use franco_db.Execution.Like.Spec.{Like, done, one, nothing, more}
use franco_db.Execution.Like.Alignment.{
  Aligned, start, step, Proper-Suffix, Aligned-Reach, Like-Suffix, Like-percent, Aligned-length,
}

-- No character of the text is '%'.
abbrev pub Plain : List ℕ → Type 0
Plain t = Each (λ c. c ≢ percent) t

-- The last `%` takes at least one character more.
abbrev pub Later : List ℕ → List ℕ → Type 0
Later s [] = ⊥
Later s (c ∷ m) = Like (percent ∷ s) m

-- What the loop still has to decide.
abbrev pub Target : List ℕ → List ℕ → Star → Type 0
Target t p none = Like p t
Target t p (some (s, m)) = Like p t ⊎ Later s m

abbrev pub Within : ℕ → List ℕ → List ℕ → Star → Type 0
Within n t p none = Plain t × (length p ≤ n)
Within n t p (some (s, m)) = Plain t × (length p ≤ n) × Plain m × (length s ≤ n) × Aligned s m p t

abbrev pub left : ℕ → List ℕ → List ℕ → Star → ℕ
left n t p none = length t * (n + 1) + length p
left n t p (some (s, m)) = length m * (n + 1) + length p

abbrev pub Sound : ℕ → ℕ → List ℕ → List ℕ → Star → Move → Type 0
Sound n c t p star (stop b) = (b ≡ false) × ¬ Target (c ∷ t) p star
Sound n c t p star (go t' p' star') =
    Within n t' p' star'
    × (left n t' p' star' < left n (c ∷ t) p star)
    × (Target t' p' star' ↔ Target (c ∷ t) p star)

-- A `%` may take one more character.
percent-split : {s m : List ℕ} → (Like s m ⊎ Later s m) ↔ Like (percent ∷ s) m
percent-split = (λ h. joined h, split)
  where
    joined : {s m : List ℕ} → Like s m ⊎ Later s m → Like (percent ∷ s) m
    joined (inl l) = nothing refl l
    joined {m = []} (inr l) = absurd l
    joined {m = c ∷ m} (inr l) = more refl l

    split : {s m : List ℕ} → Like (percent ∷ s) m → Like s m ⊎ Later s m
    split (one n o l) = absurd (n refl)
    split (nothing e l) = inl l
    split (more e l) = inr l

flip : {A B : Type 0} → (A ↔ B) → B ↔ A
flip (f, g) = (g, f)

Like-one :
    {u c : ℕ} {p t : List ℕ}
    → u ≢ percent
    → (u ≡ underscore) ⊎ (u ≡ c)
    → Like p t ↔ Like (u ∷ p) (c ∷ t)
Like-one {u} {c} {p} {t} ne o = (λ l. one ne o l, rest)
  where
    rest : Like (u ∷ p) (c ∷ t) → Like p t
    rest (one n k l) = l
    rest (nothing e l) = absurd (ne e)
    rest (more e l) = absurd (ne e)

either : {A B C : Type 0} → (A ↔ B) → (A ⊎ C) ↔ (B ⊎ C)
either (f, g) = (
  λ h. elim h [ inl a ↦ inl (f a) | inr c ↦ inr c ],
  λ h. elim h [ inl b ↦ inl (g b) | inr c ↦ inr c ],
)

backtrack-Sound :
    (n c : ℕ) (t p : List ℕ) (star : Star)
    → ¬ Like p (c ∷ t)
    → Within n (c ∷ t) p star
    → Sound n c t p star (backtrack star)
unfolding backtrack
backtrack-Sound n c t p none fails w = (refl, fails)
backtrack-Sound n c t p (some (s, [])) fails w = (refl, λ h. elim h [ inl l ↦ fails l | inr l ↦ l ])
backtrack-Sound n c t p (some (s, d ∷ m)) fails (pl, lp, pm, ls, a) = (
  (pm.1, ls, pm.1, ls, start),
  omega arith,
  (
    λ h. inr (percent-split.0 h),
    λ h. elim h [ inl l ↦ absurd (fails l) | inr l ↦ percent-split.1 l ],
  ),
)

matched :
    (n c u : ℕ) (t p : List ℕ) (star : Star)
    → u ≢ percent
    → (u ≡ underscore) ⊎ (u ≡ c)
    → Within n (c ∷ t) (u ∷ p) star
    → Sound n c t (u ∷ p) star (go t p star)
matched n c u t p none ne o (pl, lp) = ((pl.1, omega arith), omega arith, Like-one ne o)
matched n c u t p (some (s, m)) ne o (pl, lp, pm, ls, a) =
    ((pl.1, omega arith, pm, ls, step a ne), omega arith, either (Like-one ne o))

-- The `%` before the last can be forgotten.
forgotten :
    (c : ℕ) (t : List ℕ) {s m p : List ℕ}
    → Aligned s m (percent ∷ p) (c ∷ t)
    → Later s m
    → Like (percent ∷ p) (c ∷ t)
forgotten c t {m = []} a l = absurd l
forgotten c t {m = d ∷ m} a l =
    let (z, k, h) = Like-percent refl l in
    let (y, k', h') = Aligned-Reach a (z, k, h) in Like-Suffix refl k' (Proper-Suffix y (c ∷ t) h')

mul_le : (a b n : ℕ) → a ≤ b → a * n ≤ b * n
mul_le zero b n h = omega arith
mul_le (suc a) zero n h = omega arith
mul_le (suc a) (suc b) n h = omega (arith, mul_le a b n (omega arith))

bound : (a b n p : ℕ) → suc a ≤ b → suc a * (n + 1) + p < b * (n + 1) + suc p
bound a b n p h = omega (arith, mul_le (suc a) b (n + 1) h)

starred :
    (n c : ℕ) (t p : List ℕ) (star : Star)
    → Within n (c ∷ t) (percent ∷ p) star
    → Sound n c t (percent ∷ p) star (go (c ∷ t) p (some (p, c ∷ t)))
starred n c t p none (pl, lp) =
    ((pl, omega arith, pl, omega arith, start), omega arith, percent-split)
starred n c t p (some (s, m)) (pl, lp, pm, ls, a) = (
  (pl, omega arith, pl, omega arith, start),
  bound (length t) (length m) n (length p) (Aligned-length a),
  (
    λ h. inl (percent-split.0 h),
    λ h. percent-split.1 (elim h [ inl l ↦ l | inr l ↦ forgotten c t a l ]),
  ),
)

head : (n c : ℕ) (t p : List ℕ) (star : Star) → Within n (c ∷ t) p star → c ≢ percent
head n c t p none w = w.0.0
head n c t p (some _) w = w.0.0

==-eq : (u v : ℕ) → (u == v) ≡ true → u ≡ v
==-eq u v h = ground arith

fails : {u c : ℕ} {p t : List ℕ} → u ≢ c → u ≢ underscore → u ≢ percent → ¬ Like (u ∷ p) (c ∷ t)
fails a b d (one n (inl e) l) = b e
fails a b d (one n (inr e) l) = a e
fails a b d (nothing e l) = d e
fails a b d (more e l) = d e

pub round-Sound :
    (n c : ℕ) (t p : List ℕ) (star : Star)
    → Within n (c ∷ t) p star
    → Sound n c t p star (round c t p star)
unfolding round
round-Sound n c t [] star w = backtrack-Sound n c t [] star (λ l. elim l [ ]) w
round-Sound n c t (u ∷ p) star w = elim (Bool-cases (u == c)) [
  | inl e ↦ rw e (
      matched n c u t p star (λ k. head n c t (u ∷ p) star w (ground (arith, k, e)))
        (inr (ground (arith, e))) w)
  | inr e ↦ elim (Bool-cases (u == underscore)) [
    | inl k ↦ rw (e, k) (matched n c u t p star (ground (arith, k)) (inl (ground (arith, k))) w)
    | inr k ↦ elim (Bool-cases (u == percent)) [
      | inl d ↦
          rw (e, k, d, ==-eq u percent d) (starred n c t p star (rw (sym (==-eq u percent d)) w))
      | inr d ↦
          rw (e, k, d)
            (backtrack-Sound n c t (u ∷ p) star
              (fails (ground (arith, e)) (ground (arith, k)) (ground (arith, d))) w)
    ]
  ]
]

pub only_percent-Like : (p : List ℕ) → (only_percent p ≡ true) ↔ Like p []
unfolding only_percent
only_percent-Like [] = (λ _. done, λ _. refl)
only_percent-Like (u ∷ p) = elim (Bool-cases (u == percent)) [
  | inl e ↦ rw e (
    λ h. nothing (ground (arith, e)) ((only_percent-Like p).0 h),
    λ l. elim l [ nothing _ k ↦ (only_percent-Like p).1 k ],
  )
  | inr e ↦ rw e (λ h. ground (arith, h), λ l. elim l [ nothing k _ ↦ ground (arith, k, e) ])
]
