-- ===== src/Parser/Lexer/Turns.antt =====
-- The loop of ReadIdentifierOrNumber, in src/parser/lexer.cpp, turn by turn.
use franco_db.Prelude.{
  ℕ, ◌≤◌, ◌≡◌, refl, ap, ◌∙◌, ◌⊎◌, inl, inr, Bool, true, ◌||◌, List, [], ◌∷◌, ◌++◌, length,
  length-append, arith,
}
use mathlib.Core.Path.{subst}
use franco_db.Parser.Text.{is_alpha}
use franco_db.Parser.Lexer.{Scan, Turn, keep, point, stop, turn, put, scan}

pub Turn-cases : (t : Turn) → (t ≡ keep) ⊎ ((t ≡ point) ⊎ (t ≡ stop))
Turn-cases keep = inl refl
Turn-cases point = inr (inl refl)
Turn-cases stop = inr (inr refl)

module _ (l d : Bool) (c : ℕ) (s : List ℕ) where
  pub scan-keep : turn l d c s ≡ keep → scan l d (c ∷ s) ≡ put c (scan (is_alpha c || l) d s)
  unfolding scan
  scan-keep e = rw (e, scan) refl

  pub scan-point : turn l d c s ≡ point → scan l d (c ∷ s) ≡ put c (scan l true s)
  unfolding scan
  scan-point e = rw (e, scan) refl

  pub scan-stop :
      turn l d c s ≡ stop
      → scan l d (c ∷ s) ≡ record { read = []; has_letter = l; has_decimal_point = d; rest = c ∷ s }
  unfolding scan
  scan-stop e = rw (e, scan) refl

unfoldable pub whole : Scan → List ℕ
whole r = r.read ++ r.rest

whole-put : (c : ℕ) (r : Scan) → whole (put c r) ≡ c ∷ whole r
unfolding whole put
whole-put c r = refl

pub whole-scan : (l d : Bool) (s : List ℕ) → whole (scan l d s) ≡ s
unfolding whole scan
whole-scan l d [] = refl
whole-scan l d (c ∷ s) = elim (Turn-cases (turn l d c s)) [
  | inl e ↦
      ap whole (scan-keep l d c s e)
      ∙ whole-put c (scan (is_alpha c || l) d s)
      ∙ ap (λ t. c ∷ t) (whole-scan (is_alpha c || l) d s)
  | inr (inl e) ↦
      ap whole (scan-point l d c s e)
      ∙ whole-put c (scan l true s)
      ∙ ap (λ t. c ∷ t) (whole-scan l true s)
  | inr (inr e) ↦ ap whole (scan-stop l d c s e)
]

length-rest : (r : Scan) → length r.rest ≤ length (whole r)
unfolding whole
length-rest r = rw (length-append r.read r.rest) (omega arith)

pub length_rest-scan : (l d : Bool) (s : List ℕ) → length (scan l d s).rest ≤ length s
length_rest-scan l d s =
    subst (λ t. length (scan l d s).rest ≤ length t) (whole-scan l d s) (length-rest (scan l d s))
