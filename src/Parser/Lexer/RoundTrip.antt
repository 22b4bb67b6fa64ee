-- ===== src/Parser/Lexer/RoundTrip.antt =====
-- Tokenize of src/parser/lexer.cpp cuts a text that spells tokens into these tokens.
use franco_db.Prelude.{
  ℕ, zero, suc, ◌≤◌, ◌<◌, ◌≡◌, refl, sym, ap, ◌∙◌, ◌≢◌, inl, inr, true, false, ◌||◌, some, List, [],
  ◌∷◌, ◌++◌, length, length-append, ◌==◌, arith,
}
use franco_db.Parser.Text.{is_digit, is_lower, is_alpha, is_alnum, is_space}
use franco_db.Parser.Token.{TokenType, Token, is_eof, invalid}
use franco_db.Parser.Lexer.{
  skip_whitespace, symbol_type, token_at, next_token, prepend, tokenize_from, tokenize,
}
use franco_db.Parser.Lexer.Consumes.{
  eof, next_token-progress, tokenize_from-eof, tokenize_from-next,
}
use franco_db.Parser.Lexer.Lexeme.{
  Numeral, whole, fraction, Lexeme, word, positive, negative, quoted, symbol, strict, or_equal,
  Lexemes, nil, cons,
}
use franco_db.Parser.Lexer.Reads.{digit-alnum, token_at-lexeme}

-- A spelling does not start with white space, so that none of it is skipped.
skip-alnum : (c : ℕ) (s : List ℕ) → is_alnum c ≡ true → skip_whitespace (c ∷ s) ≡ c ∷ s
unfolding skip_whitespace is_space is_alnum is_alpha is_lower is_digit
skip-alnum c s h = ground arith

skip-symbol : (c : ℕ) (s : List ℕ) → symbol_type c ≢ invalid → skip_whitespace (c ∷ s) ≡ c ∷ s
unfolding skip_whitespace is_space symbol_type
skip-symbol c s h = ground arith

skip-comparison :
    (c : ℕ) (s : List ℕ) → ((c == b'>') || (c == b'<')) ≡ true → skip_whitespace (c ∷ s) ≡ c ∷ s
unfolding skip_whitespace is_space
skip-comparison c s h = ground arith

skip-numeral : (t : TokenType) (w s : List ℕ) → Numeral t w → skip_whitespace (w ++ s) ≡ w ++ s
skip-numeral t w s (whole c v h i) = skip-alnum c (v ++ s) (digit-alnum c h)
skip-numeral t w s (fraction c d u v h i j k) =
    skip-alnum c ((u ++ b'.' ∷ d ∷ v) ++ s) (digit-alnum c h)

skip-lexeme : (t : Token) (w s : List ℕ) → Lexeme t w → skip_whitespace (w ++ s) ≡ w ++ s
unfolding skip_whitespace is_space
skip-lexeme t w s (word c v h i j) = skip-alnum c (v ++ s) h
skip-lexeme t w s (positive k v n) = skip-numeral k v s n
skip-lexeme t w s (negative k v n) = refl
skip-lexeme t w s (quoted v h) = refl
skip-lexeme t w s (symbol c h) = skip-symbol c s h
skip-lexeme t w s (strict c h) = skip-comparison c s h
skip-lexeme t w s (or_equal c h) = skip-comparison c (b'=' ∷ s) h

pub next_token-lexeme :
    (t : Token) (w s : List ℕ) → Lexeme t w → next_token (w ++ 32 ∷ s) ≡ (t, 32 ∷ s)
unfolding next_token
next_token-lexeme t w s x = ap token_at (skip-lexeme t w (32 ∷ s) x) ∙ token_at-lexeme t w s x

lexeme_not_eof : (t : Token) (w s : List ℕ) → Lexeme t w → is_eof t.type ≡ false
lexeme_not_eof t w s x = elim (next_token-progress (w ++ 32 ∷ s)) [
  | inl e ↦ absurd (cons_nil (ap (λ r. r.1) (sym (next_token-lexeme t w s x) ∙ e)))
  | inr p ↦ ap (λ r. is_eof r.0.type) (sym (next_token-lexeme t w s x)) ∙ p.0
]
  where
    cons_nil : {c : ℕ} {u : List ℕ} → (c ∷ u) ≢ []
    cons_nil e = omega (arith, ap length e)

length-Lexemes : (ts : List Token) (s : List ℕ) → Lexemes ts s → length ts ≤ length s
length-Lexemes ts s nil = omega arith
length-Lexemes ts s (cons t us w m x xs) =
    rw (length-append w (32 ∷ m)) (omega (arith, length-Lexemes us m xs))

token_at-nothing : token_at [] ≡ (eof, [])
unfolding token_at
token_at-nothing = refl

-- Only what stands behind the white space counts.
tokenize_from-Lexemes :
    (fuel : ℕ) (ts : List Token) (m s : List ℕ)
    → skip_whitespace m ≡ skip_whitespace s
    → Lexemes ts s
    → length ts < fuel
    → tokenize_from fuel m ≡ some (ts ++ eof ∷ [])
unfolding next_token skip_whitespace is_space prepend
tokenize_from-Lexemes zero ts m s e xs h = absurd (omega arith)
tokenize_from-Lexemes (suc fuel) ts m s e nil h =
    tokenize_from-eof fuel m (ap token_at e ∙ token_at-nothing)
tokenize_from-Lexemes (suc fuel) ts m s e (cons t us w n x xs) h =
    tokenize_from-next fuel m t (32 ∷ n) (ap token_at e ∙ next_token-lexeme t w n x)
      (lexeme_not_eof t w n x)
    ∙ ap (prepend t) (tokenize_from-Lexemes fuel us (32 ∷ n) n refl xs (narrow h))
  where
    narrow : {k : ℕ} → suc k < suc fuel → k < fuel
    narrow h = omega arith

-- A text that spells tokens, each before a blank, is cut into exactly these tokens and the end:
-- keywords and identifiers, numerals with and without sign and point, quoted strings, symbols and
-- comparisons.
pub tokenize-Lexemes :
    (ts : List Token) (s : List ℕ) → Lexemes ts s → tokenize s ≡ some (ts ++ eof ∷ [])
unfolding tokenize
tokenize-Lexemes ts s xs =
    tokenize_from-Lexemes (suc (length s)) ts s s refl xs (below (length-Lexemes ts s xs))
  where
    below : {m n : ℕ} → m ≤ n → m < suc n
    below h = omega arith
