-- ===== src/Parser/Lexer/Reads.antt =====
-- NextToken of src/parser/lexer.cpp reads a token off its spelling.
use franco_db.Prelude.{
  ℕ, ◌≡◌, refl, sym, ap, ◌∙◌, ◌≢◌, true, false, ◌||◌, List, [], ◌∷◌, ◌++◌, append_assoc, map, ◌==◌,
  arith, Each,
}
use franco_db.Parser.Text.{is_digit, is_lower, is_alpha, is_alnum, to_upper}
use franco_db.Parser.Token.{TokenType, Token, invalid, string_lit}
use franco_db.Parser.Keywords.{find_keyword}
use franco_db.Parser.Lexer.{
  next_is, Scan, put, scan, scan_signed, keyword_or_identifier, type_of_scan,
  read_identifier_or_number, until_quote, read_string, skip, comparison, symbol_type, read_symbol,
  token_at,
}
use franco_db.Parser.Lexer.Lexeme.{
  is_word, letters, Numeral, whole, fraction, Lexeme, word, positive, negative, quoted, symbol,
  strict, or_equal,
}
use franco_db.Parser.Lexer.Runs.{before, scan-run, scan-Digits, scan-fraction}

unfoldable token_of : Scan → Token × List ℕ
token_of r = (record { type = type_of_scan r; text = r.read }, r.rest)

-- A numeral, perhaps behind a sign, is read with the type that it has.
token_of-numeral :
    (p : List ℕ) (t : TokenType) (w s : List ℕ)
    → Numeral t w
    → token_of (before p (scan false false (w ++ 32 ∷ s)))
      ≡ (record { type = t; text = p ++ w }, 32 ∷ s)
unfolding token_of before type_of_scan
token_of-numeral p t w s (whole c v h i) =
    ap (λ r. token_of (before p r)) (scan-Digits false (c ∷ v) s (h, i))
token_of-numeral p t w s (fraction c d u v h i j k) =
    ap (λ m. token_of (before p (scan false false m)))
      (append_assoc (c ∷ u) (b'.' ∷ d ∷ v) (32 ∷ s))
    ∙ ap (λ r. token_of (before p r)) (scan-fraction d (c ∷ u) v s (h, i) j k)

until_quote-quoted :
    (w s : List ℕ) → Each (λ c. (c == b'\'') ≡ false) w → until_quote (w ++ b'\'' ∷ s) ≡ (w, s)
unfolding until_quote
until_quote-quoted [] s h = refl
until_quote-quoted (c ∷ w) s h = rw (h.0, until_quote-quoted w s h.1) refl

not_sign : (c : ℕ) → is_alnum c ≡ true → (c == b'-') ≡ false
unfolding is_alnum is_alpha is_lower is_digit
not_sign c h = ground arith

read_negative :
    (t : TokenType) (w s : List ℕ)
    → Numeral t w
    → read_identifier_or_number (b'-' ∷ w ++ 32 ∷ s)
      ≡ (record { type = t; text = b'-' ∷ w }, 32 ∷ s)
unfolding read_identifier_or_number scan_signed put token_of before
read_negative t w s n = token_of-numeral (b'-' ∷ []) t w s n

-- Unless a sign comes first, the loop starts at once.
token_at-alnum :
    (c : ℕ) (s : List ℕ)
    → is_alnum c ≡ true
    → token_at (c ∷ s) ≡ token_of (scan false false (c ∷ s))
unfolding token_at read_identifier_or_number scan_signed token_of
token_at-alnum c s h = rw (h, not_sign c h) refl

next_is_digit-numeral :
    (t : TokenType) (w s : List ℕ) → Numeral t w → next_is is_digit (w ++ s) ≡ true
unfolding next_is
next_is_digit-numeral t w s (whole c v h i) = h
next_is_digit-numeral t w s (fraction c d u v h i j k) = h

pub digit-alnum : (c : ℕ) → is_digit c ≡ true → is_alnum c ≡ true
unfolding is_alnum
digit-alnum c h = ground arith

token_at-numeral :
    (t : TokenType) (w s : List ℕ)
    → Numeral t w
    → token_at (w ++ 32 ∷ s) ≡ token_of (scan false false (w ++ 32 ∷ s))
token_at-numeral t w s (whole c v h i) = token_at-alnum c (v ++ 32 ∷ s) (digit-alnum c h)
token_at-numeral t w s (fraction c d u v h i j k) =
    token_at-alnum c ((u ++ b'.' ∷ d ∷ v) ++ 32 ∷ s) (digit-alnum c h)

token_of-before_nil : (r : Scan) → token_of (before [] r) ≡ token_of r
unfolding token_of before
token_of-before_nil r = refl

type_of_word :
    (w s : List ℕ)
    → letters false w ≡ true
    → token_of
        (record { read = w; has_letter = letters false w; has_decimal_point = false; rest = s })
      ≡ (record { type = keyword_or_identifier (find_keyword (map to_upper w)); text = w }, s)
unfolding token_of type_of_scan keyword_or_identifier
type_of_word w s h = rw h refl

token_at-quoted :
    (w s : List ℕ)
    → Each (λ c. (c == b'\'') ≡ false) w
    → token_at (b'\'' ∷ w ++ b'\'' ∷ s) ≡ (record { type = string_lit; text = w }, s)
unfolding token_at read_string is_alnum is_alpha is_lower is_digit
token_at-quoted w s h = rw (until_quote-quoted w s h) refl

-- Other characters than these start no token of their own.
token_at-symbol :
    (c : ℕ) (s : List ℕ)
    → symbol_type c ≢ invalid
    → token_at (c ∷ s) ≡ (record { type = symbol_type c; text = c ∷ [] }, s)
unfolding token_at read_symbol is_alnum is_alpha is_lower is_digit symbol_type
token_at-symbol c s h = ground arith

token_at-comparison :
    (c : ℕ) (s : List ℕ) → ((c == b'>') || (c == b'<')) ≡ true → token_at (c ∷ s) ≡ comparison c s
unfolding token_at read_symbol is_alnum is_alpha is_lower is_digit
token_at-comparison c s h = ground arith

token_at-negative :
    (t : TokenType) (w s : List ℕ)
    → Numeral t w
    → token_at (b'-' ∷ w ++ 32 ∷ s) ≡ (record { type = t; text = b'-' ∷ w }, 32 ∷ s)
unfolding token_at is_alnum is_alpha is_lower is_digit next_is
token_at-negative t w s n = rw (next_is_digit-numeral t w (32 ∷ s) n) (read_negative t w s n)

alnum_word : (c : ℕ) → is_alnum c ≡ true → is_word c ≡ true
alnum_word c h = ground arith

pub token_at-lexeme : (t : Token) (w s : List ℕ) → Lexeme t w → token_at (w ++ 32 ∷ s) ≡ (t, 32 ∷ s)
unfolding comparison skip next_is
token_at-lexeme t w s (word c v h i j) =
    token_at-alnum c (v ++ 32 ∷ s) h
    ∙ ap token_of (scan-run false false (c ∷ v) s (alnum_word c h, i))
    ∙ type_of_word (c ∷ v) (32 ∷ s) j
token_at-lexeme t w s (positive k v n) =
    token_at-numeral k v s n
    ∙ sym (token_of-before_nil (scan false false (v ++ 32 ∷ s)))
    ∙ token_of-numeral [] k v s n
token_at-lexeme t w s (negative k v n) = token_at-negative k v s n
token_at-lexeme t w s (quoted v h) =
    ap (λ m. token_at (b'\'' ∷ m)) (append_assoc v (b'\'' ∷ []) (32 ∷ s))
    ∙ token_at-quoted v (32 ∷ s) h
token_at-lexeme t w s (symbol c h) = token_at-symbol c (32 ∷ s) h
token_at-lexeme t w s (strict c h) = token_at-comparison c (32 ∷ s) h
token_at-lexeme t w s (or_equal c h) = token_at-comparison c (b'=' ∷ 32 ∷ s) h
