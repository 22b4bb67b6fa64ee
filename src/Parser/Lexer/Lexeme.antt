-- ===== src/Parser/Lexer/Lexeme.antt =====
-- How tokens are spelled, independently of the lexer, for src/parser/lexer.cpp.
use franco_db.Prelude.{ℕ, ◌≡◌, ◌≢◌, Bool, true, false, ◌||◌, List, [], ◌∷◌, ◌++◌, map, ◌==◌, Each}
use franco_db.Parser.Text.{is_digit, is_alpha, is_alnum, to_upper}
use franco_db.Parser.Token.{
  TokenType, Token, identifier, invalid, number, decimal_literal, string_lit,
}
use franco_db.Parser.Keywords.{find_keyword}
use franco_db.Parser.Lexer.{keyword_or_identifier, symbol_type}

abbrev pub is_word : ℕ → Bool
is_word c = is_alnum c || (c == b'_')

abbrev pub Word : List ℕ → Type 0
Word = Each (λ c. is_word c ≡ true)

abbrev pub Digits : List ℕ → Type 0
Digits = Each (λ c. is_digit c ≡ true)

-- The flag of the loop behind these characters.
unfoldable pub letters : Bool → List ℕ → Bool
letters l [] = l
letters l (c ∷ w) = letters (is_alpha c || l) w

-- A digit, digits, and perhaps a point and more digits.
pub data Numeral : TokenType → List ℕ → Type 0 where
  whole : (c : ℕ) (w : List ℕ) → is_digit c ≡ true → Digits w → Numeral number (c ∷ w)
  fraction :
      (c d : ℕ) (w v : List ℕ)
      → is_digit c ≡ true
      → Digits w
      → is_digit d ≡ true
      → Digits v
      → Numeral decimal_literal (c ∷ w ++ b'.' ∷ d ∷ v)

-- How a token is spelled.
pub data Lexeme : Token → List ℕ → Type 0 where
  word :
      (c : ℕ) (w : List ℕ)
      → is_alnum c ≡ true
      → Word w
      → letters false (c ∷ w) ≡ true
      → Lexeme
          (record {
            type = keyword_or_identifier (find_keyword (map to_upper (c ∷ w)));
            text = c ∷ w;
          })
          (c ∷ w)
  positive : (t : TokenType) (w : List ℕ) → Numeral t w → Lexeme (record { type = t; text = w }) w
  negative :
      (t : TokenType) (w : List ℕ)
      → Numeral t w
      → Lexeme (record { type = t; text = b'-' ∷ w }) (b'-' ∷ w)
  quoted :
      (w : List ℕ)
      → Each (λ c. (c == b'\'') ≡ false) w
      → Lexeme (record { type = string_lit; text = w }) (b'\'' ∷ w ++ b'\'' ∷ [])
  symbol :
      (c : ℕ)
      → symbol_type c ≢ invalid
      → Lexeme (record { type = symbol_type c; text = c ∷ [] }) (c ∷ [])
  strict :
      (c : ℕ)
      → ((c == b'>') || (c == b'<')) ≡ true
      → Lexeme (record { type = identifier; text = c ∷ [] }) (c ∷ [])
  or_equal :
      (c : ℕ)
      → ((c == b'>') || (c == b'<')) ≡ true
      → Lexeme (record { type = identifier; text = c ∷ b'=' ∷ [] }) (c ∷ b'=' ∷ [])

-- The tokens' spellings, each before a blank.
pub data Lexemes : List Token → List ℕ → Type 0 where
  nil : Lexemes [] []
  cons :
      (t : Token) (ts : List Token) (w s : List ℕ)
      → Lexeme t w
      → Lexemes ts s
      → Lexemes (t ∷ ts) (w ++ 32 ∷ s)
