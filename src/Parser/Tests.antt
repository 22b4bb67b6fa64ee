-- ===== src/Parser/Tests.antt =====
-- The lexer of src/parser/lexer.cpp on concrete texts.
use franco_db.Prelude.{ℕ, ◌≡◌, refl, ap, arith, ◌≢◌, some, List, [], ◌∷◌, ◌++◌, map}
use franco_db.Parser.Text.{text, is_digit, is_lower, is_alpha, is_alnum, is_space, to_upper}
use franco_db.Parser.Token.{
  TokenType, Token, is_eof, select, identifier, number, string_lit, unique, distinct, from,
}
use franco_db.Parser.Keywords.{eqb_text, lookup, get_keywords, find_keyword}
use franco_db.Parser.Names.{get_token_type_name}
use franco_db.Parser.Words.{find_keyword-unique, find_keyword-get_token_type_name}
use franco_db.Parser.Lexer.{
  skip_whitespace, next_is, turn, put, scan, scan_signed, keyword_or_identifier, type_of_scan,
  read_identifier_or_number, until_quote, read_string, skip, comparison, symbol_type, read_symbol,
  token_at, next_token, prepend, tokenize_from, tokenize,
}
use franco_db.Parser.Lexer.Consumes.{eof, Ended, tokenize-ends}
use franco_db.Parser.Lexer.Case.{upper_tokens, tokenize-to_upper}
use franco_db.Parser.Lexer.Lexeme.{
  letters, word, negative, quoted, or_equal, whole, Lexemes, nil, cons,
}
use franco_db.Parser.Lexer.RoundTrip.{tokenize-Lexemes}

abbrev token : TokenType → List ℕ → Token
token t s = record { type = t; text = s }

abbrev query : List ℕ
query = text "2e5tar x1 >= -5 'It'"

abbrev tokens : List Token
tokens =
    token select (text "2e5tar")
    ∷ token identifier (text "x1")
    ∷ token identifier (text ">=")
    ∷ token number (text "-5")
    ∷ token string_lit (text "It")
    ∷ []

query_tokenized : tokenize query ≡ some (tokens ++ eof ∷ [])
unfolding tokenize tokenize_from next_token token_at skip_whitespace next_is turn put scan
    scan_signed keyword_or_identifier type_of_scan read_identifier_or_number until_quote read_string
    skip comparison symbol_type read_symbol prepend is_digit is_lower is_alpha is_alnum is_space
    to_upper is_eof find_keyword lookup get_keywords eqb_text
query_tokenized = refl

-- A string that is never closed, and a lone sign.
unclosed : tokenize (text "'a - ") ≡ some (token string_lit (text "a - ") ∷ eof ∷ [])
unfolding tokenize tokenize_from next_token token_at skip_whitespace next_is until_quote read_string
    skip prepend is_digit is_lower is_alpha is_alnum is_space is_eof
unclosed = refl

tokenize-ends_example : Ended query (tokenize query)
tokenize-ends_example = tokenize-ends query

tokenize-to_upper_example : tokenize (map to_upper query) ≡ upper_tokens (tokenize query)
tokenize-to_upper_example = tokenize-to_upper query

spelled : Lexemes tokens (query ++ 32 ∷ [])
unfolding letters is_alpha is_alnum is_lower is_digit keyword_or_identifier find_keyword lookup
    get_keywords eqb_text to_upper
spelled =
    cons (token select (text "2e5tar"))
      (token identifier (text "x1")
        ∷ token identifier (text ">=")
        ∷ token number (text "-5")
        ∷ token string_lit (text "It")
        ∷ [])
      (text "2e5tar") (text "x1 >= -5 'It' ")
      (word b'2' (text "e5tar") refl (refl, (refl, (refl, (refl, (refl, tt))))) refl)
      (cons (token identifier (text "x1"))
        (token identifier (text ">=")
          ∷ token number (text "-5")
          ∷ token string_lit (text "It")
          ∷ [])
        (text "x1") (text ">= -5 'It' ") (word b'x' (text "1") refl (refl, tt) refl)
        (cons (token identifier (text ">="))
          (token number (text "-5") ∷ token string_lit (text "It") ∷ []) (text ">=")
          (text "-5 'It' ") (or_equal b'>' refl)
          (cons (token number (text "-5")) (token string_lit (text "It") ∷ []) (text "-5")
            (text "'It' ") (negative number (text "5") (whole b'5' [] refl tt))
            (cons (token string_lit (text "It")) [] (text "'It'") []
              (quoted (text "It") (refl, (refl, tt))) nil))))

tokenize-Lexemes_example : tokenize (query ++ 32 ∷ []) ≡ some (tokens ++ eof ∷ [])
tokenize-Lexemes_example = tokenize-Lexemes tokens (query ++ 32 ∷ []) spelled

wahed : find_keyword (text "WAHED") ≡ some unique
unfolding find_keyword lookup get_keywords eqb_text
wahed = refl

find_keyword-unique_example : text "WAHED" ≡ text "WAHED"
find_keyword-unique_example = find_keyword-unique (text "WAHED") wahed

unique_is_distinct : find_keyword (text "UNIQUE") ≡ some distinct
unfolding find_keyword lookup get_keywords eqb_text
unique_is_distinct = refl

from_named : get_token_type_name from ≢ text "UNKNOWN"
unfolding get_token_type_name
from_named e = head_ne (ap head e)
  where
    head : List ℕ → ℕ
    head [] = 0
    head (c ∷ s) = c

    head_ne : ◌≢◌ {A = ℕ} 70 85
    head_ne e = omega (arith, e)

find_keyword-get_token_type_name_example : find_keyword (get_token_type_name from) ≡ some from
find_keyword-get_token_type_name_example = find_keyword-get_token_type_name from from_named
