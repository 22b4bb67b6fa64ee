-- ===== src/Parser/Lexer.antt =====
-- class Lexer of src/parser/lexer.cpp. The state, input and cursor, is the rest of the input from
-- the cursor on, so that `cursor_ < input_.length()` reads "the rest is not empty" and the
-- characters passed over are what `substr` takes.
pub mod Turns
pub mod Consumes
pub mod Case
pub mod Lexeme
pub mod Runs
pub mod Reads
pub mod RoundTrip
use franco_db.Prelude.{
  ℕ, zero, suc, Bool, true, false, not, ◌&&◌, ◌||◌, Option, none, some, List, [], ◌∷◌, map, length,
  ◌==◌, if◌then◌else◌,
}
use franco_db.Parser.Text.{text, is_digit, is_alpha, is_alnum, is_space, to_upper}
use franco_db.Parser.Token.{
  TokenType, Token, is_eof, identifier, number, decimal_literal, string_lit, star, comma, l_paren,
  r_paren, semicolon, equals, eof_token, invalid,
}
use franco_db.Parser.Keywords.{find_keyword}

unfoldable pub skip_whitespace : List ℕ → List ℕ
skip_whitespace [] = []
skip_whitespace (c ∷ s) = let rest = skip_whitespace s in if is_space c then rest else c ∷ s

-- `cursor_ < input_.length() && test(input_[cursor_])`
unfoldable pub next_is : (ℕ → Bool) → List ℕ → Bool
next_is test [] = false
next_is test (c ∷ s) = test c

-- What the loop of ReadIdentifierOrNumber leaves: the characters read, its flags, the rest.
pub record Scan : Type 0 where
  pub read : List ℕ
  pub has_letter : Bool
  pub has_decimal_point : Bool
  pub rest : List ℕ

-- The loop's three branches.
pub data Turn : Type 0 where
  keep point stop : Turn

unfoldable pub turn : Bool → Bool → ℕ → List ℕ → Turn
turn has_letter has_decimal_point c s =
    if is_alnum c || (c == b'_')
    then keep
    else (if (c == b'.') && (not has_letter && not has_decimal_point)
        then (if next_is is_digit s then point else stop)
        else stop)

unfoldable pub put : ℕ → Scan → Scan
put c r = record r { read = c ∷ r.read }

unfoldable pub scan : Bool → Bool → List ℕ → Scan
scan l d [] = record { read = []; has_letter = l; has_decimal_point = d; rest = [] }
scan l d (c ∷ s) = elim (turn l d c s) [
  | keep ↦ put c (scan (is_alpha c || l) d s)
  | point ↦ put c (scan l true s)
  | stop ↦ record { read = []; has_letter = l; has_decimal_point = d; rest = c ∷ s }
]

-- Behind the optional sign.
unfoldable pub scan_signed : List ℕ → Scan
scan_signed [] = scan false false []
scan_signed (c ∷ s) = if c == b'-' then put c (scan false false s) else scan false false (c ∷ s)

unfoldable pub keyword_or_identifier : Option TokenType → TokenType
keyword_or_identifier none = identifier
keyword_or_identifier (some t) = t

unfoldable pub type_of_scan : Scan → TokenType
type_of_scan r =
    if r.has_letter
    then keyword_or_identifier (find_keyword (map to_upper r.read))
    else (if r.has_decimal_point then decimal_literal else number)

unfoldable pub read_identifier_or_number : List ℕ → Token × List ℕ
read_identifier_or_number s =
    let r = scan_signed s in (record { type = type_of_scan r; text = r.read }, r.rest)

-- The characters up to the quote, and what stands behind it.
unfoldable pub until_quote : List ℕ → List ℕ × List ℕ
until_quote [] = ([], [])
until_quote (c ∷ s) = let r = until_quote s in if c == b'\'' then ([], s) else (c ∷ r.0, r.1)

-- The cursor stands behind the opening quote.
unfoldable pub read_string : List ℕ → Token × List ℕ
read_string s = let r = until_quote s in (record { type = string_lit; text = r.0 }, r.1)

unfoldable pub skip : List ℕ → List ℕ
skip [] = []
skip (c ∷ s) = s

-- '>' or '<', with the '=' that may follow.
unfoldable pub comparison : ℕ → List ℕ → Token × List ℕ
comparison c s =
    if next_is (λ e. e == b'=') s
    then (record { type = identifier; text = c ∷ b'=' ∷ [] }, skip s)
    else (record { type = identifier; text = c ∷ [] }, s)

unfoldable pub symbol_type : ℕ → TokenType
symbol_type c =
    if c == b'*'
    then star
    else (if c == b','
        then comma
        else (if c == b'('
            then l_paren
            else (if c == b')'
                then r_paren
                else (if c == b';' then semicolon else (if c == b'=' then equals else invalid)))))

-- The switch.
unfoldable pub read_symbol : ℕ → List ℕ → Token × List ℕ
read_symbol c s =
    if (c == b'>') || (c == b'<')
    then comparison c s
    else (record { type = symbol_type c; text = c ∷ [] }, s)

-- NextToken behind the white space.
unfoldable pub token_at : List ℕ → Token × List ℕ
token_at [] = (record { type = eof_token; text = [] }, [])
token_at (c ∷ s) =
    if is_alnum c || ((c == b'-') && next_is is_digit s)
    then read_identifier_or_number (c ∷ s)
    else (if c == b'\'' then read_string s else read_symbol c s)

unfoldable pub next_token : List ℕ → Token × List ℕ
next_token s = token_at (skip_whitespace s)

unfoldable pub prepend : Token → Option (List Token) → Option (List Token)
prepend t none = none
prepend t (some ts) = some (t ∷ ts)

-- The loop of Tokenize, on fuel.
unfoldable pub tokenize_from : ℕ → List ℕ → Option (List Token)
tokenize_from zero s = none
tokenize_from (suc fuel) s =
    let t = next_token s in
    elim (is_eof t.0.type) [ true ↦ some (t.0 ∷ []) | false ↦ prepend t.0 (tokenize_from fuel t.1) ]

unfoldable pub tokenize : List ℕ → Option (List Token)
tokenize s = tokenize_from (suc (length s)) s
