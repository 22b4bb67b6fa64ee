-- ===== src/Parser/Lexer/Consumes.antt =====
-- Tokenize ends: every token but the last takes at least one character off the input.
use franco_db.Prelude.{
  ℕ, zero, suc, ◌≤◌, ◌<◌, ◌≡◌, refl, sym, ap, ◌∙◌, ◌⊎◌, inl, inr, Bool, true, false, not, ◌&&◌,
  ◌||◌, Option, some, List, [], ◌∷◌, ◌++◌, map, length, ◌==◌, arith, Bool-cases,
}
use mathlib.Core.Path.{subst}
use franco_db.Parser.Text.{is_digit, is_alpha, is_alnum, to_upper}
use franco_db.Parser.Token.{TokenType, Token, is_eof, eof_token}
use franco_db.Parser.Keywords.{lookup, get_keywords, find_keyword, eqb_text}
use franco_db.Parser.Lexer.{
  skip_whitespace, next_is, Scan, keep, turn, put, scan_signed, keyword_or_identifier, type_of_scan,
  read_identifier_or_number, until_quote, read_string, skip, comparison, symbol_type, read_symbol,
  token_at, next_token, prepend, tokenize_from, tokenize,
}
use franco_db.Parser.Lexer.Turns.{scan-keep, length_rest-scan}

-- No keyword is the end of the input.
no_eof : List (List ℕ × TokenType) → Bool
no_eof [] = true
no_eof ((k, t) ∷ entries) = not (is_eof t) && no_eof entries

lookup-no_eof :
    (entries : List (List ℕ × TokenType)) (word : List ℕ)
    → no_eof entries ≡ true
    → is_eof (keyword_or_identifier (lookup entries word)) ≡ false
unfolding no_eof lookup keyword_or_identifier is_eof
lookup-no_eof [] word h = refl
lookup-no_eof ((k, t) ∷ entries) word h = elim (Bool-cases (eqb_text k word)) [
  | inl e ↦ rw e (ground arith)
  | inr e ↦ rw e (lookup-no_eof entries word (ground arith))
]

get_keywords-no_eof : no_eof get_keywords ≡ true
unfolding no_eof get_keywords is_eof
get_keywords-no_eof = refl

find_keyword-no_eof : (word : List ℕ) → is_eof (keyword_or_identifier (find_keyword word)) ≡ false
unfolding find_keyword
find_keyword-no_eof word = lookup-no_eof get_keywords word get_keywords-no_eof

type_of_scan-no_eof : (r : Scan) → is_eof (type_of_scan r) ≡ false
unfolding type_of_scan is_eof
type_of_scan-no_eof r = elim (Bool-cases r.has_letter) [
  | inl e ↦ rw e (find_keyword-no_eof (map to_upper r.read))
  | inr e ↦ rw e (elim (Bool-cases r.has_decimal_point) [ inl f ↦ rw f refl | inr f ↦ rw f refl ])
]

length-skip : (s : List ℕ) → length (skip s) ≤ length s
unfolding skip
length-skip [] = omega arith
length-skip (c ∷ s) = omega arith

turn-alnum :
    (c : ℕ) (s : List ℕ)
    → (c == b'-') ≡ false
    → (is_alnum c || ((c == b'-') && next_is is_digit s)) ≡ true
    → turn false false c s ≡ keep
unfolding turn
turn-alnum c s e h = ground arith

length_rest-scan_signed :
    (c : ℕ) (s : List ℕ)
    → (is_alnum c || ((c == b'-') && next_is is_digit s)) ≡ true
    → length (scan_signed (c ∷ s)).rest ≤ length s
unfolding scan_signed put
length_rest-scan_signed c s h = elim (Bool-cases (c == b'-')) [
  | inl e ↦ rw e (length_rest-scan false false s)
  | inr e ↦
      rw (e, scan-keep false false c s (turn-alnum c s e h))
        (length_rest-scan (is_alpha c || false) false s)
]

length-until_quote : (s : List ℕ) → length (until_quote s).1 ≤ length s
unfolding until_quote
length-until_quote [] = omega arith
length-until_quote (c ∷ s) = ground (arith, length-until_quote s)

length-comparison : (c : ℕ) (s : List ℕ) → length (comparison c s).1 ≤ length s
unfolding comparison
length-comparison c s = ground (arith, length-skip s)

length-read_symbol : (c : ℕ) (s : List ℕ) → length (read_symbol c s).1 ≤ length s
unfolding read_symbol
length-read_symbol c s = ground (arith, length-comparison c s)

pub length-token_at : (c : ℕ) (s : List ℕ) → length (token_at (c ∷ s)).1 ≤ length s
unfolding token_at read_identifier_or_number read_string
length-token_at c s = elim (Bool-cases (is_alnum c || ((c == b'-') && next_is is_digit s))) [
  | inl e ↦ rw e (length_rest-scan_signed c s e)
  | inr e ↦ rw e (ground (arith, length-until_quote s, length-read_symbol c s))
]

symbol_type-no_eof : (c : ℕ) → is_eof (symbol_type c) ≡ false
unfolding symbol_type is_eof
symbol_type-no_eof c = ground arith

comparison-no_eof : (c : ℕ) (s : List ℕ) → is_eof (comparison c s).0.type ≡ false
unfolding comparison is_eof
comparison-no_eof c s = ground arith

token_at-no_eof : (c : ℕ) (s : List ℕ) → is_eof (token_at (c ∷ s)).0.type ≡ false
unfolding token_at read_identifier_or_number read_string read_symbol is_eof
token_at-no_eof c s = elim (Bool-cases (is_alnum c || ((c == b'-') && next_is is_digit s))) [
  | inl e ↦ rw e (type_of_scan-no_eof (scan_signed (c ∷ s)))
  | inr e ↦ rw e (ground (arith, comparison-no_eof c s, symbol_type-no_eof c))
]

length-skip_whitespace : (s : List ℕ) → length (skip_whitespace s) ≤ length s
unfolding skip_whitespace
length-skip_whitespace [] = omega arith
length-skip_whitespace (c ∷ s) = ground (arith, length-skip_whitespace s)

token_at-progress :
    (s : List ℕ)
    → (token_at s ≡ (record { type = eof_token; text = [] }, []))
      ⊎ ((is_eof (token_at s).0.type ≡ false) × (length (token_at s).1 < length s))
unfolding token_at
token_at-progress [] = inl refl
token_at-progress (c ∷ s) = inr (token_at-no_eof c s, le_lt (length-token_at c s))
  where
    le_lt : {m n : ℕ} → m ≤ n → m < suc n
    le_lt h = omega arith

-- NextToken either reports the end, or takes characters off the input.
pub next_token-progress :
    (s : List ℕ)
    → (next_token s ≡ (record { type = eof_token; text = [] }, []))
      ⊎ ((is_eof (next_token s).0.type ≡ false) × (length (next_token s).1 < length s))
unfolding next_token
next_token-progress s = elim (token_at-progress (skip_whitespace s)) [
  | inl e ↦ inl e
  | inr h ↦ inr (h.0, le_trans h.1 (length-skip_whitespace s))
]
  where
    le_trans : {k m n : ℕ} → k < m → m ≤ n → k < n
    le_trans h i = omega arith

abbrev pub eof : Token
eof = record { type = eof_token; text = [] }

abbrev pub NoEof : List Token → Type 0
NoEof [] = Unit
NoEof (t ∷ ts) = (is_eof t.type ≡ false) × NoEof ts

-- The text's tokens: none is the end, and then the end.
abbrev pub Ended : List ℕ → Option (List Token) → Type 0
Ended s r = (ts : List Token) × (r ≡ some (ts ++ eof ∷ [])) × NoEof ts × (length ts ≤ length s)

-- A round of Tokenize, once the token is read.
unfoldable pub round : ℕ → Token × List ℕ → Option (List Token)
round fuel t = elim (is_eof t.0.type) [
  | true ↦ some (t.0 ∷ [])
  | false ↦ prepend t.0 (tokenize_from fuel t.1)
]

module _ (fuel : ℕ) (s : List ℕ) where
  pub tokenize_from-eof : next_token s ≡ (eof, []) → tokenize_from (suc fuel) s ≡ some (eof ∷ [])
  unfolding tokenize_from round is_eof
  tokenize_from-eof e = ap (round fuel) e

  pub tokenize_from-next :
      (t : Token) (rest : List ℕ)
      → next_token s ≡ (t, rest)
      → is_eof t.type ≡ false
      → tokenize_from (suc fuel) s ≡ prepend t (tokenize_from fuel rest)
  unfolding tokenize_from round
  tokenize_from-next t rest e h = ap (round fuel) e ∙ rw (h, round) refl

prepend-Ended :
    (t : Token) (s rest : List ℕ) (r : Option (List Token))
    → is_eof t.type ≡ false
    → length rest < length s
    → Ended rest r
    → Ended s (prepend t r)
unfolding prepend
prepend-Ended t s rest r h i (ts, e, k, l) = (t ∷ ts, ap (prepend t) e, (h, k), omega arith)

-- Enough fuel is one round more than there are characters.
tokenize_from-ends : (fuel : ℕ) (s : List ℕ) → length s < fuel → Ended s (tokenize_from fuel s)
tokenize_from-ends zero s h = absurd (omega arith)
tokenize_from-ends (suc fuel) s h = elim (next_token-progress s) [
  | inl e ↦ ([], tokenize_from-eof fuel s e, tt, zero_le (length s))
  | inr p ↦
      subst (Ended s) (sym (tokenize_from-next fuel s (next_token s).0 (next_token s).1 refl p.0)) (
        prepend-Ended (next_token s).0 s (next_token s).1 (tokenize_from fuel (next_token s).1) p.0
          p.1 (tokenize_from-ends fuel (next_token s).1 (narrow h p.1)))
]
  where
    zero_le : (n : ℕ) → 0 ≤ n
    zero_le n = omega arith

    narrow : {m n : ℕ} → n < suc fuel → m < n → m < fuel
    narrow h i = omega arith

-- Tokenize ends on every text: its result is at most as many tokens as the text has characters,
-- none of them the end of the input, and then the token for the end.
pub tokenize-ends : (s : List ℕ) → Ended s (tokenize s)
unfolding tokenize
tokenize-ends s = tokenize_from-ends (suc (length s)) s (below (length s))
  where
    below : (n : ℕ) → n < suc n
    below n = omega arith
