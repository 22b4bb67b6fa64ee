-- ===== src/Parser/Lexer/Case.antt =====
-- Case does not matter to the lexer: the kinds of a text's tokens are those of the text in capitals.
use franco_db.Prelude.{
  ℕ, zero, suc, ◌≡◌, refl, sym, ap, ◌∙◌, inl, inr, Bool, true, false, ◌&&◌, ◌||◌, Option, none,
  some, List, [], ◌∷◌, map, length, ◌==◌, arith, Bool-cases,
}
use franco_db.Parser.Text.{is_digit, is_lower, is_alpha, is_alnum, is_space, to_upper}
use franco_db.Parser.Token.{Token, is_eof}
use franco_db.Parser.Lexer.{
  skip_whitespace, next_is, Scan, turn, put, scan, scan_signed, type_of_scan,
  read_identifier_or_number, until_quote, read_string, skip, comparison, symbol_type, read_symbol,
  token_at, next_token, prepend, tokenize_from, tokenize,
}
use franco_db.Parser.Lexer.Turns.{Turn-cases, scan-keep, scan-point, scan-stop}
use franco_db.Parser.Lexer.Consumes.{round}

abbrev up : List ℕ → List ℕ
up = map to_upper

to_upper_idem : (c : ℕ) → to_upper (to_upper c) ≡ to_upper c
unfolding to_upper is_lower
to_upper_idem c = ground arith

module _ (c : ℕ) where
  is_alnum-to_upper : is_alnum (to_upper c) ≡ is_alnum c
  unfolding is_alnum is_alpha is_lower is_digit to_upper
  is_alnum-to_upper = ground arith

  is_alpha-to_upper : is_alpha (to_upper c) ≡ is_alpha c
  unfolding is_alpha is_lower to_upper
  is_alpha-to_upper = ground arith

  is_digit-to_upper : is_digit (to_upper c) ≡ is_digit c
  unfolding is_digit is_lower to_upper
  is_digit-to_upper = ground arith

  is_space-to_upper : is_space (to_upper c) ≡ is_space c
  unfolding is_space is_lower to_upper
  is_space-to_upper = ground arith

  symbol_type-to_upper : symbol_type (to_upper c) ≡ symbol_type c
  unfolding symbol_type is_lower to_upper
  symbol_type-to_upper = ground arith

-- A character that is no letter's code stays itself, and no other becomes it.
eqb-to_upper : (c d : ℕ) → is_alpha d ≡ false → (to_upper c == d) ≡ (c == d)
unfolding is_alpha is_lower to_upper
eqb-to_upper c d h = ground arith

next_is_digit-up : (s : List ℕ) → next_is is_digit (up s) ≡ next_is is_digit s
unfolding next_is
next_is_digit-up [] = refl
next_is_digit-up (c ∷ s) = is_digit-to_upper c

next_is_equals-up : (s : List ℕ) → next_is (λ e. e == b'=') (up s) ≡ next_is (λ e. e == b'=') s
unfolding next_is is_alpha is_lower
next_is_equals-up [] = refl
next_is_equals-up (c ∷ s) = eqb-to_upper c b'=' refl

skip_whitespace-up : (s : List ℕ) → skip_whitespace (up s) ≡ up (skip_whitespace s)
unfolding skip_whitespace
skip_whitespace-up [] = refl
skip_whitespace-up (c ∷ s) =
    rw (is_space-to_upper c, skip_whitespace-up s)
      (elim (Bool-cases (is_space c)) [ inl e ↦ rw e refl | inr e ↦ rw e refl ])

skip-up : (s : List ℕ) → skip (up s) ≡ up (skip s)
unfolding skip
skip-up [] = refl
skip-up (c ∷ s) = refl

turn-up : (l d : Bool) (c : ℕ) (s : List ℕ) → turn l d (to_upper c) (up s) ≡ turn l d c s
unfolding turn is_alpha is_lower
turn-up l d c s =
    rw (is_alnum-to_upper c, eqb-to_upper c b'_' refl, eqb-to_upper c b'.' refl, next_is_digit-up s)
      refl

unfoldable up_scan : Scan → Scan
up_scan r = record r { read = up r.read; rest = up r.rest }

up_scan-put : (c : ℕ) (r : Scan) → up_scan (put c r) ≡ put (to_upper c) (up_scan r)
unfolding up_scan put
up_scan-put c r = refl

scan-up : (l d : Bool) (s : List ℕ) → scan l d (up s) ≡ up_scan (scan l d s)
unfolding scan up_scan put
scan-up l d [] = refl
scan-up l d (c ∷ s) = elim (Turn-cases (turn l d c s)) [
  | inl e ↦
      scan-keep l d (to_upper c) (up s) (turn-up l d c s ∙ e)
      ∙ rw (is_alpha-to_upper c, scan-up (is_alpha c || l) d s) refl
      ∙ sym (ap up_scan (scan-keep l d c s e))
  | inr (inl e) ↦
      scan-point l d (to_upper c) (up s) (turn-up l d c s ∙ e)
      ∙ rw (scan-up l true s) refl
      ∙ sym (ap up_scan (scan-point l d c s e))
  | inr (inr e) ↦
      scan-stop l d (to_upper c) (up s) (turn-up l d c s ∙ e)
      ∙ sym (ap up_scan (scan-stop l d c s e))
]

scan_signed-up : (s : List ℕ) → scan_signed (up s) ≡ up_scan (scan_signed s)
unfolding scan_signed is_alpha is_lower
scan_signed-up [] = scan-up false false []
scan_signed-up (c ∷ s) = rw (eqb-to_upper c b'-' refl) (elim (Bool-cases (c == b'-')) [
  | inl e ↦
      rw e
        (ap (put (to_upper c)) (scan-up false false s) ∙ sym (up_scan-put c (scan false false s)))
  | inr e ↦ rw e (scan-up false false (c ∷ s))
])

up-up : (s : List ℕ) → up (up s) ≡ up s
up-up [] = refl
up-up (c ∷ s) = cc (to_upper_idem c, up-up s)

type_of_scan-up_scan : (r : Scan) → type_of_scan (up_scan r) ≡ type_of_scan r
unfolding type_of_scan up_scan
type_of_scan-up_scan r = rw (up-up r.read) refl

-- A token whose text is in capitals.
unfoldable pub upper_token : Token → Token
upper_token t = record t { text = map to_upper t.text }

unfoldable up_result : Token × List ℕ → Token × List ℕ
up_result t = (upper_token t.0, up t.1)

read_identifier_or_number-up :
    (s : List ℕ) → read_identifier_or_number (up s) ≡ up_result (read_identifier_or_number s)
unfolding read_identifier_or_number up_result upper_token up_scan
read_identifier_or_number-up s =
    ap (λ r. (record { type = type_of_scan r; text = r.read }, r.rest)) (scan_signed-up s)
    ∙ ap (λ t. (record { type = t; text = up (scan_signed s).read }, up (scan_signed s).rest))
        (type_of_scan-up_scan (scan_signed s))

until_quote-up : (s : List ℕ) → until_quote (up s) ≡ (up (until_quote s).0, up (until_quote s).1)
unfolding until_quote is_alpha is_lower
until_quote-up [] = refl
until_quote-up (c ∷ s) =
    rw (eqb-to_upper c b'\'' refl, until_quote-up s)
      (elim (Bool-cases (c == b'\'')) [ inl e ↦ rw e refl | inr e ↦ rw e refl ])

read_string-up : (s : List ℕ) → read_string (up s) ≡ up_result (read_string s)
unfolding read_string up_result upper_token
read_string-up s = rw (until_quote-up s) refl

comparison-up : (c : ℕ) (s : List ℕ) → comparison (to_upper c) (up s) ≡ up_result (comparison c s)
unfolding comparison up_result upper_token to_upper is_lower
comparison-up c s =
    rw (next_is_equals-up s, skip-up s)
      (elim (Bool-cases (next_is (λ e. e == b'=') s)) [ inl e ↦ rw e refl | inr e ↦ rw e refl ])

single-up :
    (c : ℕ) (s : List ℕ)
    → (record { type = symbol_type (to_upper c); text = to_upper c ∷ [] }, up s)
      ≡ up_result (record { type = symbol_type c; text = c ∷ [] }, s)
unfolding up_result upper_token
single-up c s = rw (symbol_type-to_upper c) refl

read_symbol-up :
    (c : ℕ) (s : List ℕ) → read_symbol (to_upper c) (up s) ≡ up_result (read_symbol c s)
unfolding read_symbol is_alpha is_lower
read_symbol-up c s =
    rw (eqb-to_upper c b'>' refl, eqb-to_upper c b'<' refl)
      (elim (Bool-cases ((c == b'>') || (c == b'<'))) [
        | inl e ↦ rw e (comparison-up c s)
        | inr e ↦ rw e (single-up c s)
      ])

token_at-up : (s : List ℕ) → token_at (up s) ≡ up_result (token_at s)
unfolding token_at up_result upper_token is_alpha is_lower
token_at-up [] = refl
token_at-up (c ∷ s) =
    rw
      (is_alnum-to_upper c, eqb-to_upper c b'-' refl, eqb-to_upper c b'\'' refl, next_is_digit-up s)
      (elim (Bool-cases (is_alnum c || ((c == b'-') && next_is is_digit s))) [
        | inl e ↦ rw e (read_identifier_or_number-up (c ∷ s))
        | inr e ↦ rw e (elim (Bool-cases (c == b'\'')) [
          | inl f ↦ rw f (read_string-up s)
          | inr f ↦ rw f (read_symbol-up c s)
        ])
      ])

next_token-up : (s : List ℕ) → next_token (up s) ≡ up_result (next_token s)
unfolding next_token
next_token-up s = ap token_at (skip_whitespace-up s) ∙ token_at-up (skip_whitespace s)

-- The tokens, their texts in capitals.
unfoldable pub upper_tokens : Option (List Token) → Option (List Token)
unfolding upper_token
upper_tokens none = none
upper_tokens (some ts) = some (map upper_token ts)

upper_tokens-prepend :
    (t : Token) (r : Option (List Token))
    → upper_tokens (prepend t r) ≡ prepend (upper_token t) (upper_tokens r)
unfolding upper_tokens prepend
upper_tokens-prepend t none = refl
upper_tokens-prepend t (some ts) = refl

module _ (fuel : ℕ)
    (ih : (s : List ℕ) → tokenize_from fuel (up s) ≡ upper_tokens (tokenize_from fuel s)) where
  round-up : (t : Token × List ℕ) → round fuel (up_result t) ≡ upper_tokens (round fuel t)
  unfolding round up_result upper_token upper_tokens
  round-up t = elim (Bool-cases (is_eof t.0.type)) [
    | inl e ↦ rw (e, round) refl
    | inr e ↦
        rw (e, round)
          (ap (prepend (upper_token t.0)) (ih t.1)
            ∙ sym (upper_tokens-prepend t.0 (tokenize_from fuel t.1)))
  ]

tokenize_from-up :
    (fuel : ℕ) (s : List ℕ) → tokenize_from fuel (up s) ≡ upper_tokens (tokenize_from fuel s)
unfolding tokenize_from upper_tokens round
tokenize_from-up zero s = refl
tokenize_from-up (suc fuel) s =
    ap (round fuel) (next_token-up s) ∙ round-up fuel (tokenize_from-up fuel) (next_token s)

length-up : (s : List ℕ) → length (up s) ≡ length s
length-up [] = refl
length-up (c ∷ s) = ap suc (length-up s)

-- The tokens of a text in capitals are the text's tokens, of the same types, in capitals: keywords
-- are found, and every other token is cut, whatever the case.
pub tokenize-to_upper : (s : List ℕ) → tokenize (map to_upper s) ≡ upper_tokens (tokenize s)
unfolding tokenize
tokenize-to_upper s =
    ap (λ n. tokenize_from (suc n) (up s)) (length-up s) ∙ tokenize_from-up (suc (length s)) s
