-- ===== src/Parser/Lexer/Runs.antt =====
-- What the loop of ReadIdentifierOrNumber, in src/parser/lexer.cpp, reads of a word or a numeral.
use mathlib.Core.List.{append-nil}
use franco_db.Prelude.{ℕ, ◌≡◌, refl, ap, ◌∙◌, Bool, true, false, ◌||◌, List, [], ◌∷◌, ◌++◌, arith}
use franco_db.Parser.Text.{is_digit, is_lower, is_alpha, is_alnum}
use franco_db.Parser.Lexer.{next_is, Scan, keep, point, turn, put, scan}
use franco_db.Parser.Lexer.Turns.{scan-keep, scan-point, scan-stop}
use franco_db.Parser.Lexer.Lexeme.{is_word, Word, Digits, letters}

unfoldable pub before : List ℕ → Scan → Scan
before w r = record r { read = w ++ r.read }

before-put : (c : ℕ) (w : List ℕ) (r : Scan) → put c (before w r) ≡ before (c ∷ w) r
unfolding before put
before-put c w r = refl

turn-word : (l d : Bool) (c : ℕ) (s : List ℕ) → is_word c ≡ true → turn l d c s ≡ keep
unfolding turn
turn-word l d c s h = rw h refl

scan-Word :
    (l d : Bool) (w s : List ℕ) → Word w → scan l d (w ++ s) ≡ before w (scan (letters l w) d s)
unfolding letters before
scan-Word l d [] s h = refl
scan-Word l d (c ∷ w) s h =
    scan-keep l d c (w ++ s) (turn-word l d c (w ++ s) h.0)
    ∙ ap (put c) (scan-Word (is_alpha c || l) d w s h.1)
    ∙ before-put c w (scan (letters (is_alpha c || l) w) d s)

abbrev finished : Bool → Bool → List ℕ → Scan
finished l d s = record { read = []; has_letter = l; has_decimal_point = d; rest = s }

-- The loop stops at a blank.
scan-blank : (l d : Bool) (s : List ℕ) → scan l d (32 ∷ s) ≡ finished l d (32 ∷ s)
unfolding turn is_alnum is_alpha is_lower is_digit
scan-blank l d s = scan-stop l d 32 s refl

pub Digits-Word : (w : List ℕ) → Digits w → Word w
unfolding is_alnum
Digits-Word [] h = tt
Digits-Word (c ∷ w) h = (ground (arith, h.0), Digits-Word w h.1)

not_alpha : (c : ℕ) → is_digit c ≡ true → is_alpha c ≡ false
unfolding is_alpha is_lower is_digit
not_alpha c h = ground arith

letters-Digits : (l : Bool) (w : List ℕ) → Digits w → letters l w ≡ l
unfolding letters
letters-Digits l [] h = refl
letters-Digits l (c ∷ w) h = rw (not_alpha c h.0) (letters-Digits l w h.1)

pub before-finished :
    (w : List ℕ) (l d : Bool) (s : List ℕ)
    → before w (finished l d s)
      ≡ record { read = w; has_letter = l; has_decimal_point = d; rest = s }
unfolding before
before-finished w l d s =
    ap (λ u. record { read = u; has_letter = l; has_decimal_point = d; rest = s }) (append-nil w)

-- What is left of a word, or of digits, before a blank.
pub scan-run :
    (l d : Bool) (w s : List ℕ)
    → Word w
    → scan l d (w ++ 32 ∷ s)
      ≡ record { read = w; has_letter = letters l w; has_decimal_point = d; rest = 32 ∷ s }
scan-run l d w s h =
    scan-Word l d w (32 ∷ s) h
    ∙ ap (before w) (scan-blank (letters l w) d s)
    ∙ before-finished w (letters l w) d (32 ∷ s)

pub scan-Digits :
    (d : Bool) (w s : List ℕ)
    → Digits w
    → scan false d (w ++ 32 ∷ s)
      ≡ record { read = w; has_letter = false; has_decimal_point = d; rest = 32 ∷ s }
scan-Digits d w s h =
    scan-run false d w s (Digits-Word w h)
    ∙ ap (λ l. record { read = w; has_letter = l; has_decimal_point = d; rest = 32 ∷ s })
        (letters-Digits false w h)

turn-point : (d : ℕ) (s : List ℕ) → is_digit d ≡ true → turn false false b'.' (d ∷ s) ≡ point
unfolding turn is_alnum is_alpha is_lower is_digit next_is
turn-point d s h = rw h refl

pub scan-fraction :
    (d : ℕ) (w v s : List ℕ)
    → Digits w
    → is_digit d ≡ true
    → Digits v
    → scan false false (w ++ (b'.' ∷ d ∷ v ++ 32 ∷ s)) ≡ record {
      read = w ++ b'.' ∷ d ∷ v;
      has_letter = false;
      has_decimal_point = true;
      rest = 32 ∷ s;
    }
unfolding before put
scan-fraction d w v s h i j =
    scan-Word false false w (b'.' ∷ d ∷ v ++ 32 ∷ s) (Digits-Word w h)
    ∙ ap (λ l. before w (scan l false (b'.' ∷ d ∷ v ++ 32 ∷ s))) (letters-Digits false w h)
    ∙ ap (before w) (
        scan-point false false b'.' (d ∷ v ++ 32 ∷ s) (turn-point d (v ++ 32 ∷ s) i)
        ∙ ap (put b'.') (scan-Digits true (d ∷ v) s (i, j)))
