-- ===== src/Parser/Words.antt =====
-- Which words kKeywords of src/parser/lexer.cpp gives which type, and the names that
-- Lexer::GetTokenTypeName has for the types.
use franco_db.Prelude.{
  ℕ, ◌≡◌, refl, sym, ap, ◌∙◌, ◌≢◌, inl, inr, Bool, true, false, ◌||◌, Option, none, some, List, [],
  ◌∷◌, ==_iff, arith, Bool-cases, if◌then◌else◌,
}
use franco_db.Parser.Text.{text}
use franco_db.Parser.Token.{
  TokenType, select, from, where_kw, create, delete_cmd, update_set, update_cmd, table, database,
  use_kw, login, user, role, show, whoami, status, databases, pass, describe, alter, add, drop,
  modify, rename, column, insert, into, values, role_superadmin, role_admin, role_normal,
  role_readonly, role_denied, int_type, string_type, bool_type, date_type, decimal_type, index,
  primary_key, on, group, by, having, count, sum, avg, min_agg, max_agg, order, asc, desc, limit,
  offset, distinct, all, join, inner, left, right, outer, cross, foreign, key, references, cascade,
  restrict, set, no, action, null_lit, not_kw, default_kw, unique, check, auto_increment, if_kw,
  exists, decimal_literal, true_lit, false_lit, identifier, number, string_lit, begin_txn, rollback,
  commit, and_kw, or_kw, in_op, comma, l_paren, r_paren, semicolon, equals, star, gt, lt, eof_token,
  invalid, checkpoint, recover, to, latest, now, current, as_kw, of_kw, ai, anomalies, execution,
  stats, stop, shutdown,
}
use franco_db.Parser.Keywords.{eqb_text, lookup, get_keywords, find_keyword}
use franco_db.Parser.Names.{get_token_type_name}

eqb_text-eq : (s t : List ℕ) → eqb_text s t ≡ true → s ≡ t
unfolding eqb_text
eqb_text-eq [] [] h = refl
eqb_text-eq [] (d ∷ t) h = absurd (ground arith)
eqb_text-eq (c ∷ s) [] h = absurd (ground arith)
eqb_text-eq (c ∷ s) (d ∷ t) h = cc ((==_iff c d).0 (ground arith), eqb_text-eq s t (ground arith))

is_unique : TokenType → Bool
is_unique unique = true
is_unique _ = false

gives_unique : Option TokenType → Bool
gives_unique none = false
gives_unique (some t) = is_unique t

-- The keys of the entries for UNIQUE.
unique_keys : List (List ℕ × TokenType) → List (List ℕ)
unique_keys [] = []
unique_keys ((k, t) ∷ entries) =
    let rest = unique_keys entries in if is_unique t then k ∷ rest else rest

among : List ℕ → List (List ℕ) → Bool
among word [] = false
among word (k ∷ keys) = eqb_text k word || among word keys

among-lookup :
    (entries : List (List ℕ × TokenType)) (word : List ℕ)
    → gives_unique (lookup entries word) ≡ true
    → among word (unique_keys entries) ≡ true
unfolding lookup gives_unique unique_keys among
among-lookup [] word h = absurd (ground arith)
among-lookup ((k, t) ∷ entries) word h = elim (Bool-cases (eqb_text k word)) [
  | inl e ↦ found e (rw (e, lookup) at h)
  | inr e ↦ later (among-lookup entries word (rw (e, lookup) at h))
]
  where
    or_true : (b : Bool) → (b || true) ≡ true
    or_true b = ground arith

    found :
        eqb_text k word ≡ true
        → is_unique t ≡ true
        → among word (unique_keys ((k, t) ∷ entries)) ≡ true
    found e h = rw (h, e) refl

    later :
        among word (unique_keys entries) ≡ true → among word (unique_keys ((k, t) ∷ entries)) ≡ true
    later i = elim (Bool-cases (is_unique t)) [
      | inl f ↦ rw (f, i) (or_true (eqb_text k word))
      | inr f ↦ rw f i
    ]

unique_keys-get_keywords : unique_keys get_keywords ≡ text "UNIQUE" ∷ text "WAHED" ∷ []
unfolding unique_keys get_keywords is_unique
unique_keys-get_keywords = refl

not_found : gives_unique (find_keyword (text "UNIQUE")) ≡ false
unfolding gives_unique find_keyword lookup get_keywords eqb_text is_unique
not_found = refl

-- Only the Franco word WAHED gives the type UNIQUE: the entry for the English word comes after one
-- that gives DISTINCT.
pub find_keyword-unique : (word : List ℕ) → find_keyword word ≡ some unique → word ≡ text "WAHED"
unfolding gives_unique is_unique among lookup find_keyword
find_keyword-unique word h = elim (Bool-cases (eqb_text (text "UNIQUE") word)) [
  | inl e ↦ absurd (
      true_false (
        sym (gives word h)
        ∙ ap (λ w. gives_unique (find_keyword w)) (sym (eqb_text-eq (text "UNIQUE") word e))
        ∙ not_found))
  | inr e ↦ sym (
      eqb_text-eq (text "WAHED") word (
        second e (
          ap (among word) (sym unique_keys-get_keywords)
          ∙ among-lookup get_keywords word (gives word h))))
]
  where
    gives : (w : List ℕ) → find_keyword w ≡ some unique → gives_unique (find_keyword w) ≡ true
    gives w h = rw h refl

    true_false : true ≢ false
    true_false e = ground arith

    second : {b c : Bool} → b ≡ false → (b || (c || false)) ≡ true → c ≡ true
    second e h = ground arith

-- These have a name that is no keyword of their own: three are not words, and three share their
-- word with an earlier entry.
abbrev pub IsSpelled : TokenType → Type 0
IsSpelled string_type = ⊥
IsSpelled decimal_type = ⊥
IsSpelled primary_key = ⊥
IsSpelled set = ⊥
IsSpelled desc = ⊥
IsSpelled unique = ⊥
IsSpelled t = get_token_type_name t ≢ text "UNKNOWN"

-- The name that GetTokenTypeName has for a type is a keyword of this type, save for the types that
-- it calls UNKNOWN, among them DESCRIBE, ALTER, ADD, DROP and IF, and for six more: three whose name
-- is no word, and three whose word an earlier entry gives to another type.
pub find_keyword-get_token_type_name :
    (t : TokenType) → IsSpelled t → find_keyword (get_token_type_name t) ≡ some t
unfolding find_keyword get_keywords lookup eqb_text get_token_type_name
find_keyword-get_token_type_name select h = refl
find_keyword-get_token_type_name from h = refl
find_keyword-get_token_type_name where_kw h = refl
find_keyword-get_token_type_name create h = refl
find_keyword-get_token_type_name delete_cmd h = refl
find_keyword-get_token_type_name update_set h = refl
find_keyword-get_token_type_name update_cmd h = refl
find_keyword-get_token_type_name table h = refl
find_keyword-get_token_type_name database h = refl
find_keyword-get_token_type_name use_kw h = refl
find_keyword-get_token_type_name login h = refl
find_keyword-get_token_type_name user h = refl
find_keyword-get_token_type_name role h = refl
find_keyword-get_token_type_name show h = refl
find_keyword-get_token_type_name whoami h = refl
find_keyword-get_token_type_name status h = refl
find_keyword-get_token_type_name databases h = refl
find_keyword-get_token_type_name pass h = refl
find_keyword-get_token_type_name describe h = absurd (h refl)
find_keyword-get_token_type_name alter h = absurd (h refl)
find_keyword-get_token_type_name add h = absurd (h refl)
find_keyword-get_token_type_name drop h = absurd (h refl)
find_keyword-get_token_type_name modify h = absurd (h refl)
find_keyword-get_token_type_name rename h = absurd (h refl)
find_keyword-get_token_type_name column h = absurd (h refl)
find_keyword-get_token_type_name insert h = refl
find_keyword-get_token_type_name into h = refl
find_keyword-get_token_type_name values h = refl
find_keyword-get_token_type_name role_superadmin h = refl
find_keyword-get_token_type_name role_admin h = refl
find_keyword-get_token_type_name role_normal h = refl
find_keyword-get_token_type_name role_readonly h = refl
find_keyword-get_token_type_name role_denied h = refl
find_keyword-get_token_type_name int_type h = refl
find_keyword-get_token_type_name string_type h = absurd h
find_keyword-get_token_type_name bool_type h = refl
find_keyword-get_token_type_name date_type h = refl
find_keyword-get_token_type_name decimal_type h = absurd h
find_keyword-get_token_type_name index h = refl
find_keyword-get_token_type_name primary_key h = absurd h
find_keyword-get_token_type_name on h = refl
find_keyword-get_token_type_name group h = refl
find_keyword-get_token_type_name by h = refl
find_keyword-get_token_type_name having h = refl
find_keyword-get_token_type_name count h = refl
find_keyword-get_token_type_name sum h = refl
find_keyword-get_token_type_name avg h = refl
find_keyword-get_token_type_name min_agg h = refl
find_keyword-get_token_type_name max_agg h = refl
find_keyword-get_token_type_name order h = refl
find_keyword-get_token_type_name asc h = refl
find_keyword-get_token_type_name desc h = absurd h
find_keyword-get_token_type_name limit h = refl
find_keyword-get_token_type_name offset h = refl
find_keyword-get_token_type_name distinct h = refl
find_keyword-get_token_type_name all h = refl
find_keyword-get_token_type_name join h = refl
find_keyword-get_token_type_name inner h = refl
find_keyword-get_token_type_name left h = refl
find_keyword-get_token_type_name right h = refl
find_keyword-get_token_type_name outer h = refl
find_keyword-get_token_type_name cross h = refl
find_keyword-get_token_type_name foreign h = refl
find_keyword-get_token_type_name key h = refl
find_keyword-get_token_type_name references h = refl
find_keyword-get_token_type_name cascade h = refl
find_keyword-get_token_type_name restrict h = refl
find_keyword-get_token_type_name set h = absurd h
find_keyword-get_token_type_name no h = refl
find_keyword-get_token_type_name action h = refl
find_keyword-get_token_type_name null_lit h = refl
find_keyword-get_token_type_name not_kw h = refl
find_keyword-get_token_type_name default_kw h = refl
find_keyword-get_token_type_name unique h = absurd h
find_keyword-get_token_type_name check h = refl
find_keyword-get_token_type_name auto_increment h = refl
find_keyword-get_token_type_name if_kw h = absurd (h refl)
find_keyword-get_token_type_name exists h = absurd (h refl)
find_keyword-get_token_type_name decimal_literal h = absurd (h refl)
find_keyword-get_token_type_name true_lit h = refl
find_keyword-get_token_type_name false_lit h = refl
find_keyword-get_token_type_name identifier h = absurd (h refl)
find_keyword-get_token_type_name number h = absurd (h refl)
find_keyword-get_token_type_name string_lit h = absurd (h refl)
find_keyword-get_token_type_name begin_txn h = refl
find_keyword-get_token_type_name rollback h = refl
find_keyword-get_token_type_name commit h = refl
find_keyword-get_token_type_name and_kw h = refl
find_keyword-get_token_type_name or_kw h = refl
find_keyword-get_token_type_name in_op h = refl
find_keyword-get_token_type_name comma h = absurd (h refl)
find_keyword-get_token_type_name l_paren h = absurd (h refl)
find_keyword-get_token_type_name r_paren h = absurd (h refl)
find_keyword-get_token_type_name semicolon h = absurd (h refl)
find_keyword-get_token_type_name equals h = absurd (h refl)
find_keyword-get_token_type_name star h = absurd (h refl)
find_keyword-get_token_type_name gt h = absurd (h refl)
find_keyword-get_token_type_name lt h = absurd (h refl)
find_keyword-get_token_type_name eof_token h = absurd (h refl)
find_keyword-get_token_type_name invalid h = absurd (h refl)
find_keyword-get_token_type_name checkpoint h = refl
find_keyword-get_token_type_name recover h = refl
find_keyword-get_token_type_name to h = refl
find_keyword-get_token_type_name latest h = refl
find_keyword-get_token_type_name now h = refl
find_keyword-get_token_type_name current h = refl
find_keyword-get_token_type_name as_kw h = refl
find_keyword-get_token_type_name of_kw h = refl
find_keyword-get_token_type_name ai h = refl
find_keyword-get_token_type_name anomalies h = refl
find_keyword-get_token_type_name execution h = refl
find_keyword-get_token_type_name stats h = refl
find_keyword-get_token_type_name stop h = refl
find_keyword-get_token_type_name shutdown h = refl
