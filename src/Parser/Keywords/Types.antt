-- ===== src/Parser/Keywords/Types.antt =====
-- kKeywords of src/parser/lexer.cpp, lines 124 to 193: roles, data types, literals, logical operators.
use franco_db.Prelude.{ℕ, List, [], ◌∷◌}
use franco_db.Parser.Text.{text}
use franco_db.Parser.Token.{
  TokenType, role_superadmin, role_admin, role_normal, role_readonly, role_denied, int_type,
  string_type, bool_type, date_type, decimal_type, primary_key, on, key, true_lit, false_lit,
  and_kw, or_kw, in_op,
}

abbrev pub type_words : List (List ℕ × TokenType)
type_words =
    (text "SUPERADMIN", role_superadmin)
    ∷ (text "ADMIN", role_admin)
    ∷ (text "MODEER", role_admin)
    ∷ (text "NORMAL", role_normal)
    ∷ (text "3ADI", role_normal)
    ∷ (text "READONLY", role_readonly)
    ∷ (text "MOSHAHED", role_readonly)
    ∷ (text "DENIED", role_denied)
    ∷ (text "MAMNO3", role_denied)
    ∷ (text "INT", int_type)
    ∷ (text "INTEGER", int_type)
    ∷ (text "RAKAM", int_type)
    ∷ (text "VARCHAR", string_type)
    ∷ (text "TEXT", string_type)
    ∷ (text "STRING", string_type)
    ∷ (text "GOMLA", string_type)
    ∷ (text "BOOL", bool_type)
    ∷ (text "BOOLEAN", bool_type)
    ∷ (text "DATE", date_type)
    ∷ (text "DATETIME", date_type)
    ∷ (text "TARE5", date_type)
    ∷ (text "DECIMAL", decimal_type)
    ∷ (text "FLOAT", decimal_type)
    ∷ (text "DOUBLE", decimal_type)
    ∷ (text "KASR", decimal_type)
    ∷ (text "TRUE", true_lit)
    ∷ (text "AH", true_lit)
    ∷ (text "FALSE", false_lit)
    ∷ (text "LA", false_lit)
    ∷ (text "AND", and_kw)
    ∷ (text "WE", and_kw)
    ∷ (text "OR", or_kw)
    ∷ (text "AW", or_kw)
    ∷ (text "IN", in_op)
    ∷ (text "FE", in_op)
    ∷ (text "ON", on)
    ∷ (text "3ALA", on)
    ∷ (text "PRIMARY", primary_key)
    ∷ (text "ASASI", primary_key)
    ∷ (text "KEY", key)
    ∷ (text "MOFTA7", key)
    ∷ []
