-- ===== src/Parser/Keywords/Tables.antt =====
-- kKeywords of src/parser/lexer.cpp, lines 309 to 393: joins, foreign keys, constraints, the AI layer, stopping the server.
use franco_db.Prelude.{ℕ, List, [], ◌∷◌}
use franco_db.Parser.Text.{text}
use franco_db.Parser.Token.{
  TokenType, join, inner, left, right, outer, cross, foreign, references, cascade, restrict, no,
  action, null_lit, not_kw, default_kw, unique, check, auto_increment, ai, anomalies, execution,
  stats, stop, shutdown,
}

abbrev pub table_words : List (List ℕ × TokenType)
table_words =
    (text "JOIN", join)
    ∷ (text "ENTEDAH", join)
    ∷ (text "INNER", inner)
    ∷ (text "DA5ELY", inner)
    ∷ (text "LEFT", left)
    ∷ (text "SHMAL", left)
    ∷ (text "RIGHT", right)
    ∷ (text "YAMEN", right)
    ∷ (text "OUTER", outer)
    ∷ (text "5AREGY", outer)
    ∷ (text "CROSS", cross)
    ∷ (text "TAQATE3", cross)
    ∷ (text "FULL", outer)
    ∷ (text "FOREIGN", foreign)
    ∷ (text "REFERENCES", references)
    ∷ (text "YOSHEER", references)
    ∷ (text "CASCADE", cascade)
    ∷ (text "TATABE3", cascade)
    ∷ (text "RESTRICT", restrict)
    ∷ (text "MANE3", restrict)
    ∷ (text "NO", no)
    ∷ (text "ACTION", action)
    ∷ (text "E3RA2", action)
    ∷ (text "NULL", null_lit)
    ∷ (text "FADY", null_lit)
    ∷ (text "NOT", not_kw)
    ∷ (text "MESH", not_kw)
    ∷ (text "DEFAULT", default_kw)
    ∷ (text "EFRADY", default_kw)
    ∷ (text "UNIQUE", unique)
    ∷ (text "WAHED", unique)
    ∷ (text "CHECK", check)
    ∷ (text "FA7S", check)
    ∷ (text "AUTO_INCREMENT", auto_increment)
    ∷ (text "AUTOINCREMENT", auto_increment)
    ∷ (text "SERIAL", auto_increment)
    ∷ (text "TAZAYED", auto_increment)
    ∷ (text "AI", ai)
    ∷ (text "ZAKA2", ai)
    ∷ (text "ANOMALIES", anomalies)
    ∷ (text "SHOZOOZ", anomalies)
    ∷ (text "EXECUTION", execution)
    ∷ (text "TANFEEZ", execution)
    ∷ (text "STATS", stats)
    ∷ (text "E7SA2EYAT", stats)
    ∷ (text "STOP", stop)
    ∷ (text "WA2AF", stop)
    ∷ (text "SHUTDOWN", shutdown)
    ∷ (text "2AFOL", shutdown)
    ∷ []
