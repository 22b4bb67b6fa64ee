-- ===== src/Parser/Keywords/Commands.antt =====
-- kKeywords of src/parser/lexer.cpp, lines 10 to 123: commands, users, the server's state, columns.
use franco_db.Prelude.{ℕ, List, [], ◌∷◌}
use franco_db.Parser.Text.{text}
use franco_db.Parser.Token.{
  TokenType, select, from, where_kw, create, delete_cmd, update_set, update_cmd, table, database,
  use_kw, login, user, role, show, whoami, status, databases, pass, describe, alter, add, drop,
  rename, column, insert, into, values, index,
}

abbrev pub command_words : List (List ℕ × TokenType)
command_words =
    (text "SELECT", select)
    ∷ (text "2E5TAR", select)
    ∷ (text "FROM", from)
    ∷ (text "MEN", from)
    ∷ (text "WHERE", where_kw)
    ∷ (text "LAMA", where_kw)
    ∷ (text "INSERT", insert)
    ∷ (text "EMLA", insert)
    ∷ (text "INTO", into)
    ∷ (text "GOWA", into)
    ∷ (text "VALUES", values)
    ∷ (text "ELKEYAM", values)
    ∷ (text "UPDATE", update_cmd)
    ∷ (text "3ADEL", update_cmd)
    ∷ (text "SET", update_set)
    ∷ (text "5ALY", update_set)
    ∷ (text "DELETE", delete_cmd)
    ∷ (text "2EMSA7", delete_cmd)
    ∷ (text "CREATE", create)
    ∷ (text "2E3MEL", create)
    ∷ (text "DROP", drop)
    ∷ (text "ALTER", alter)
    ∷ (text "TABLE", table)
    ∷ (text "GADWAL", table)
    ∷ (text "DATABASE", database)
    ∷ (text "DATABASES", databases)
    ∷ (text "INDEX", index)
    ∷ (text "FEHRIS", index)
    ∷ (text "USE", use_kw)
    ∷ (text "2ESTA5DEM", use_kw)
    ∷ (text "LOGIN", login)
    ∷ (text "USER", user)
    ∷ (text "MOSTA5DEM", user)
    ∷ (text "3ABD", user)
    ∷ (text "ROLE", role)
    ∷ (text "WAZEFA", role)
    ∷ (text "DOWR", role)
    ∷ (text "PASSWORD", pass)
    ∷ (text "PASS", pass)
    ∷ (text "SHOW", show)
    ∷ (text "WARENY", show)
    ∷ (text "WHOAMI", whoami)
    ∷ (text "ANAMEEN", whoami)
    ∷ (text "STATUS", status)
    ∷ (text "7ALAH", status)
    ∷ (text "DESCRIBE", describe)
    ∷ (text "DESC", describe)
    ∷ (text "WASF", describe)
    ∷ (text "ADD", add)
    ∷ (text "ADAF", add)
    ∷ (text "RENAME", rename)
    ∷ (text "GHAYER_ESM", rename)
    ∷ (text "COLUMN", column)
    ∷ (text "3AMOD", column)
    ∷ []
