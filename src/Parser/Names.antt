-- ===== src/Parser/Names.antt =====
-- Lexer::GetTokenTypeName of src/parser/lexer.cpp.
use franco_db.Prelude.{ℕ, List}
use franco_db.Parser.Text.{text}
use franco_db.Parser.Token.{
  TokenType, select, from, where_kw, create, delete_cmd, update_set, update_cmd, table, database,
  use_kw, login, user, role, show, whoami, status, databases, pass, insert, into, values,
  role_superadmin, role_admin, role_normal, role_readonly, role_denied, int_type, string_type,
  bool_type, date_type, decimal_type, index, primary_key, on, group, by, having, count, sum, avg,
  min_agg, max_agg, order, asc, desc, limit, offset, distinct, all, join, inner, left, right, outer,
  cross, foreign, key, references, cascade, restrict, set, no, action, null_lit, not_kw, default_kw,
  unique, check, auto_increment, true_lit, false_lit, begin_txn, rollback, commit, and_kw, or_kw,
  in_op, checkpoint, recover, to, latest, now, current, as_kw, of_kw, ai, anomalies, execution,
  stats, stop, shutdown,
}

unfoldable pub get_token_type_name : TokenType → List ℕ
get_token_type_name select = text "SELECT"
get_token_type_name from = text "FROM"
get_token_type_name where_kw = text "WHERE"
get_token_type_name create = text "CREATE"
get_token_type_name database = text "DATABASE"
get_token_type_name databases = text "DATABASES"
get_token_type_name table = text "TABLE"
get_token_type_name use_kw = text "USE"
get_token_type_name login = text "LOGIN"
get_token_type_name delete_cmd = text "DELETE"
get_token_type_name update_set = text "SET"
get_token_type_name update_cmd = text "UPDATE"
get_token_type_name insert = text "INSERT"
get_token_type_name into = text "INTO"
get_token_type_name values = text "VALUES"
get_token_type_name user = text "USER"
get_token_type_name role = text "ROLE"
get_token_type_name pass = text "PASSWORD"
get_token_type_name show = text "SHOW"
get_token_type_name whoami = text "WHOAMI"
get_token_type_name status = text "STATUS"
get_token_type_name role_superadmin = text "SUPERADMIN"
get_token_type_name role_admin = text "ADMIN"
get_token_type_name role_normal = text "NORMAL"
get_token_type_name role_readonly = text "READONLY"
get_token_type_name role_denied = text "DENIED"
get_token_type_name int_type = text "INT"
get_token_type_name string_type = text "VARCHAR/STRING"
get_token_type_name bool_type = text "BOOL"
get_token_type_name date_type = text "DATE"
get_token_type_name decimal_type = text "DECIMAL/FLOAT"
get_token_type_name true_lit = text "TRUE"
get_token_type_name false_lit = text "FALSE"
get_token_type_name and_kw = text "AND"
get_token_type_name or_kw = text "OR"
get_token_type_name in_op = text "IN"
get_token_type_name on = text "ON"
get_token_type_name index = text "INDEX"
get_token_type_name primary_key = text "PRIMARY KEY"
get_token_type_name begin_txn = text "BEGIN"
get_token_type_name commit = text "COMMIT"
get_token_type_name rollback = text "ROLLBACK"
get_token_type_name checkpoint = text "CHECKPOINT"
get_token_type_name recover = text "RECOVER"
get_token_type_name to = text "TO"
get_token_type_name latest = text "LATEST"
get_token_type_name now = text "NOW"
get_token_type_name current = text "CURRENT"
get_token_type_name as_kw = text "AS"
get_token_type_name of_kw = text "OF"
get_token_type_name stop = text "STOP"
get_token_type_name shutdown = text "SHUTDOWN"
get_token_type_name ai = text "AI"
get_token_type_name anomalies = text "ANOMALIES"
get_token_type_name execution = text "EXECUTION"
get_token_type_name stats = text "STATS"
get_token_type_name group = text "GROUP"
get_token_type_name by = text "BY"
get_token_type_name having = text "HAVING"
get_token_type_name count = text "COUNT"
get_token_type_name sum = text "SUM"
get_token_type_name avg = text "AVG"
get_token_type_name min_agg = text "MIN"
get_token_type_name max_agg = text "MAX"
get_token_type_name order = text "ORDER"
get_token_type_name asc = text "ASC"
get_token_type_name desc = text "DESC"
get_token_type_name limit = text "LIMIT"
get_token_type_name offset = text "OFFSET"
get_token_type_name distinct = text "DISTINCT"
get_token_type_name all = text "ALL"
get_token_type_name join = text "JOIN"
get_token_type_name inner = text "INNER"
get_token_type_name left = text "LEFT"
get_token_type_name right = text "RIGHT"
get_token_type_name outer = text "OUTER"
get_token_type_name cross = text "CROSS"
get_token_type_name foreign = text "FOREIGN"
get_token_type_name key = text "KEY"
get_token_type_name references = text "REFERENCES"
get_token_type_name cascade = text "CASCADE"
get_token_type_name restrict = text "RESTRICT"
get_token_type_name set = text "SET"
get_token_type_name no = text "NO"
get_token_type_name action = text "ACTION"
get_token_type_name null_lit = text "NULL"
get_token_type_name not_kw = text "NOT"
get_token_type_name default_kw = text "DEFAULT"
get_token_type_name unique = text "UNIQUE"
get_token_type_name check = text "CHECK"
get_token_type_name auto_increment = text "AUTO_INCREMENT"
get_token_type_name _ = text "UNKNOWN"
