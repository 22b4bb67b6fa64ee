-- ===== src/Parser/Token.antt =====
-- enum class TokenType and struct Token of src/include/parser/token.h.
use franco_db.Prelude.{ℕ, Bool, true, false, List}

-- In the enum's order; a name that antt has for itself ends in `_kw`.
pub data TokenType : Type 0 where
  select from where_kw create delete_cmd update_set update_cmd table database use_kw : TokenType
  login user role show whoami status databases pass describe alter add drop modify : TokenType
  rename column insert into values role_superadmin role_admin role_normal role_readonly : TokenType
  role_denied int_type string_type bool_type date_type decimal_type index primary_key on : TokenType
  group by having count sum avg min_agg max_agg order asc desc limit offset distinct all : TokenType
  join inner left right outer cross foreign key references cascade restrict set no : TokenType
  action null_lit not_kw default_kw unique check auto_increment if_kw exists : TokenType
  decimal_literal true_lit false_lit identifier number string_lit begin_txn rollback : TokenType
  commit and_kw or_kw in_op comma l_paren r_paren semicolon equals star gt lt eof_token : TokenType
  invalid checkpoint recover to latest now current as_kw of_kw ai anomalies execution : TokenType
  stats stop shutdown : TokenType

pub record Token : Type 0 where
  pub type : TokenType
  pub text : List ℕ

-- `type == TokenType::EOF_TOKEN`
unfoldable pub is_eof : TokenType → Bool
is_eof eof_token = true
is_eof _ = false
