-- ===== src/Parser/Keywords.antt =====
-- kKeywords of src/parser/lexer.cpp, as the list of its entries in the order of the initialiser. A
-- `std::map` keeps the first entry of a key, and so does the lookup here.
pub mod Commands
pub mod Types
pub mod Transactions
pub mod Queries
pub mod Tables
use franco_db.Prelude.{
  ℕ, Bool, true, false, ◌&&◌, Option, none, some, List, [], ◌∷◌, ◌++◌, ◌==◌, if◌then◌else◌,
}
use franco_db.Parser.Token.{TokenType}
use franco_db.Parser.Keywords.Commands.{command_words}
use franco_db.Parser.Keywords.Types.{type_words}
use franco_db.Parser.Keywords.Transactions.{transaction_words}
use franco_db.Parser.Keywords.Queries.{query_words}
use franco_db.Parser.Keywords.Tables.{table_words}

unfoldable pub eqb_text : List ℕ → List ℕ → Bool
eqb_text [] [] = true
eqb_text (c ∷ s) (d ∷ t) = (c == d) && eqb_text s t
eqb_text _ _ = false

unfoldable pub lookup : List (List ℕ × TokenType) → List ℕ → Option TokenType
lookup [] word = none
lookup ((k, t) ∷ entries) word = if eqb_text k word then some t else lookup entries word

unfoldable pub get_keywords : List (List ℕ × TokenType)
get_keywords = command_words ++ (type_words ++ (transaction_words ++ (query_words ++ table_words)))

-- `kKeywords.find(upper_text)`
unfoldable pub find_keyword : List ℕ → Option TokenType
find_keyword word = lookup get_keywords word
