-- ===== src/Parser/Keywords/Transactions.antt =====
-- kKeywords of src/parser/lexer.cpp, lines 194 to 243: transactions, recovery and time travel, IF EXISTS.
use franco_db.Prelude.{ℕ, List, [], ◌∷◌}
use franco_db.Parser.Text.{text}
use franco_db.Parser.Token.{
  TokenType, if_kw, exists, begin_txn, rollback, commit, checkpoint, recover, to, latest, now,
  current, as_kw, of_kw,
}

abbrev pub transaction_words : List (List ℕ × TokenType)
transaction_words =
    (text "BEGIN", begin_txn)
    ∷ (text "START", begin_txn)
    ∷ (text "2EBDA2", begin_txn)
    ∷ (text "COMMIT", commit)
    ∷ (text "2AKED", commit)
    ∷ (text "ROLLBACK", rollback)
    ∷ (text "2ERGA3", rollback)
    ∷ (text "UNDO", rollback)
    ∷ (text "CHECKPOINT", checkpoint)
    ∷ (text "SAVE", checkpoint)
    ∷ (text "RECOVER", recover)
    ∷ (text "ERGA3", recover)
    ∷ (text "TO", to)
    ∷ (text "ELA", to)
    ∷ (text "LATEST", latest)
    ∷ (text "A5ER", latest)
    ∷ (text "ASLHA", latest)
    ∷ (text "NOW", now)
    ∷ (text "DELWA2TY", now)
    ∷ (text "CURRENT", current)
    ∷ (text "7ALY", current)
    ∷ (text "AS", as_kw)
    ∷ (text "K", as_kw)
    ∷ (text "OF", of_kw)
    ∷ (text "IF", if_kw)
    ∷ (text "LAW", if_kw)
    ∷ (text "EXISTS", exists)
    ∷ (text "MAWGOOD", exists)
    ∷ []
