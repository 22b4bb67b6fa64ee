-- ===== src/Parser/Keywords/Queries.antt =====
-- kKeywords of src/parser/lexer.cpp, lines 244 to 308: grouping, ordering, limits, DISTINCT.
use franco_db.Prelude.{ℕ, List, [], ◌∷◌}
use franco_db.Parser.Text.{text}
use franco_db.Parser.Token.{
  TokenType, group, by, having, count, sum, avg, min_agg, max_agg, order, asc, desc, limit, offset,
  distinct, all,
}

abbrev pub query_words : List (List ℕ × TokenType)
query_words =
    (text "GROUP", group)
    ∷ (text "MAGMO3A", group)
    ∷ (text "BY", by)
    ∷ (text "B", by)
    ∷ (text "HAVING", having)
    ∷ (text "ETHA", having)
    ∷ (text "LAKEN", having)
    ∷ (text "COUNT", count)
    ∷ (text "3ADD", count)
    ∷ (text "SUM", sum)
    ∷ (text "MAG3MO3", sum)
    ∷ (text "AVG", avg)
    ∷ (text "AVERAGE", avg)
    ∷ (text "MOTOWASET", avg)
    ∷ (text "MIN", min_agg)
    ∷ (text "ASGAR", min_agg)
    ∷ (text "MAX", max_agg)
    ∷ (text "AKBAR", max_agg)
    ∷ (text "ORDER", order)
    ∷ (text "RATEB", order)
    ∷ (text "ASC", asc)
    ∷ (text "ASCENDING", asc)
    ∷ (text "TASE3DI", asc)
    ∷ (text "TALE3", asc)
    ∷ (text "DESC", desc)
    ∷ (text "DESCENDING", desc)
    ∷ (text "TANAZOLI", desc)
    ∷ (text "NAZL", desc)
    ∷ (text "LIMIT", limit)
    ∷ (text "7ADD", limit)
    ∷ (text "OFFSET", offset)
    ∷ (text "SKIP", offset)
    ∷ (text "EBDA2MEN", offset)
    ∷ (text "DISTINCT", distinct)
    ∷ (text "UNIQUE", distinct)
    ∷ (text "MOTA3MEZ", distinct)
    ∷ (text "ALL", all)
    ∷ (text "KOL", all)
    ∷ []
