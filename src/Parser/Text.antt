-- ===== src/Parser/Text.antt =====
-- Characters and texts: a character is its code, as a `char` of the C locale, and a `std::string`
-- is the list of its characters. The tests are those of <cctype>.
use Prim.Native.Char.{code}
use Prim.Native.String.{String}
use franco_db.Prelude.{ℕ, ◌-◌, Bool, ◌&&◌, ◌||◌, List, [], ◌∷◌, leb, ◌==◌, if◌then◌else◌}

-- A literal.
abbrev pub text : String → List ℕ
text String.[] = []
text (String.◌∷◌ c s) = code c ∷ text s

unfoldable pub is_digit : ℕ → Bool
is_digit c = leb b'0' c && leb c b'9'

unfoldable pub is_lower : ℕ → Bool
is_lower c = leb b'a' c && leb c b'z'

unfoldable pub is_alpha : ℕ → Bool
unfolding is_lower
is_alpha c = is_lower c || (leb b'A' c && leb c b'Z')

unfoldable pub is_alnum : ℕ → Bool
is_alnum c = is_alpha c || is_digit c

-- Tab to carriage return, and the blank.
unfoldable pub is_space : ℕ → Bool
is_space c = (leb 9 c && leb c 13) || (c == 32)

unfoldable pub to_upper : ℕ → ℕ
to_upper c = if is_lower c then c - 32 else c
