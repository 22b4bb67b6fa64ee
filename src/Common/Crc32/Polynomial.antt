-- ===== src/Common/Crc32/Polynomial.antt =====
-- The checksum as the division of the message by the polynomial, bit by bit, which the table of
-- src/include/common/crc32.h does a byte at a time.
use Prim.Native.Nat.{bit_xor}
use franco_db.Prelude.{
  ℕ, zero, suc, ◌+◌, ◌*◌, ◌/◌, ◌%◌, ◌<◌, ◌≡◌, refl, ap, arith, ◌∙◌, sym, ◌==◌, Bool, true, ◌&&◌,
  if◌then◌else◌, List, [], ◌∷◌, length, get_elem?, some, none, Each, ==_iff,
}
use mathlib.Core.Path.{ap₂}
use franco_db.Common.Xor.{
  bit_xor_half, bit_xor_parity, bit_xor_assoc, bit_xor_comm, bit_xor_zero, bit_xor_double,
  zero-bit_xor,
}
use franco_db.Common.Crc32.{crc_table, table_entry, feed, update, compute}

-- One bit: the polynomial 0xEDB88320 is subtracted when the bit that drops out is set.
unfoldable pub divide : ℕ → ℕ
divide crc = bit_xor (crc / 2) (if crc % 2 == 1 then 0xEDB88320 else 0)

unfoldable pub divide_bits : ℕ → ℕ → ℕ
divide_bits zero crc = crc
divide_bits (suc n) crc = divide_bits n (divide crc)

-- The register after a message, a byte at a time, bit by bit.
unfoldable pub divide_message : ℕ → List ℕ → ℕ
divide_message crc [] = crc
divide_message crc (byte ∷ bytes) = divide_message (divide_bits 8 (bit_xor crc byte)) bytes

-- Whether the entries are, from number `i` on, eight steps of the division each.
unfoldable divides : ℕ → List ℕ → Bool
divides i [] = true
divides i (e ∷ es) = e == divide_bits 8 i && divides (i + 1) es

divides-get_elem? :
    (es : List ℕ) (i k : ℕ)
    → divides i es ≡ true
    → k < length es
    → elim (get_elem? es k) [ some e ↦ e | none ↦ 0 ] ≡ divide_bits 8 (i + k)
unfolding divides
divides-get_elem? (e ∷ es) i zero h l =
    (==_iff e (divide_bits 8 i)).0 (ground arith) ∙ ap (divide_bits 8) (omega arith)
divides-get_elem? (e ∷ es) i (suc k) h l =
    divides-get_elem? es (i + 1) k (ground arith) (omega arith) ∙ ap (divide_bits 8) (omega arith)
divides-get_elem? [] i k h l = absurd (omega arith)

crc_table-divides : divides 0 crc_table ≡ true
unfolding divides divide_bits divide
crc_table-divides = refl

pub table_entry-divide_bits : (x : ℕ) → x < 256 → table_entry x ≡ divide_bits 8 x
unfolding table_entry
table_entry-divide_bits x h =
    divides-get_elem? crc_table 0 x crc_table-divides h ∙ ap (divide_bits 8) (omega arith)

-- The bit that drops out of an exclusive or.
selected : ℕ → ℕ
selected b = if b == 1 then 0xEDB88320 else 0

selected_xor :
    (a b : ℕ) → a < 2 → b < 2 → selected ((a + b) % 2) ≡ bit_xor (selected a) (selected b)
unfolding selected
selected_xor zero zero p q = refl
selected_xor zero (suc zero) p q = refl
selected_xor (suc zero) zero p q = refl
selected_xor (suc zero) (suc zero) p q = refl
selected_xor (suc (suc a)) b p q = absurd (omega arith)
selected_xor zero (suc (suc b)) p q = absurd (omega arith)
selected_xor (suc zero) (suc (suc b)) p q = absurd (omega arith)

exchange : (a b c d : ℕ) → bit_xor (bit_xor a b) (bit_xor c d) ≡ bit_xor (bit_xor a c) (bit_xor b d)
exchange a b c d =
    bit_xor_assoc a b (bit_xor c d)
    ∙ ap (bit_xor a)
        (sym (bit_xor_assoc b c d) ∙ ap (λ x. bit_xor x d) (bit_xor_comm b c) ∙ bit_xor_assoc c b d)
    ∙ sym (bit_xor_assoc a c (bit_xor b d))

-- The division is linear.
divide_xor : (a b : ℕ) → divide (bit_xor a b) ≡ bit_xor (divide a) (divide b)
unfolding divide selected
divide_xor a b =
    ap (λ x. bit_xor x (selected (bit_xor a b % 2))) (bit_xor_half a b)
    ∙ ap (λ x. bit_xor (bit_xor (a / 2) (b / 2)) (selected x)) (bit_xor_parity a b ∙ omega arith)
    ∙ ap (bit_xor (bit_xor (a / 2) (b / 2)))
        (selected_xor (a % 2) (b % 2) (omega arith) (omega arith))
    ∙ exchange (a / 2) (b / 2) (selected (a % 2)) (selected (b % 2))

divide_bits_xor :
    (n a b : ℕ) → divide_bits n (bit_xor a b) ≡ bit_xor (divide_bits n a) (divide_bits n b)
unfolding divide_bits
divide_bits_xor zero a b = refl
divide_bits_xor (suc n) a b =
    ap (divide_bits n) (divide_xor a b) ∙ divide_bits_xor n (divide a) (divide b)

-- `h` shifted up by `n` bits.
raise : ℕ → ℕ → ℕ
raise zero h = h
raise (suc n) h = 2 * raise n h

half_double : (h : ℕ) → 2 * h / 2 ≡ h
half_double h = omega arith

parity_double : (h : ℕ) → 2 * h % 2 ≡ 0
parity_double h = omega arith

below_one : (l : ℕ) → l < 1 → l ≡ 0
below_one l h = omega arith

divide-double : (h : ℕ) → divide (2 * h) ≡ h
unfolding divide selected
divide-double h =
    ap₂ (λ x y. bit_xor x (selected y)) (half_double h) (parity_double h) ∙ bit_xor_zero h

divide_bits-raise : (n h : ℕ) → divide_bits n (raise n h) ≡ h
unfolding divide_bits raise
divide_bits-raise zero h = refl
divide_bits-raise (suc n) h = ap (divide_bits n) (divide-double (raise n h)) ∙ divide_bits-raise n h

-- Below the lowest bit of a shifted number, exclusive or is addition.
bit_xor-raise : (n l h : ℕ) → l < raise n 1 → bit_xor l (raise n h) ≡ l + raise n h
unfolding raise
bit_xor-raise zero l h p = rw (below_one l p) (omega (arith, zero-bit_xor h))
bit_xor-raise (suc n) l h p =
    omega (arith, bit_xor_double l (raise n h), bit_xor-raise n (l / 2) h (omega arith))

split : (x : ℕ) → x ≡ bit_xor (x % 256) (raise 8 (x / 256))
split x = unfold raise in omega (arith, bit_xor-raise 8 (x % 256) (x / 256) (omega arith))

divide_byte : (x : ℕ) → divide_bits 8 x ≡ bit_xor (x / 256) (divide_bits 8 (x % 256))
unfolding raise
divide_byte x =
    ap (divide_bits 8) (split x)
    ∙ divide_bits_xor 8 (x % 256) (raise 8 (x / 256))
    ∙ ap (bit_xor (divide_bits 8 (x % 256))) (divide_bits-raise 8 (x / 256))
    ∙ bit_xor_comm (divide_bits 8 (x % 256)) (x / 256)

lower : ℕ → ℕ → ℕ
lower zero a = a
lower (suc n) a = lower n (a / 2)

lower_xor : (n a b : ℕ) → lower n (bit_xor a b) ≡ bit_xor (lower n a) (lower n b)
unfolding lower
lower_xor zero a b = refl
lower_xor (suc n) a b = ap (lower n) (bit_xor_half a b) ∙ lower_xor n (a / 2) (b / 2)

lower_eight : (a : ℕ) → lower 8 a ≡ a / 256
unfolding lower
lower_eight a = omega arith

below_byte : (b : ℕ) → b < 256 → b / 256 ≡ 0
below_byte b h = omega arith

high_byte : (crc byte : ℕ) → byte < 256 → bit_xor crc byte / 256 ≡ crc / 256
high_byte crc byte h =
    sym (lower_eight (bit_xor crc byte))
    ∙ lower_xor 8 crc byte
    ∙ ap₂ bit_xor (lower_eight crc) (lower_eight byte ∙ below_byte byte h)
    ∙ bit_xor_zero (crc / 256)

feed_lem : (crc byte : ℕ) → byte < 256 → feed crc byte ≡ divide_bits 8 (bit_xor crc byte)
unfolding feed
feed_lem crc byte h =
    ap₂ bit_xor (sym (high_byte crc byte h))
      (table_entry-divide_bits (bit_xor crc byte % 256) (omega arith))
    ∙ sym (divide_byte (bit_xor crc byte))

update-divide_message :
    (crc : ℕ) (bytes : List ℕ)
    → Each (λ b. b < 256) bytes
    → update crc bytes ≡ divide_message crc bytes
unfolding update divide_message
update-divide_message crc [] h = refl
update-divide_message crc (b ∷ bytes) h =
    ap (λ x. update x bytes) (feed_lem crc b h.0)
    ∙ update-divide_message (divide_bits 8 (bit_xor crc b)) bytes h.1

-- On a message of bytes, `compute` is the division of the message by the polynomial 0xEDB88320, a
-- bit at a time, from a register of ones and with the result inverted.
pub compute-divide_message :
    (bytes : List ℕ)
    → Each (λ b. b < 256) bytes
    → compute bytes ≡ bit_xor (divide_message 0xFFFFFFFF bytes) 0xFFFFFFFF
unfolding compute
compute-divide_message bytes h =
    ap (λ x. bit_xor x 0xFFFFFFFF) (update-divide_message 0xFFFFFFFF bytes h)
