-- ===== src/Common/Xor.antt =====
-- The laws of exclusive or on numbers that the checksum of src/include/common/crc32.h needs, from
-- the one for the lowest digit.
use Prim.Native.Nat.{bit_xor, digits, differ, bit_xor-bitwise}
use franco_db.Prelude.{
  ℕ, zero, suc, ◌+◌, ◌-◌, ◌*◌, ◌/◌, ◌%◌, ◌≤◌, ◌<◌, ◌≡◌, refl, ap, arith, ◌∙◌, sym, ◌⊎◌, inl, inr,
}
use mathlib.Core.Path.{ap₂}

abbrev keep : ℕ → ℕ
keep b = b

-- A count of digits that suffices gives the same with one more, and so with `k` more.
one_more : (n a b : ℕ) → a ≤ n → digits keep differ (suc n) a b ≡ digits keep differ n a b
one_more n zero b h = no_digits n b
  where
    no_digits : (n b : ℕ) → b ≡ digits keep differ n 0 b
    no_digits zero b = refl
    no_digits (suc n) b = refl
one_more zero (suc a) b h = absurd (omega arith)
one_more (suc n) (suc a) b h = omega (arith, one_more n (suc a / 2) (b / 2) (omega arith))

more : ℕ → ℕ → ℕ
more zero n = n
more (suc k) n = suc (more k n)

more_eq : (k n : ℕ) → more k n ≡ k + n
unfolding more
more_eq zero n = omega arith
more_eq (suc k) n = omega (arith, more_eq k n)

enough : (k a b : ℕ) → digits keep differ (more k a) a b ≡ digits keep differ a a b
unfolding more
enough zero a b = refl
enough (suc k) a b = one_more (more k a) a b (omega (arith, more_eq k a)) ∙ enough k a b

halved_digits :
    (a b : ℕ) → digits keep differ a (suc a / 2) b ≡ digits keep differ (suc a / 2) (suc a / 2) b
halved_digits a b =
    let q = suc a / 2 in ap (λ n. digits keep differ n q b) (half_rest a) ∙ enough (a - q) q b
  where
    half_rest : (a : ℕ) → a ≡ more (a - suc a / 2) (suc a / 2)
    half_rest a = omega (arith, more_eq (a - suc a / 2) (suc a / 2))

pub zero-bit_xor : (b : ℕ) → bit_xor 0 b ≡ b
zero-bit_xor b = bit_xor-bitwise 0 b

pub bit_xor_step : (a b : ℕ) → bit_xor a b ≡ bit_xor (a / 2) (b / 2) * 2 + differ (a % 2) (b % 2)
bit_xor_step zero b = omega (arith, zero-bit_xor b, zero-bit_xor (b / 2))
bit_xor_step (suc a) b =
    omega (
      arith,
      bit_xor-bitwise (suc a) b,
      bit_xor-bitwise (suc a / 2) (b / 2),
      halved_digits a (b / 2),
    )

-- `differ` on two digits.
differ_mod : (a b : ℕ) → a < 2 → b < 2 → differ a b ≡ (a + b) % 2
differ_mod zero zero p q = refl
differ_mod zero (suc zero) p q = refl
differ_mod (suc zero) zero p q = refl
differ_mod (suc zero) (suc zero) p q = refl
differ_mod (suc (suc a)) b p q = absurd (omega arith)
differ_mod zero (suc (suc b)) p q = absurd (omega arith)
differ_mod (suc zero) (suc (suc b)) p q = absurd (omega arith)

no_more : (a : ℕ) → a ≤ 0 → a ≡ 0
no_more a h = omega arith

eq_or_pos : (a : ℕ) → (a ≡ 0) ⊎ (0 < a)
eq_or_pos zero = inl refl
eq_or_pos (suc a) = inr (omega arith)

pub bit_xor_half : (a b : ℕ) → bit_xor a b / 2 ≡ bit_xor (a / 2) (b / 2)
bit_xor_half a b =
    omega (arith, bit_xor_step a b, differ_mod (a % 2) (b % 2) (omega arith) (omega arith))

pub bit_xor_parity : (a b : ℕ) → bit_xor a b % 2 ≡ (a + b) % 2
bit_xor_parity a b =
    omega (arith, bit_xor_step a b, differ_mod (a % 2) (b % 2) (omega arith) (omega arith))

-- Two numbers are equal by their lowest digits and the rest.
by_digits : (a b : ℕ) → a / 2 ≡ b / 2 → a % 2 ≡ b % 2 → a ≡ b
by_digits a b p q = omega arith

comm_fuel : (n a b : ℕ) → a + b ≤ n → bit_xor a b ≡ bit_xor b a
comm_fuel zero a b h = rw (no_more a (omega arith), no_more b (omega arith)) refl
comm_fuel (suc n) a b h = elim (eq_or_pos (a + b)) [
  | inl e ↦ comm_fuel n a b (omega arith)
  | inr e ↦
      by_digits _ _
        (bit_xor_half a b ∙ comm_fuel n (a / 2) (b / 2) (omega arith) ∙ sym (bit_xor_half b a))
        (omega (arith, bit_xor_parity a b, bit_xor_parity b a))
]

pub bit_xor_comm : (a b : ℕ) → bit_xor a b ≡ bit_xor b a
bit_xor_comm a b = comm_fuel (a + b) a b (omega arith)

assoc_fuel : (n a b c : ℕ) → a + b + c ≤ n → bit_xor (bit_xor a b) c ≡ bit_xor a (bit_xor b c)
assoc_fuel zero a b c h =
    rw (no_more a (omega arith), no_more b (omega arith), no_more c (omega arith)) refl
assoc_fuel (suc n) a b c h = elim (eq_or_pos (a + b + c)) [
  | inl e ↦ assoc_fuel n a b c (omega arith)
  | inr e ↦
      by_digits _ _
        (bit_xor_half (bit_xor a b) c
          ∙ ap (λ x. bit_xor x (c / 2)) (bit_xor_half a b)
          ∙ assoc_fuel n (a / 2) (b / 2) (c / 2) (omega arith)
          ∙ sym (ap (bit_xor (a / 2)) (bit_xor_half b c))
          ∙ sym (bit_xor_half a (bit_xor b c)))
        (omega (
          arith,
          bit_xor_parity (bit_xor a b) c,
          bit_xor_parity a b,
          bit_xor_parity a (bit_xor b c),
          bit_xor_parity b c,
        ))
]

pub bit_xor_assoc : (a b c : ℕ) → bit_xor (bit_xor a b) c ≡ bit_xor a (bit_xor b c)
bit_xor_assoc a b c = assoc_fuel (a + b + c) a b c (omega arith)

self_fuel : (n a : ℕ) → a ≤ n → bit_xor a a ≡ 0
self_fuel zero a h = rw (no_more a h) refl
self_fuel (suc n) a h = elim (eq_or_pos a) [
  | inl e ↦ rw e refl
  | inr e ↦
      by_digits _ _ (bit_xor_half a a ∙ self_fuel n (a / 2) (omega arith))
        (omega (arith, bit_xor_parity a a))
]

pub bit_xor_self : (a : ℕ) → bit_xor a a ≡ 0
bit_xor_self a = self_fuel a a (omega arith)

pub bit_xor_zero : (a : ℕ) → bit_xor a 0 ≡ a
bit_xor_zero a = bit_xor_comm a 0 ∙ zero-bit_xor a

-- An even number keeps the lowest digit of the other.
pub bit_xor_double : (a b : ℕ) → bit_xor a (2 * b) ≡ bit_xor (a / 2) b * 2 + a % 2
bit_xor_double a b =
    bit_xor_step a (2 * b)
    ∙ ap₂ (λ x y. bit_xor (a / 2) x * 2 + y) (omega arith)
        (differ_mod (a % 2) (2 * b % 2) (omega arith) (omega arith) ∙ omega arith)
