-- ===== src/Recovery/Codec.antt =====
-- The primitive fields of a log record: what LogManager (src/recovery/log_manager.cpp) appends to a
-- buffer and RecoveryManager (src/recovery/recovery_manager.cpp) reads from a stream. A stream is
-- the list of the bytes that are left; numbers are stored with the lowest byte first.
use franco_db.Prelude.{
  ℕ, zero, suc, ◌+◌, ◌*◌, ◌/◌, ◌%◌, ◌^◌, ◌≤◌, ◌<◌, ℤ, pos, ◌≡◌, refl, ap, ◌∙◌, arith, List, [], ◌∷◌,
  ◌++◌, length, Bool, true, false, ltb, if◌then◌else◌,
}
use mathlib.Core.Path.{ap₂}
use native.Mathlib.Numerals.{unary_clauses}
use franco_db.Storage.Memory.{to_word, of_word, Int32, of_word-to_word, to_word-lt}

-- The `n` bytes of `x`.
unfoldable pub bytes_of : ℕ → ℕ → List ℕ
bytes_of zero x = []
bytes_of (suc n) x = x % 256 ∷ bytes_of n (x / 256)

-- `in.read` into a variable of `n` bytes that holds `old`: a stream that ends leaves the rest of it.
unfoldable pub read_word : ℕ → ℕ → List ℕ → ℕ × List ℕ
read_word zero old s = (0, s)
read_word (suc n) old [] = (old, [])
read_word (suc n) old (b ∷ s) = let rest = read_word n (old / 256) s in (b + 256 * rest.0, rest.1)

-- `in.read` into a zeroed buffer of `n` bytes.
unfoldable pub read_bytes : ℕ → List ℕ → List ℕ × List ℕ
read_bytes zero s = ([], s)
read_bytes (suc n) [] = let rest = read_bytes n [] in (0 ∷ rest.0, [])
read_bytes (suc n) (b ∷ s) = let rest = read_bytes n s in (b ∷ rest.0, rest.1)

unfoldable pub write_int32 : ℤ → List ℕ
write_int32 x = bytes_of 4 (to_word x)

unfoldable pub write_uint64 : ℕ → List ℕ
write_uint64 x = bytes_of 8 x

-- The length is cast to a uint32_t.
unfoldable pub write_string : List ℕ → List ℕ
write_string str = bytes_of 4 (length str % 2 ^ 32) ++ str

-- A read of an int32_t into a variable that holds `old`.
unfoldable pub read_into : ℤ → List ℕ → ℤ × List ℕ
read_into old s = let r = read_word 4 (to_word old) s in (of_word r.0, r.1)

unfoldable pub read_int32 : List ℕ → ℤ × List ℕ
read_int32 s = read_into (pos 0) s

-- 10000000, the sanity check of ReadString and ReadLogRecord
abbrev pub max_length : ℕ
max_length = 10000000

-- The text behind a length that was read; `short` says that the length itself was cut off.
unfoldable pub read_text : (short : Bool) → ℕ × List ℕ → List ℕ × List ℕ
read_text true len = ([], len.1)
read_text false len = if ltb max_length len.0 then ([], len.1) else read_bytes len.0 len.1

unfoldable pub read_string : List ℕ → List ℕ × List ℕ
read_string s = read_text (ltb (length s) 4) (read_word 4 0 s)

split_byte : (x : ℕ) → x % 256 + 256 * (x / 256) ≡ x
split_byte x = omega arith

quotient_fits : (p x : ℕ) → x < p * 256 → x / 256 < p
quotient_fits p x h = omega arith

-- What is written is read back, and the stream goes on behind it.
pub read_word-bytes_of :
    (n old x : ℕ) (s : List ℕ) → x < 256 ^ n → read_word n old (bytes_of n x ++ s) ≡ (x, s)
unfolding read_word bytes_of
read_word-bytes_of zero old x s h = ap (λ v. (v, s)) (omega arith)
read_word-bytes_of (suc n) old x s h =
    ap (λ r. (x % 256 + 256 * r.0, r.1))
      (read_word-bytes_of n (old / 256) (x / 256) s
        (quotient_fits (256 ^ n) x (simp unary_clauses at h)))
    ∙ ap (λ v. (v, s)) (split_byte x)

-- How far a read gets does not depend on the number.
pub read_word-rest : (n old x : ℕ) (s : List ℕ) → (read_word n old (bytes_of n x ++ s)).1 ≡ s
unfolding read_word bytes_of
read_word-rest zero old x s = refl
read_word-rest (suc n) old x s = read_word-rest n (old / 256) (x / 256) s

pub read_bytes-append : (bs s : List ℕ) → read_bytes (length bs) (bs ++ s) ≡ (bs, s)
unfolding read_bytes
read_bytes-append [] s = refl
read_bytes-append (b ∷ bs) s = ap (λ r. (b ∷ r.0, r.1)) (read_bytes-append bs s)

pub read_into-write_int32 :
    (old x : ℤ) (s : List ℕ) → Int32 x → read_into old (write_int32 x ++ s) ≡ (x, s)
unfolding read_into write_int32
read_into-write_int32 old x s h =
    ap (λ r. (of_word r.0, r.1)) (read_word-bytes_of 4 (to_word old) (to_word x) s (to_word-lt x h))
    ∙ ap (λ y. (y, s)) (of_word-to_word x h)

pub read_int32-write_int32 :
    (x : ℤ) (s : List ℕ) → Int32 x → read_int32 (write_int32 x ++ s) ≡ (x, s)
unfolding read_int32
read_int32-write_int32 x s h = read_into-write_int32 (pos 0) x s h

pub read_word-write_uint64 :
    (old x : ℕ) (s : List ℕ) → x < 2 ^ 64 → read_word 8 old (write_uint64 x ++ s) ≡ (x, s)
unfolding write_uint64
read_word-write_uint64 old x s h = read_word-bytes_of 8 old x s h

pub not_short : (n : ℕ) (s : List ℕ) → ltb (length (bytes_of 4 n ++ s)) 4 ≡ false
unfolding bytes_of
not_short n s = ground arith

not_long : (n : ℕ) → n ≤ max_length → ltb max_length n ≡ false
not_long n h = ground arith

read_text_lem :
    (n : ℕ) (str s : List ℕ)
    → n ≡ length str
    → n ≤ max_length
    → read_text false (n, str ++ s) ≡ (str, s)
unfolding read_text
read_text_lem n str s e h =
    rw (not_long n h) (ap (λ k. read_bytes k (str ++ s)) e ∙ read_bytes-append str s)

pub read_string-write_string :
    (str s : List ℕ) → length str ≤ max_length → read_string (write_string str ++ s) ≡ (str, s)
unfolding read_string write_string bytes_of
read_string-write_string str s h =
    ap₂ read_text (not_short (length str % 2 ^ 32) (str ++ s))
      (read_word-bytes_of 4 0 (length str % 2 ^ 32) (str ++ s) (omega arith))
    ∙ read_text_lem (length str % 2 ^ 32) str s (omega arith) (omega arith)
