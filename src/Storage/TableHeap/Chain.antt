-- ===== src/Storage/TableHeap/Chain.antt =====
-- The pages of a table, from one page on: the links lead through the pages of a list to the end.
use mathlib.Core.Path.{subst}
use franco_db.Prelude.{
  ℕ, suc, ◌≤◌, ℤ, invalid, eqb_ℤ, eqb_ℤ-eq, eqb_ℤ_refl, ◌≡◌, ◌≢◌, refl, sym, ap, ◌∙◌, inl, inr,
  Bool, true, false, ◌||◌, none, some, List, [], ◌∷◌, ◌++◌, length, arith, Bool-cases,
}
use franco_db.Storage.Memory.{Int32}
use franco_db.Storage.TablePage.{TablePage, get_next_page_id}
use franco_db.Storage.TablePage.Insert.{IsValid}
use franco_db.Storage.TableHeap.{Pages, put_page}

-- A well-formed page that knows its id.
pub record Well (id : ℤ) (p : TablePage) : Type 0 where
  pub formed : IsValid p.bytes
  pub named : p.page_id ≡ id
  pub small : Int32 id
  pub real : eqb_ℤ id invalid ≡ false

unfoldable pub has : ℤ → List ℤ → Bool
has a [] = false
has a (id ∷ ids) = eqb_ℤ a id || has a ids

pub data Chain (m : Pages) : ℤ → List ℤ → Type 0 where
  nil : Chain m invalid []
  cons :
      (id : ℤ) (p : TablePage) (ids : List ℤ)
      → m id ≡ some p
      → Well id p
      → has id ids ≡ false
      → Chain m (get_next_page_id p) ids
      → Chain m id (id ∷ ids)

eqb_ℤ_flip : (a b : ℤ) → eqb_ℤ a b ≡ false → eqb_ℤ b a ≡ false
unfolding eqb_ℤ
eqb_ℤ_flip a b h = ground arith

or_left : (b c : Bool) → (b || c) ≡ false → b ≡ false
or_left b c h = ground arith

or_right : (b c : Bool) → (b || c) ≡ false → c ≡ false
or_right b c h = ground arith

pub some_inj : {p q : TablePage} → some p ≡ some q → p ≡ q
some_inj h = cc

pub put_page_self : (m : Pages) (id : ℤ) (p : TablePage) → put_page m id p id ≡ some p
unfolding put_page
put_page_self m id p = rw (eqb_ℤ_refl id) refl

pub put_page_hit :
    (m : Pages) (id a : ℤ) (p : TablePage) → eqb_ℤ a id ≡ true → put_page m id p a ≡ some p
unfolding put_page
put_page_hit m id a p h = rw h refl

pub put_page_ne :
    (m : Pages) (id a : ℤ) (p : TablePage) → eqb_ℤ a id ≡ false → put_page m id p a ≡ m a
unfolding put_page
put_page_ne m id a p h = rw h refl

-- A change of a page outside the chain.
pub put_page-Chain :
    (m : Pages) (curr : ℤ) (p : TablePage) (start : ℤ) (ids : List ℤ)
    → has curr ids ≡ false
    → Chain m start ids
    → Chain (put_page m curr p) start ids
unfolding has
put_page-Chain m curr p start ids h nil = nil
put_page-Chain m curr p start ids h (cons id q rest e w fresh c) =
    cons id q rest
      (put_page_ne m curr id p (eqb_ℤ_flip curr id (or_left (eqb_ℤ curr id) (has curr rest) h)) ∙ e)
      w fresh
      (put_page-Chain m curr p (get_next_page_id q) rest
        (or_right (eqb_ℤ curr id) (has curr rest) h) c)

-- A change of a page that keeps its link.
pub replace-Chain :
    (m : Pages) (curr : ℤ) (p q : TablePage) (start : ℤ) (ids : List ℤ)
    → m curr ≡ some p
    → Well curr q
    → get_next_page_id q ≡ get_next_page_id p
    → Chain m start ids
    → Chain (put_page m curr q) start ids
replace-Chain m curr p q start ids e w n nil = nil
replace-Chain m curr p q start ids e w n (cons id r rest f v fresh c) =
    elim (Bool-cases (eqb_ℤ id curr)) [
      | inl k ↦
          let same = eqb_ℤ-eq id curr k in
          cons id q rest (put_page_hit m curr id q k) (subst (λ z. Well z q) (sym same) w) fresh (
            subst (λ z. Chain (put_page m curr q) z rest)
              (ap get_next_page_id (some_inj (sym f ∙ ap m same ∙ e)) ∙ sym n)
              (put_page-Chain m curr q (get_next_page_id r) rest
                (subst (λ z. has z rest ≡ false) same fresh) c))
      | inr k ↦
          cons id r rest (put_page_ne m curr id q k ∙ f) v fresh
            (replace-Chain m curr p q (get_next_page_id r) rest e w n c)
    ]

-- The chain from a page of it on.
pub suffix :
    (m : Pages) (start a : ℤ) (ids : List ℤ)
    → Chain m start ids
    → has a ids ≡ true
    → (tail : List ℤ) × Chain m a tail
      × (length tail ≤ length ids)
      × ((b : ℤ) → has b tail ≡ true → has b ids ≡ true)
unfolding has
suffix m start a ids nil h = absurd (ground arith)
suffix m start a ids (cons id p rest e w fresh c) h = elim (Bool-cases (eqb_ℤ a id)) [
  | inl k ↦ (
    id ∷ rest,
    subst (λ z. Chain m z (id ∷ rest)) (sym (eqb_ℤ-eq a id k)) (cons id p rest e w fresh c),
    le_refl (length rest),
    λ b i. i,
  )
  | inr k ↦
      let (tail, d, l, sub) = suffix m (get_next_page_id p) a rest c (second k h) in
      (tail, d, weaken l, λ b i. or_true (eqb_ℤ b id) (sub b i))
]
  where
    le_refl : (n : ℕ) → suc n ≤ suc n
    le_refl n = omega arith

    weaken : {k n : ℕ} → k ≤ n → k ≤ suc n
    weaken l = omega arith

    second : {b c : Bool} → b ≡ false → (b || c) ≡ true → c ≡ true
    second k h = ground arith

    or_true : (b : Bool) {c : Bool} → c ≡ true → (b || c) ≡ true
    or_true b h = ground arith

-- No page has the id that ends the chain.
Chain-invalid :
    (m : Pages) (start : ℤ) (ids : List ℤ)
    → eqb_ℤ start invalid ≡ true
    → Chain m start ids
    → ids ≡ []
Chain-invalid m start ids h nil = refl
Chain-invalid m start ids h (cons id p rest e w fresh c) = absurd (clash h w.real)
  where
    clash : {b : Bool} → b ≡ true → b ≡ false → ⊥
    clash h k = ground arith

pub apart : (m : Pages) (a b : ℤ) (p : TablePage) → m a ≡ some p → m b ≡ none → eqb_ℤ a b ≡ false
apart m a b p e n = elim (Bool-cases (eqb_ℤ a b)) [
  | inl h ↦ absurd (clash (sym e ∙ ap m (eqb_ℤ-eq a b h) ∙ n))
  | inr h ↦ h
]
  where
    clash : some p ≢ none
    clash h = cc

has-snoc :
    (a b : ℤ) (ids : List ℤ) → has a ids ≡ false → eqb_ℤ a b ≡ false → has a (ids ++ b ∷ []) ≡ false
unfolding has
has-snoc a b [] h k = rw k refl
has-snoc a b (id ∷ ids) h k =
    rw (or_left (eqb_ℤ a id) (has a ids) h)
      (has-snoc a b ids (or_right (eqb_ℤ a id) (has a ids) h) k)

eqb_ℤ_swap : (a b : ℤ) → eqb_ℤ a b ≡ true → eqb_ℤ b a ≡ true
eqb_ℤ_swap a b h = ap (λ c. eqb_ℤ c a) (sym (eqb_ℤ-eq a b h)) ∙ eqb_ℤ_refl a

-- A new page behind the last one.
pub snoc-Chain :
    (m : Pages) (curr id : ℤ) (q r : TablePage) (start : ℤ) (ids : List ℤ)
    → has curr ids ≡ true
    → ((p : TablePage) → m curr ≡ some p → eqb_ℤ (get_next_page_id p) invalid ≡ true)
    → m id ≡ none
    → Well curr q
    → get_next_page_id q ≡ id
    → Well id r
    → get_next_page_id r ≡ invalid
    → Chain m start ids
    → Chain (put_page (put_page m curr q) id r) start (ids ++ id ∷ [])
unfolding has
snoc-Chain m curr id q r start ids h last new w n x k nil = absurd (ground arith)
snoc-Chain m curr id q r start ids h last new w n x k (cons z p rest e v fresh c) =
    elim (Bool-cases (eqb_ℤ curr z)) [
      | inl j ↦
          let same = eqb_ℤ-eq curr z j in
          subst (λ l. Chain (put_page (put_page m curr q) id r) z (z ∷ (l ++ id ∷ [])))
            (sym (Chain-invalid m (get_next_page_id p) rest (last p (ap m same ∙ e)) c))
            (cons z q (id ∷ [])
              (put_page_ne (put_page m curr q) id z r (apart m z id p e new)
                ∙ put_page_hit m curr z q (eqb_ℤ_swap curr z j))
              (subst (λ l. Well l q) same w) (rw (apart m z id p e new) refl)
              (subst (λ l. Chain (put_page (put_page m curr q) id r) l (id ∷ [])) (sym n)
                (cons id r [] (put_page_self (put_page m curr q) id r) x refl
                  (subst (λ l. Chain (put_page (put_page m curr q) id r) l []) (sym k) nil))))
      | inr j ↦
          cons z p (rest ++ id ∷ [])
            (put_page_ne (put_page m curr q) id z r (apart m z id p e new)
              ∙ put_page_ne m curr z q (eqb_ℤ_flip curr z j)
              ∙ e)
            v (has-snoc z id rest fresh (apart m z id p e new))
            (snoc-Chain m curr id q r (get_next_page_id p) rest (second j h) last new w n x k c)
    ]
  where
    second : {b c : Bool} → b ≡ false → (b || c) ≡ true → c ≡ true
    second k h = ground arith

-- The pages of a chain have real ids, and its start is one of them.
pub has-real :
    (m : Pages) (start a : ℤ) (ids : List ℤ)
    → Chain m start ids
    → has a ids ≡ true
    → eqb_ℤ a invalid ≡ false
unfolding has
has-real m start a ids nil h = absurd (ground arith)
has-real m start a ids (cons id p rest e w fresh c) h = elim (Bool-cases (eqb_ℤ a id)) [
  | inl k ↦ ap (λ z. eqb_ℤ z invalid) (eqb_ℤ-eq a id k) ∙ w.real
  | inr k ↦ has-real m (get_next_page_id p) a rest c (second k h)
]
  where
    second : {b c : Bool} → b ≡ false → (b || c) ≡ true → c ≡ true
    second k h = ground arith

pub has-start :
    (m : Pages) (start : ℤ) (ids : List ℤ)
    → Chain m start ids
    → eqb_ℤ start invalid ≡ false
    → has start ids ≡ true
unfolding has
has-start m start ids nil h = absurd (ground (arith, eqb_ℤ_refl invalid))
has-start m start ids (cons id p rest e w fresh c) h = rw (eqb_ℤ_refl id) refl

-- A page of the chain is well formed.
pub has-Well :
    (m : Pages) (start a : ℤ) (ids : List ℤ) (p : TablePage)
    → Chain m start ids
    → has a ids ≡ true
    → m a ≡ some p
    → Well a p
unfolding has
has-Well m start a ids p nil h e = absurd (ground arith)
has-Well m start a ids p (cons id q rest f w fresh c) h e = elim (Bool-cases (eqb_ℤ a id)) [
  | inl k ↦
      let same = eqb_ℤ-eq a id k in
      subst (λ z. Well z p) (sym same)
        (subst (λ z. Well id z) (some_inj (sym f ∙ ap m (sym same) ∙ e)) w)
  | inr k ↦ has-Well m (get_next_page_id q) a rest p c (second k h) e
]
  where
    second : {b c : Bool} → b ≡ false → (b || c) ≡ true → c ≡ true
    second k h = ground arith
