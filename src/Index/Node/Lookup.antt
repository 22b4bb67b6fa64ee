-- ===== src/Index/Node/Lookup.antt =====
-- What a lookup in a node finds.
use franco_db.Prelude.{
  ℕ, sym, zero, suc, ◌+◌, ◌-◌, ◌≤◌, ◌<◌, ◌≡◌, ◌≢◌, refl, inl, inr, ℤ, pos, invalid, eqb_ℤ, eqb_ℤ-eq,
  eqb_ℤ_refl, is_negative, true, false, Option, none, some, arith, Bool-cases, ◌==◌,
}
use franco_db.Index.Node.{Node, fits, key_from, key_index, lookup_leaf, child_from, lookup_internal}

module _ {K V : Type 0} (compare : K → K → ℤ) (key : K) (array : ℕ → K × V) where
  abbrev pub Meets : ℕ → Type 0
  Meets i = compare (array i).0 key ≡ pos 0

  abbrev pub Found : ℕ → ℕ → Option ℕ → Type 0
  Found k i none = (j : ℕ) → i ≤ j → j < i + k → ¬ Meets j
  Found k i (some f) = (i ≤ f) × (f < i + k) × Meets f × ((j : ℕ) → i ≤ j → j < f → ¬ Meets j)

  differs : (i : ℕ) → eqb_ℤ (compare (array i).0 key) (pos 0) ≡ false → ¬ Meets i
  differs i e m = ground (arith, e, m, eqb_ℤ_refl (pos 0))

  Found-next : (k i : ℕ) (o : Option ℕ) → ¬ Meets i → Found k (i + 1) o → Found (suc k) i o
  Found-next k i none n h = λ j l u m. elim (Bool-cases (i == j)) [
    | inl e ↦ n (rw (eq i j e) m)
    | inr e ↦ h j (ground (arith, e, l)) (omega (arith, u)) m
  ]
    where
      eq : (i j : ℕ) → (i == j) ≡ true → i ≡ j
      eq i j e = ground (arith, e)
  Found-next k i (some f) n (l, u, m, b) = (
    omega (arith, l),
    omega (arith, u),
    m,
    λ j p q w. elim (Bool-cases (i == j)) [
      | inl e ↦ n (rw (eq i j e) w)
      | inr e ↦ b j (ground (arith, e, p)) q w
    ],
  )
    where
      eq : (i j : ℕ) → (i == j) ≡ true → i ≡ j
      eq i j e = ground (arith, e)

  key_from-Found : (k i : ℕ) → Found k i (key_from compare key array k i)
  unfolding key_from
  key_from-Found zero i = λ j l u m. absurd (omega (arith, l, u))
  key_from-Found (suc k) i = elim (Bool-cases (eqb_ℤ (compare (array i).0 key) (pos 0))) [
    | inl e ↦
        rw e (omega arith, omega arith, eqb_ℤ-eq _ _ e, λ j p q w. absurd (omega (arith, p, q)))
    | inr e ↦ rw e (
        Found-next k i (key_from compare key array k (i + 1)) (differs i e)
          (key_from-Found k (i + 1)))
  ]

  -- The child `c`: the key is below none of the keys up to it, and below the next one.
  abbrev pub Child : ℕ → ℕ → ℕ → Type 0
  Child k i c =
      (i ≤ c + 1)
      × (c + 1 ≤ i + k)
      × ((j : ℕ) → i ≤ j → j ≤ c → is_negative (compare key (array j).0) ≡ false)
      × (c + 1 < i + k → is_negative (compare key (array (c + 1)).0) ≡ true)

  back : (i : ℕ) → 0 < i → i - 1 + 1 ≡ i
  back i h = omega (arith, h)

  Child-next :
      (k i c : ℕ)
      → is_negative (compare key (array i).0) ≡ false
      → Child k (i + 1) c
      → Child (suc k) i c
  Child-next k i c e (a, b, d, f) = (
    omega (arith, a),
    omega (arith, b),
    λ j l u. elim (Bool-cases (i == j)) [
      | inl q ↦ rw (sym (eq i j q)) e
      | inr q ↦ d j (ground (arith, q, l)) u
    ],
    λ u. f (omega (arith, u)),
  )
    where
      eq : (i j : ℕ) → (i == j) ≡ true → i ≡ j
      eq i j e = ground (arith, e)

  child_from-Child : (k i : ℕ) → 0 < i → Child k i (child_from compare key array k i)
  unfolding child_from
  child_from-Child zero i h = (
    omega (arith, h),
    omega (arith, h),
    λ j l u. absurd (omega (arith, h, l, u)),
    λ u. absurd (omega (arith, h, u)),
  )
  child_from-Child (suc k) i h = elim (Bool-cases (is_negative (compare key (array i).0))) [
    | inl e ↦ rw e (
      omega (arith, h),
      omega (arith, h),
      λ j l u. absurd (omega (arith, h, l, u)),
      λ u. rw (back i h) e,
    )
    | inr e ↦ rw e (
        Child-next k i (child_from compare key array k (i + 1)) e
          (child_from-Child k (i + 1) (omega arith)))
  ]

module _ {K V : Type 0} (compare : K → K → ℤ) (n : Node K V) (key : K) where
  abbrev pub Answers : ℕ → Option ℕ → Type 0
  Answers s none =
      (lookup_leaf compare n key ≡ none)
      × (key_index compare n key ≡ invalid)
      × ((j : ℕ) → j < s → compare (n.array j).0 key ≢ pos 0)
  Answers s (some f) =
      (lookup_leaf compare n key ≡ some (n.array f).1)
      × (key_index compare n key ≡ pos f)
      × (f < s)
      × (compare (n.array f).0 key ≡ pos 0)
      × ((j : ℕ) → j < f → compare (n.array j).0 key ≢ pos 0)

  -- In a leaf whose size is within its maximum, Lookup and KeyIndex agree: either no entry has the
  -- key, and Lookup fails and KeyIndex is -1, or they give the value and the index of the first entry
  -- with the key.
  pub lookup_leaf-key_index :
      (s : ℕ) → n.size ≡ pos s → fits n (pos 254) ≡ true → (o : Option ℕ) × Answers s o
  unfolding lookup_leaf key_index
  lookup_leaf-key_index s e h = (
    key_from compare key n.array s 0,
    answer (key_from compare key n.array s 0) refl (key_from-Found compare key n.array s 0),
  )
    where
      answer :
          (o : Option ℕ)
          → key_from compare key n.array s 0 ≡ o
          → Found compare key n.array s 0 o
          → Answers s o
      answer none q g = (
        ground (arith, e, h, q),
        ground (arith, e, q),
        λ j l. g j (omega arith) (omega (arith, l)),
      )
      answer (some f) q (a, b, m, d) = (
        ground (arith, e, h, q),
        ground (arith, e, q),
        omega (arith, b),
        m,
        λ j l. d j (omega arith) l,
      )

  -- In an internal page with entries whose size is within its maximum, Lookup gives the page of an
  -- entry such that the key is below the key of no entry from the second one up to it, and is below
  -- that of the next entry, if there is one.
  pub lookup_internal_child :
      (s : ℕ) (none_found : V)
      → n.size ≡ pos (suc s)
      → fits n (pos 338) ≡ true
      → (c : ℕ) × (c < suc s)
        × (lookup_internal compare n key none_found ≡ (n.array c).1)
        × ((j : ℕ) → 1 ≤ j → j ≤ c → is_negative (compare key (n.array j).0) ≡ false)
        × (c + 1 < suc s → is_negative (compare key (n.array (c + 1)).0) ≡ true)
  unfolding lookup_internal
  lookup_internal_child s none_found e h =
      let (a, b, d, f) = child_from-Child compare key n.array s 1 (omega arith) in
      (
        child_from compare key n.array s 1,
        omega (arith, b),
        ground (arith, e, h, one_less s),
        d,
        λ u. f (omega (arith, u)),
      )
    where
      one_less : (s : ℕ) → suc s - 1 ≡ s
      one_less s = omega arith
