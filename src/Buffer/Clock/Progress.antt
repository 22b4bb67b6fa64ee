-- ===== src/Buffer/Clock/Progress.antt =====
-- The loop of ClockReplacer::Victim ends, and gives up a frame that it held.
use franco_db.Prelude.{
  ℕ, zero, suc, ◌+◌, ◌-◌, ◌*◌, ◌≤◌, ◌<◌, ◌≡◌, refl, sym, ap, ◌∙◌, ◌≢◌, true, false, none, some,
  arith, leb, ◌==◌, if◌then◌else◌, Bool-cases, inl, inr,
}
use franco_db.Buffer.Clock.{
  Clock, FrameInfo, any_valid, wrap, take_victim, pass_over, stops, spin, victim,
}

-- The rounds until the hand reaches `j`.
abbrev pub distance : ℕ → ℕ → ℕ → ℕ
distance capacity hand j = if leb hand j then j - hand else capacity - hand + j

-- The rounds after which frame `j` is given up at the latest.
abbrev rounds : Clock → ℕ → ℕ
rounds s j =
    distance s.capacity s.clock_hand j + (if (s.frames j).ref_bit then s.capacity else 0) + 1

record Held (s : Clock) (j : ℕ) : Type 0 where
  inside : j < s.capacity
  valid : (s.frames j).is_valid ≡ true
  hand : s.clock_hand ≤ s.capacity

wrap-Held :
    (s : Clock) (j : ℕ) → Held s j → Held (wrap s) j × ((wrap s).clock_hand < (wrap s).capacity)
unfolding wrap
wrap-Held s j h = ground arith

wrap-rounds : (s : Clock) (j : ℕ) → Held s j → rounds (wrap s) j ≡ rounds s j
unfolding wrap
wrap-rounds s j h = ground arith

pass_over-Held :
    (s : Clock) (j : ℕ)
    → Held s j
    → s.clock_hand < s.capacity
    → stops (s.frames s.clock_hand) ≡ false
    → Held (pass_over s) j × (rounds (pass_over s) j < rounds s j)
unfolding pass_over
pass_over-Held s j h p e = ground arith

spin-some :
    (k : ℕ) (s : Clock) (j : ℕ) → Held s j → rounds s j ≤ k → (f : ℕ) × ((spin k s).0 ≡ some f)
unfolding spin
spin-some zero s j h r = absurd (omega arith)
spin-some (suc k) s j h r =
    let (w, p) = wrap-Held s j h in
    elim (Bool-cases (stops ((wrap s).frames (wrap s).clock_hand))) [
      | inl t ↦ ((wrap s).clock_hand, unfold take_victim in rw t)
      | inr t ↦
          let (q, less) = pass_over-Held (wrap s) j w p t in
          let (f, found) =
            spin-some k (pass_over (wrap s)) j q (omega (arith, wrap-rounds s j h)) in
          (f, rw t found)
    ]

-- What the loop does to the entries when it gives up frame `f`.
pub record GivesUp (s t : Clock) (f : ℕ) : Type 0 where
  pub inside : f < s.capacity
  pub was_valid : (s.frames f).is_valid ≡ true
  pub now_free : (t.frames f).is_valid ≡ false
  pub others : (g : ℕ) → g ≢ f → (t.frames g).is_valid ≡ (s.frames g).is_valid
  pub capacity : t.capacity ≡ s.capacity
  pub hand : t.clock_hand ≤ t.capacity

wrap_keeps :
    (s : Clock)
    → 0 < s.capacity
    → ((wrap s).frames ≡ s.frames)
      × ((wrap s).capacity ≡ s.capacity)
      × ((wrap s).clock_hand < s.capacity)
unfolding wrap
wrap_keeps s p = (ground arith, ground arith, ground arith)

pass_over_keeps :
    (s : Clock)
    → ((pass_over s).capacity ≡ s.capacity)
      × ((pass_over s).clock_hand ≡ s.clock_hand + 1)
      × ((g : ℕ) → ((pass_over s).frames g).is_valid ≡ (s.frames g).is_valid)
unfolding pass_over
pass_over_keeps s = (ground arith, ground arith, λ g. ground arith)

take_victim-GivesUp :
    (s : Clock)
    → s.clock_hand < s.capacity
    → stops (s.frames s.clock_hand) ≡ true
    → GivesUp s (take_victim s).1 s.clock_hand
unfolding take_victim
take_victim-GivesUp s p e = record {
  inside = p;
  was_valid = ground arith;
  now_free = ground arith;
  others = λ g n. ground arith;
  capacity = refl;
  hand = omega arith;
}

GivesUp-from :
    (s h t : Clock) (f : ℕ)
    → h.capacity ≡ s.capacity
    → ((g : ℕ) → (h.frames g).is_valid ≡ (s.frames g).is_valid)
    → GivesUp h t f
    → GivesUp s t f
GivesUp-from s h t f cap same v = record {
  inside = omega arith;
  was_valid = sym (same f) ∙ v.was_valid;
  now_free = v.now_free;
  others = λ g n. v.others g n ∙ same g;
  capacity = v.capacity ∙ cap;
  hand = v.hand;
}

spin-GivesUp :
    (k : ℕ) (s : Clock) (f : ℕ) → 0 < s.capacity → (spin k s).0 ≡ some f → GivesUp s (spin k s).1 f
unfolding spin
spin-GivesUp zero s f p e = absurd (cc)
spin-GivesUp (suc k) s f p e =
    let (same, cap, low) = wrap_keeps s p in
    let (cap', hand', same') = pass_over_keeps (wrap s) in
    elim (Bool-cases (stops ((wrap s).frames (wrap s).clock_hand))) [
      | inl t ↦ rw t (
          rw (taken (rw t at e)) (
            GivesUp-from s (wrap s) _ _ cap (λ g. ap (λ (m : ℕ → FrameInfo). (m g).is_valid) same)
              (take_victim-GivesUp (wrap s) (omega arith) t)))
      | inr t ↦ rw t (
          GivesUp-from s (pass_over (wrap s)) _ f (cap' ∙ cap)
            (λ g. same' g ∙ ap (λ (m : ℕ → FrameInfo). (m g).is_valid) same)
            (spin-GivesUp k (pass_over (wrap s)) f (omega arith) (rw t at e)))
    ]
  where
    taken : (take_victim (wrap s)).0 ≡ some f → f ≡ (wrap s).clock_hand
    taken q = unfold take_victim in ground arith

any_valid-true :
    (n : ℕ) (frames : ℕ → FrameInfo) (j : ℕ)
    → j < n
    → (frames j).is_valid ≡ true
    → any_valid n frames ≡ true
unfolding any_valid
any_valid-true zero frames j h v = absurd (omega arith)
any_valid-true (suc n) frames j h v = elim (Bool-cases (j == n)) [
  | inl e ↦ ground arith
  | inr e ↦ ground (arith, any_valid-true n frames j)
]

any_valid-false :
    (n : ℕ) (frames : ℕ → FrameInfo)
    → ((j : ℕ) → j < n → (frames j).is_valid ≡ false)
    → any_valid n frames ≡ false
unfolding any_valid
any_valid-false zero frames h = refl
any_valid-false (suc n) frames h =
    rw (h n (omega arith)) (any_valid-false n frames (λ j p. h j (omega arith)))

-- If the hand is in range and a frame below the capacity is held, the loop ends within two turns
-- of the hand: Victim returns a frame below the capacity that was held, releases that frame and
-- no other, and leaves the hand in range.
pub victim-some :
    (s : Clock) (j : ℕ)
    → s.clock_hand ≤ s.capacity
    → j < s.capacity
    → (s.frames j).is_valid ≡ true
    → (f : ℕ) × ((victim s).0 ≡ some f) × GivesUp s (victim s).1 f
unfolding victim
victim-some s j h p v =
    let (f, found) =
      spin-some (2 * s.capacity + 1) s j (record { inside = p; valid = v; hand = h })
        (ground arith) in
    (
      f,
      rw (any_valid-true s.capacity s.frames j p v) found,
      rw (any_valid-true s.capacity s.frames j p v)
          (spin-GivesUp (2 * s.capacity + 1) s f (omega arith) found),
    )

-- With no frame below the capacity held there is no victim, and nothing changes.
pub victim-none :
    (s : Clock) → ((j : ℕ) → j < s.capacity → (s.frames j).is_valid ≡ false) → victim s ≡ (none, s)
unfolding victim
victim-none s h = rw (any_valid-false s.capacity s.frames h)
