-- ===== src/Buffer/Clock/Chance.antt =====
-- The second chance of ClockReplacer: a set reference bit protects a frame while another is unset.
use franco_db.Prelude.{
  ℕ, zero, suc, ◌+◌, ◌*◌, ◌≤◌, ◌<◌, ◌≡◌, ◌≢◌, ◌⊎◌, inl, inr, true, false, Option, none, some, arith,
  Bool-cases,
}
use franco_db.Buffer.Clock.{Clock, any_valid, wrap, take_victim, pass_over, stops, spin, victim}
use franco_db.Buffer.Clock.Progress.{distance}

-- Frame `j` may go at once, and the hand does not give up `f` before it comes to `j`.
record Ahead (s : Clock) (j f : ℕ) : Type 0 where
  inside : j < s.capacity
  inside' : f < s.capacity
  apart : j ≢ f
  hand : s.clock_hand ≤ s.capacity
  valid : (s.frames j).is_valid ≡ true
  unset : (s.frames j).ref_bit ≡ false
  guarded :
      ((s.frames f).ref_bit ≡ true)
      ⊎ (distance s.capacity s.clock_hand j < distance s.capacity s.clock_hand f)

wrap-Ahead :
    (s : Clock) (j f : ℕ)
    → Ahead s j f
    → Ahead (wrap s) j f × ((wrap s).clock_hand < (wrap s).capacity)
unfolding wrap
wrap-Ahead s j f a = ground arith

pass_over-Ahead :
    (s : Clock) (j f : ℕ)
    → Ahead s j f
    → s.clock_hand < s.capacity
    → stops (s.frames s.clock_hand) ≡ false
    → Ahead (pass_over s) j f
unfolding pass_over
pass_over-Ahead s j f a p e = ground arith

take_victim_avoids :
    (s : Clock) (j f : ℕ)
    → Ahead s j f
    → s.clock_hand < s.capacity
    → stops (s.frames s.clock_hand) ≡ true
    → (take_victim s).0 ≢ some f
unfolding take_victim
take_victim_avoids s j f a p e q = ground arith

spin_avoids : (k : ℕ) (s : Clock) (j f : ℕ) → Ahead s j f → (spin k s).0 ≢ some f
unfolding spin
spin_avoids zero s j f a q = cc
spin_avoids (suc k) s j f a q =
    let (b, p) = wrap-Ahead s j f a in
    elim (Bool-cases (stops ((wrap s).frames (wrap s).clock_hand))) [
      | inl t ↦ take_victim_avoids (wrap s) j f b p t (rw t at q)
      | inr t ↦
          spin_avoids k (pass_over (wrap s)) j f (pass_over-Ahead (wrap s) j f b p t) (rw t at q)
    ]

none-ne-some : {f : ℕ} → ◌≡◌ {A = Option ℕ} none (some f) → ⊥
none-ne-some e = cc

-- With the hand in range, a frame below the capacity whose reference bit is set is the victim
-- only if the reference bit of every held frame is set.
pub victim-second_chance :
    (s : Clock) (f j : ℕ)
    → s.clock_hand ≤ s.capacity
    → f < s.capacity
    → (s.frames f).ref_bit ≡ true
    → (victim s).0 ≡ some f
    → j < s.capacity
    → (s.frames j).is_valid ≡ true
    → (s.frames j).ref_bit ≡ true
unfolding victim
victim-second_chance s f j h p set gone q valid = elim (Bool-cases (s.frames j).ref_bit) [
  | inl e ↦ e
  | inr e ↦ elim (Bool-cases (any_valid s.capacity s.frames)) [
    | inl a ↦ absurd (
        spin_avoids (2 * s.capacity + 1) s j f
          (record {
            inside = q;
            inside' = p;
            apart = λ same. contrary same e;
            hand = h;
            valid = valid;
            unset = e;
            guarded = inl set;
          })
          (rw a at gone))
    | inr a ↦ absurd (none-ne-some (rw a at gone))
  ]
]
  where
    contrary : j ≡ f → (s.frames j).ref_bit ≡ false → ⊥
    contrary same e = ground arith
