-- ===== src/Buffer/Pool/Start.antt =====
-- A new pool, as the constructor of src/buffer/buffer_pool_manager.cpp and Clear leave it.
use franco_db.Prelude.{
  ℕ, zero, suc, ◌+◌, ◌≤◌, ◌<◌, ◌≡◌, refl, Bool, true, arith, elem, distinct, Bool-cases, inl, inr,
  ◌==◌,
}
use franco_db.Buffer.Lru
use franco_db.Buffer.Lru.Validity
use franco_db.Buffer.PageTable.{find}
use franco_db.Buffer.Pool.{Io, State, init, count_up, clear}
use franco_db.Buffer.Pool.Invariant.{IsValid}

elem-count_up : (f i n : ℕ) → elem f (count_up i n) ≡ true → (i ≤ f) × (f < i + n)
unfolding elem count_up
elem-count_up f i zero h = absurd (ground (arith, h))
elem-count_up f i (suc n) h = elim (Bool-cases (f == i)) [
  | inl e ↦ ground (arith, e)
  | inr e ↦ ground (arith, elem-count_up f (i + 1) n (ground (arith, e, h)))
]

distinct-count_up : (i n : ℕ) → distinct (count_up i n) ≡ true
unfolding distinct count_up
distinct-count_up i zero = refl
distinct-count_up i (suc n) = elim (Bool-cases (elem i (count_up (i + 1) n))) [
  | inl e ↦ absurd (omega (arith, elem-count_up i (i + 1) n e))
  | inr e ↦ ground (arith, e, distinct-count_up (i + 1) n)
]

module _ (io : Io) where
  -- A pool is valid when it is new and after Clear, whatever it held before.
  pub init_pool-IsValid :
      (size : ℕ) (w : io.World) (log : Bool) (s : State io)
      → IsValid (init io size w log) × IsValid (clear io s)
  unfolding init clear find elem Lru.init
  init_pool-IsValid size w log s = (new_pool size w log, new_pool s.pool_size s.world s.has_log)
    where
      new_pool : (size : ℕ) (w : io.World) (log : Bool) → IsValid (init io size w log)
      new_pool size w log = record {
        replacer = Validity.init-IsValid size;
        capacity = refl;
        table = λ p f h. absurd (ground (arith, h));
        apart = distinct-count_up 0 size;
        free = λ f h. (omega (arith, elem-count_up f 0 size h), refl);
        free_out = λ f p h k. ground (arith, k);
        evictable = λ f h. absurd (ground (arith, h));
        idle = λ p f h. absurd (ground (arith, h));
      }
