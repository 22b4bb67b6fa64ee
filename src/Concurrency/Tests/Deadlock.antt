-- ===== src/Concurrency/Tests/Deadlock.antt =====
-- Transaction 9 waits for 1, and 1 and 2 wait for each other.
use franco_db.Prelude.{
  ℤ, pos, invalid, eqb_ℤ, ◌≡◌, ◌≢◌, refl, true, some, List, [], ◌∷◌, length, arith, if◌then◌else◌,
}
use franco_db.Concurrency.Locks.Manager.{elem_txn}
use franco_db.Concurrency.Locks.Deadlock.{
  Graph, detect_deadlock, detect_from, has_cycle, visit_all, finish, enter, leave, highest,
  Deadlock,
}
use franco_db.Concurrency.Locks.Deadlock.Sound.{Within}
use franco_db.Concurrency.Locks.Deadlock.Complete.{Numbered}
use franco_db.Concurrency.Locks.Deadlock.Ends.{detect_deadlock-Deadlock}

abbrev edges : Graph
edges a =
    if eqb_ℤ a (pos 9)
    then (pos 1 ∷ [])
    else if eqb_ℤ a (pos 1)
    then (pos 2 ∷ [])
    else if eqb_ℤ a (pos 2)
    then (pos 1 ∷ [])
    else []

abbrev waiting : List ℤ
waiting = pos 9 ∷ pos 1 ∷ pos 2 ∷ []

edges_closed : (a : ℤ) → Within (edges a) waiting
unfolding elem_txn eqb_ℤ
edges_closed a b i = ground arith

edges-waiting : (a b : ℤ) → elem_txn b (edges a) ≡ true → elem_txn a waiting ≡ true
unfolding elem_txn eqb_ℤ
edges-waiting a b i = ground arith

waiting-Numbered : Numbered waiting
unfolding elem_txn eqb_ℤ
waiting-Numbered t i = ground arith

detect_deadlock-Deadlock_example :
    (v : ℤ) × (detect_deadlock 3 edges waiting ≡ some v)
    × (v ≢ invalid → Deadlock edges)
    × (v ≡ invalid → ¬ Deadlock edges)
unfolding length
detect_deadlock-Deadlock_example =
    detect_deadlock-Deadlock edges 3 waiting waiting (λ a i. i) edges_closed (omega arith)
      waiting-Numbered edges-waiting

-- The victim is not in the cycle.
victim_outside : detect_deadlock 3 edges waiting ≡ some (pos 9)
unfolding detect_deadlock detect_from has_cycle visit_all finish enter leave highest elem_txn eqb_ℤ
victim_outside = refl
