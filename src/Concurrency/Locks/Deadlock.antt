-- ===== src/Concurrency/Locks/Deadlock.antt =====
-- HasCycle and DetectDeadlock of src/include/concurrency/lock_manager.h. The order in which an
-- unordered map or set gives its elements is the order of a list, a parameter.
pub mod Sound
pub mod Safe
pub mod Complete
pub mod Ends
use franco_db.Prelude.{
  ℕ, zero, suc, ℤ, invalid, eqb_ℤ, leb_ℤ, Bool, true, false, ◌≡◌, Option, none, some, List, [], ◌∷◌,
  if◌then◌else◌,
}
use franco_db.Concurrency.Locks.Manager.{elem_txn, erase_txn, LockManager, abort_transaction}

-- wait_for_graph_: the transactions that one waits for.
abbrev pub Graph : Type 0
Graph = ℤ → List ℤ

-- `visited` and `rec_stack`.
pub record Search : Type 0 where
  pub visited : List ℤ
  pub rec_stack : List ℤ

abbrev pub Step : Type 0
Step = Search → ℤ → Option (Bool × Search)

unfoldable pub enter : Search → ℤ → Search
enter s t = record { visited = t ∷ s.visited; rec_stack = t ∷ s.rec_stack }

unfoldable pub leave : Search → ℤ → Search
leave s t = record s { rec_stack = erase_txn t s.rec_stack }

-- The loop over the neighbours; `none` is a call that ran out of fuel.
unfoldable pub visit_all : Step → List ℤ → Search → Option (Bool × Search)
visit_all f [] s = some (false, s)
visit_all f (n ∷ ns) s = elim (elem_txn n s.visited) [
  | false ↦ elim (f s n) [
    | none ↦ none
    | some r ↦ elim r.0 [ true ↦ some r | false ↦ visit_all f ns r.1 ]
  ]
  | true ↦ elim (elem_txn n s.rec_stack) [ true ↦ some (true, s) | false ↦ visit_all f ns s ]
]

-- The stack is left unless a cycle was found.
unfoldable pub finish : ℤ → Option (Bool × Search) → Option (Bool × Search)
finish t none = none
finish t (some r) = elim r.0 [ true ↦ some r | false ↦ some (false, leave r.1 t) ]

unfoldable pub has_cycle : ℕ → Graph → Step
has_cycle zero g s t = none
has_cycle (suc fuel) g s t = finish t (visit_all (has_cycle fuel g) (g t) (enter s t))

-- The highest number on the stack, or the transaction that the search began with.
unfoldable pub highest : ℤ → List ℤ → ℤ
highest best [] = best
highest best (t ∷ ts) = highest (if leb_ℤ t best then best else t) ts

-- DetectDeadlock over the transactions that wait.
unfoldable pub detect_from : ℕ → Graph → List ℤ → Search → Option ℤ
detect_from fuel g [] s = some invalid
detect_from fuel g (t ∷ ts) s = elim (elem_txn t s.visited) [
  | true ↦ detect_from fuel g ts s
  | false ↦ elim (has_cycle fuel g s t) [
    | none ↦ none
    | some r ↦ elim r.0 [
      | true ↦ some (highest t r.1.rec_stack)
      | false ↦ detect_from fuel g ts r.1
    ]
  ]
]

unfoldable pub detect_deadlock : ℕ → Graph → List ℤ → Option ℤ
detect_deadlock fuel g waiting =
    detect_from fuel g waiting (record { visited = []; rec_stack = [] })

-- A round of DeadlockDetectionLoop.
unfoldable pub detection_round : ℕ → List ℤ → LockManager → Option LockManager
detection_round fuel waiting l = elim (detect_deadlock fuel l.wait_for waiting) [
  | none ↦ none
  | some v ↦ some (if eqb_ℤ v invalid then l else abort_transaction l v)
]

-- A walk along the edges, of at least no edge.
pub data Walk (g : Graph) (a : ℤ) : ℤ → Type 0 where
  stay : Walk g a a
  go : {b c : ℤ} → Walk g a b → elem_txn c (g b) ≡ true → Walk g a c

-- A transaction that waits for itself along at least one edge.
abbrev pub Deadlock : Graph → Type 0
Deadlock g = (a : ℤ) × (b : ℤ) × Walk g a b × (elem_txn a (g b) ≡ true)
