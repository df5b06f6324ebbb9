-- ===== src/Pool/Queue.antt =====
-- include/wpriorityqueue.hpp, as one thread uses it.
use greencloud.Base.{
  ℕ, zero, suc, ◌<◌, ◌≡◌, Bool, true, List, [], ◌∷◌, Option, none, some, Outcome, done, fails,
  ◌>>=◌, undefined, sem_time_out, length, get_elem?, ◌==◌,
}
use greencloud.Pool.Threads.{Job, is_top, remove_at}
use greencloud.Pool.Semaphore.{Semaphore, post, wait, timed_wait}

pub record WPriorityQueue : Type 0 where
  pub sem : Semaphore
  pub items : List Job

abbrev pub empty : WPriorityQueue
empty = record { sem = record { value = 0 }; items = [] }

-- Both `Push`; the task is in the queue when the semaphore fails.
unfoldable pub push : Job → WPriorityQueue → Outcome WPriorityQueue
push j w = post w.sem >>= λ s. done (record { sem = s; items = j ∷ w.items })

unfoldable pub push_all : List Job → WPriorityQueue → Outcome WPriorityQueue
unfolding push
push_all [] w = done w
push_all (j ∷ js) w = push j w >>= push_all js

-- `Size` and `IsEmpty`.
unfoldable pub size : WPriorityQueue → ℕ
size w = length w.items

unfoldable pub is_empty : WPriorityQueue → Bool
is_empty w = length w.items == 0

-- Where `std::priority_queue` has its top.
module _ (top : List Job → ℕ) where
  -- The standard's promise: an element of the queue, and none of the others is greater.
  abbrev pub Documented : Type 0
  Documented =
      (q : List Job)
      → 0 < length q
      → (j : Job) × (get_elem? q (top q) ≡ some j) × (is_top j q ≡ true)

  -- `LockAndPop`; `top` of an empty queue is undefined.
  unfoldable pub lock_and_pop : WPriorityQueue → Outcome (WPriorityQueue × Job)
  lock_and_pop w = elim (get_elem? w.items (top w.items)) [
    | none ↦ fails undefined
    | some j ↦ done (record w { items = remove_at (top w.items) w.items }, j)
  ]

  -- `Pop`.
  unfoldable pub pop : WPriorityQueue → Outcome (WPriorityQueue × Job)
  unfolding lock_and_pop
  pop w = wait none w.sem >>= λ s. lock_and_pop (record w { sem = s })

  -- `Pop` with a time-out: no task where it returns false.
  unfoldable pub pop_for : WPriorityQueue → Outcome (WPriorityQueue × Option Job)
  unfolding lock_and_pop
  pop_for w = elim (timed_wait none none w.sem) [
    | fails (sem_time_out errno) ↦ done (w, none)
    | fails x ↦ fails x
    | done s ↦ lock_and_pop (record w { sem = s }) >>= λ r. done (r.0, some r.1)
  ]

  unfoldable pub pop_all : ℕ → WPriorityQueue → Outcome (WPriorityQueue × List Job)
  unfolding pop
  pop_all zero w = done (w, [])
  pop_all (suc n) w = pop w >>= λ r. pop_all n r.0 >>= λ rest. done (rest.0, r.1 ∷ rest.1)
