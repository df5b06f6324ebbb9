-- ===== src/Pool/Tests.antt =====
-- A pool of two threads at concrete runs.
use greencloud.Base.{ℕ, ◌+◌, ◌≡◌, ◌↔◌, refl, List, [], ◌∷◌, none, some, done, arith}
use greencloud.Pool.Queue.{WPriorityQueue, empty, push_all, pop_all, pop_for, size, Documented}
use greencloud.Pool.Drained.{Falls, pop_all-Falls}
use mathlib.Core.List.{Perm}
use greencloud.Pool.Threads.{
  Job, work, stop, ThreadPool, check_num, create, after, Move, push, claim, pop, finish, step, run,
}
use greencloud.Pool.Conserved.{weigh, pushed, is_stop, held, run-held}
use greencloud.Pool.Order.{top_exists, run-claimed}
use greencloud.Pool.Ending.{run-ended}

abbrev moves : List Move
moves = push (work 1 7) ∷ push (work 2 8) ∷ claim ∷ claim ∷ pop 0 ∷ []

abbrev one_taken : ThreadPool
one_taken = record {
  queue = work 1 7 ∷ [];
  sem = 0;
  waiting = 0;
  claimed = 1;
  busy = work 2 8 ∷ [];
  parked = 0;
  resumed = 0;
  ended = 0;
  main_sem = 0;
  thread_sem = 0;
  finished = [];
}

-- The task of the user comes first, and is overtaken by both stop tasks.
abbrev stops : List Move
stops =
    push (work 2 8)
    ∷ push stop
    ∷ push stop
    ∷ claim
    ∷ claim
    ∷ pop 0
    ∷ pop 0
    ∷ finish 0
    ∷ finish 0
    ∷ []

abbrev over : ThreadPool
over = record {
  queue = work 2 8 ∷ [];
  sem = 1;
  waiting = 0;
  claimed = 0;
  busy = [];
  parked = 0;
  resumed = 0;
  ended = 2;
  main_sem = 0;
  thread_sem = 0;
  finished = stop ∷ stop ∷ [];
}

run-held_example : held is_stop over ≡ pushed is_stop stops
unfolding run step create check_num after
run-held_example = run-held 2 stops over is_stop refl

run-claimed_example : (k : ℕ) × (u : ThreadPool) × (step one_taken (pop k) ≡ some u)
unfolding run step create check_num after
run-claimed_example = run-claimed 2 moves one_taken refl (omega arith)

run-ended_example : (2 ≡ check_num 2) ↔ (weigh is_stop over.queue + weigh is_stop over.busy ≡ 0)
unfolding run step create check_num after
run-ended_example = run-ended 2 stops over refl refl

abbrev jobs : List Job
jobs = work 1 7 ∷ work 2 8 ∷ []

abbrev both_taken : ThreadPool
both_taken = record one_taken { queue = []; claimed = 0; busy = work 1 7 ∷ work 2 8 ∷ [] }

-- Where a queue has its top: the first of the greatest, as a search finds it.
abbrev top : List Job → ℕ
top [] = 0
top (x ∷ q) = (top_exists x q).0

top-Documented : Documented top
top-Documented [] full = absurd (omega arith)
top-Documented (x ∷ q) full = let (k, j, here, greatest) = top_exists x q in (j, here, greatest)

abbrev mixed : List Job
mixed = work 0 1 ∷ work 2 2 ∷ stop ∷ work 1 3 ∷ []

pop_all-Falls_example :
    (w : WPriorityQueue) × (w' : WPriorityQueue) × (out : List Job) × (push_all mixed empty
      ≡ done w)
    × (pop_all top 4 w ≡ done (w', out))
    × Perm out mixed
    × Falls out
    × (size w' ≡ 0)
    × (pop_for top w' ≡ done (w', none))
pop_all-Falls_example = pop_all-Falls top top-Documented mixed (omega arith)
