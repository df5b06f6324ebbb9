-- ===== src/Pool/Threads.antt =====
-- `ThreadPool` with its `WPriorityQueue`, as moves of its threads and of the thread that uses it.
use greencloud.Base.{
  ℕ, zero, suc, ◌+◌, ◌-◌, Bool, true, false, ◌&&◌, List, [], ◌∷◌, Option, none, some, get_elem?,
  replicate, ltb, if◌then◌else◌,
}

-- A task of a user with its priority and a name, or one of the two of include/tp_sys_task.hpp.
pub data Job : Type 0 where
  work : ℕ → ℕ → Job
  stop : Job
  suspend : Job

-- `TPTask::TaskPriority`: 0 to 2 for users, 3 for `SYSTEM`.
abbrev pub priority : Job → ℕ
priority (work p i) = p
priority stop = 3
priority suspend = 3

-- `operator<` of two tasks.
abbrev pub task_lt : Job → Job → Bool
task_lt a b = ltb (priority a) (priority b)

-- No task of the queue is greater: what `std::priority_queue::top` may be.
abbrev pub is_top : Job → List Job → Bool
is_top j [] = true
is_top j (k ∷ q) = (if task_lt j k then false else true) && is_top j q

abbrev pub remove_at {ℓ} : {A : Type ℓ} → ℕ → List A → List A
remove_at k [] = []
remove_at zero (x ∷ xs) = xs
remove_at (suc k) (x ∷ xs) = x ∷ remove_at k xs

-- The queue with its semaphore, and how many threads stand where in `ThreadFunc`: before
-- `m_sem.Wait`, between it and `LockAndPop`, in `Execute` (with their tasks), before
-- `m_thread_sem.Wait`, behind it, and behind the loop. `finished` are the tasks that were executed,
-- the newest first.
pub record ThreadPool : Type 0 where
  pub queue : List Job
  pub sem : ℕ
  pub waiting : ℕ
  pub claimed : ℕ
  pub busy : List Job
  pub parked : ℕ
  pub resumed : ℕ
  pub ended : ℕ
  pub main_sem : ℕ
  pub thread_sem : ℕ
  pub finished : List Job

-- `CheackNum` and the constructor.
unfoldable pub check_num : ℕ → ℕ
check_num zero = 1
check_num (suc n) = suc n

unfoldable pub create : ℕ → ThreadPool
unfolding check_num
create n = record {
  queue = [];
  sem = 0;
  waiting = check_num n;
  claimed = 0;
  busy = [];
  parked = 0;
  resumed = 0;
  ended = 0;
  main_sem = 0;
  thread_sem = 0;
  finished = [];
}

-- Where a thread goes when its task returns or throws.
unfoldable pub after : Job → ThreadPool → ThreadPool
after (work p i) t = record t { waiting = t.waiting + 1 }
after stop t = record t { ended = t.ended + 1 }
after suspend t = record t { parked = t.parked + 1; main_sem = t.main_sem + 1 }

pub data Move : Type 0 where
  -- `WPriorityQueue::Push`, under the mutex, with its `Post`
  push : Job → Move
  -- a thread behind `m_sem.Wait`
  claim : Move
  -- `LockAndPop`, under the mutex, of the task at a position
  pop : ℕ → Move
  -- the end of the `Execute` of one of the busy threads
  finish : ℕ → Move
  -- a thread behind `m_thread_sem.Wait`, and its second `m_main_sem.Post`
  wake : Move
  report : Move
  -- `Resume` posts; `Suspend` and `Resume` wait
  post_thread : Move
  wait_main : Move

-- A move, if it can be made.
unfoldable pub step : ThreadPool → Move → Option ThreadPool
unfolding after
step t (push j) = some (record t { queue = j ∷ t.queue; sem = t.sem + 1 })
step t claim =
    if ltb 0 t.waiting && ltb 0 t.sem
    then some (record t { waiting = t.waiting - 1; sem = t.sem - 1; claimed = t.claimed + 1 })
    else none
step t (pop k) = elim (get_elem? t.queue k) [
  | none ↦ none
  | some j ↦
      if ltb 0 t.claimed && is_top j t.queue
      then some
          (record t { claimed = t.claimed - 1; queue = remove_at k t.queue; busy = j ∷ t.busy })
      else none
]
step t (finish k) = elim (get_elem? t.busy k) [
  | none ↦ none
  | some j ↦ some (after j (record t { busy = remove_at k t.busy; finished = j ∷ t.finished }))
]
step t wake =
    if ltb 0 t.parked && ltb 0 t.thread_sem
    then some
        (record t { parked = t.parked - 1; thread_sem = t.thread_sem - 1; resumed = t.resumed + 1 })
    else none
step t report =
    if ltb 0 t.resumed
    then some
        (record t { resumed = t.resumed - 1; waiting = t.waiting + 1; main_sem = t.main_sem + 1 })
    else none
step t post_thread = some (record t { thread_sem = t.thread_sem + 1 })
step t wait_main = if ltb 0 t.main_sem then some (record t { main_sem = t.main_sem - 1 }) else none

unfoldable pub run : ThreadPool → List Move → Option ThreadPool
run t [] = some t
run t (m ∷ ms) = elim (step t m) [ none ↦ none | some t' ↦ run t' ms ]

-- What `Stop`, `Suspend` and `Resume` do to the queue and the semaphores before they wait.
unfoldable pub stop_moves : ℕ → List Move
stop_moves threads = replicate threads (push stop)

unfoldable pub suspend_moves : ℕ → List Move
suspend_moves threads = replicate threads (push suspend)

unfoldable pub resume_moves : ℕ → List Move
resume_moves threads = replicate threads post_thread
