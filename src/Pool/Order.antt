-- ===== src/Pool/Order.antt =====
-- Which task a thread of the pool takes.
use greencloud.Base.{
  ℕ, suc, ◌+◌, ◌-◌, ◌<◌, ◌≡◌, refl, true, false, List, [], ◌∷◌, some, length, get_elem?, ap, ◌∙◌,
  arith, Bool-cases, inl, inr,
}
use greencloud.Pool.Threads.{
  Job, work, stop, suspend, priority, task_lt, is_top, remove_at, ThreadPool, create, Move, pop,
  step, run,
}
use greencloud.Pool.Conserved.{weigh, is_stop, run-Kept}

is_top-le :
    (j x : Job) (q : List Job) → (task_lt x j ≡ false) → is_top j q ≡ true → is_top x q ≡ true
is_top-le j x [] le top = refl
is_top-le j x (y ∷ q) le top =
    let rest : is_top j q ≡ true = ground arith in
    let later = is_top-le j x q le rest in ground arith

pub top_exists :
    (x : Job) (q : List Job)
    → (k : ℕ) × (j : Job) × (get_elem? (x ∷ q) k ≡ some j) × (is_top j (x ∷ q) ≡ true)
top_exists x [] = (0, x, refl, ground arith)
top_exists x (y ∷ q) =
    let (k, j, here, top) = top_exists y q in
    elim (Bool-cases (task_lt j x)) [
      | inl less ↦
          let le : task_lt x j ≡ false = ground arith in
          let others = is_top-le j x (y ∷ q) le top in (0, x, refl, ground arith)
      | inr more ↦ (suc k, j, here, ground arith)
    ]

queue_pops :
    (t : ThreadPool) (q : List Job)
    → t.queue ≡ q
    → 0 < t.claimed
    → 0 < length q
    → (k : ℕ) × (u : ThreadPool) × (step t (pop k) ≡ some u)
unfolding step
queue_pops t [] same some_claimed full = absurd (omega arith)
queue_pops t (x ∷ q) same some_claimed full =
    let (k, j, here, top) = top_exists x q in
    let there : get_elem? t.queue k ≡ some j = ap (λ l. get_elem? l k) same ∙ here in
    let highest : is_top j t.queue ≡ true = ap (is_top j) same ∙ top in
    (
      k,
      record t { claimed = t.claimed - 1; queue = remove_at k t.queue; busy = j ∷ t.busy },
      ground arith,
    )

-- A thread that got past the semaphore finds a task to take under the mutex, in every run: the
-- queue is never popped while it is empty.
pub run-claimed :
    (n : ℕ) (ms : List Move) (t : ThreadPool)
    → run (create n) ms ≡ some t
    → 0 < t.claimed
    → (k : ℕ) × (u : ThreadPool) × (step t (pop k) ≡ some u)
unfolding create
run-claimed n ms t e some_claimed =
    let kept = run-Kept (create n) t ms e in
    let gap : t.sem + t.claimed ≡ length t.queue = kept.same_gap refl in
    queue_pops t t.queue refl some_claimed (omega arith)

is_top-stops : (j : Job) (q : List Job) → priority j < 3 → is_top j q ≡ true → weigh is_stop q ≡ 0
is_top-stops j [] low top = refl
is_top-stops j (work p i ∷ q) low top =
    let rest : is_top j q ≡ true = ground arith in omega (arith, is_top-stops j q low rest)
is_top-stops j (stop ∷ q) low top = absurd (ground arith)
is_top-stops j (suspend ∷ q) low top = absurd (ground arith)

-- A task of a user is taken only when no stop task waits: those of `Stop` overtake all tasks that
-- were added before.
pub step-pop :
    (t u : ThreadPool) (k p i : ℕ)
    → step t (pop k) ≡ some u
    → get_elem? t.queue k ≡ some (work p i)
    → p < 3
    → weigh is_stop t.queue ≡ 0
unfolding step
step-pop t u k p i e here low =
    let top : is_top (work p i) t.queue ≡ true = ground arith in
    is_top-stops (work p i) t.queue low top
