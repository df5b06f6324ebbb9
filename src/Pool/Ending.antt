-- ===== src/Pool/Ending.antt =====
-- The end of a pool's threads.
use greencloud.Base.{
  ℕ, ◌+◌, ◌≡◌, refl, List, [], ◌∷◌, none, some, length, get_elem?, ap, ◌∙◌, ◌↔◌, arith,
  Option-cases, inl, inr,
}
use greencloud.Pool.Threads.{
  Job, ThreadPool, check_num, create, Move, push, claim, pop, finish, wake, report, post_thread,
  wait_main, step, run,
}
use greencloud.Pool.Conserved.{weigh, pushed, is_stop, threads, run-Kept, run-threads}

-- If as many stop tasks were pushed as there are threads, as `Stop` does, then all threads have
-- ended, and its joins return, exactly when each stop task was executed; each ended one thread.
pub run-ended :
    (n : ℕ) (ms : List Move) (t : ThreadPool)
    → run (create n) ms ≡ some t
    → pushed is_stop ms ≡ check_num n
    → (t.ended ≡ check_num n) ↔ (weigh is_stop t.queue + weigh is_stop t.busy ≡ 0)
unfolding create
run-ended n ms t e all =
    let kept = run-Kept (create n) t ms e in
    let ends : t.ended ≡ weigh is_stop t.finished = kept.same_ended refl in
    let sum = kept.same_held is_stop in (λ h. omega arith, λ h. omega arith)

-- No thread is left but those that have ended.
abbrev Idle : ThreadPool → Type 0
Idle t = (threads t ≡ t.ended) × (t.busy ≡ [])

step-Idle :
    (t u : ThreadPool) (m : Move) → step t m ≡ some u → Idle t → Idle u × (u.finished ≡ t.finished)
unfolding step
step-Idle t u (push j) e (alone, none_busy) = ((ground arith, ground arith), ground arith)
step-Idle t u claim e (alone, none_busy) = absurd (ground arith)
step-Idle t u (pop k) e (alone, none_busy) = elim (Option-cases (get_elem? t.queue k)) [
  | inl nothing ↦ absurd (ground arith)
  | inr (j, here) ↦ absurd (ground arith)
]
step-Idle t u (finish k) e (alone, none_busy) =
    let empty : get_elem? t.busy k ≡ none = ap (λ l. get_elem? l k) none_busy in
    absurd (ground arith)
step-Idle t u wake e (alone, none_busy) = absurd (ground arith)
step-Idle t u report e (alone, none_busy) = absurd (ground arith)
step-Idle t u post_thread e (alone, none_busy) = ((ground arith, ground arith), ground arith)
step-Idle t u wait_main e (alone, none_busy) = ((ground arith, ground arith), ground arith)

run-Idle :
    (t u : ThreadPool) (ms : List Move) → run t ms ≡ some u → Idle t → u.finished ≡ t.finished
unfolding run
run-Idle t u [] e idle = ground arith
run-Idle t u (m ∷ ms) e idle = elim (Option-cases (step t m)) [
  | inl refused ↦ absurd (ground arith)
  | inr (v, now) ↦
      let later : run v ms ≡ some u = ground arith in
      let (idle', same) = step-Idle t v m now idle in run-Idle v u ms later idle' ∙ same
]

length_zero : (js : List Job) → length js ≡ 0 → js ≡ []
length_zero [] h = refl
length_zero (j ∷ js) h = absurd (omega arith)

-- When all threads have ended, what waits in the queue then is never executed: whatever is done
-- with the pool, its executed tasks stay as they are.
pub run-joined :
    (n : ℕ) (ms later : List Move) (t u : ThreadPool)
    → run (create n) ms ≡ some t
    → t.ended ≡ check_num n
    → run t later ≡ some u
    → u.finished ≡ t.finished
unfolding create
run-joined n ms later t u e all e' =
    let sum = run-threads n ms t e in
    run-Idle t u later e' (omega arith, length_zero t.busy (omega arith))
