-- ===== src/Pool/Conserved.antt =====
-- What every run of the pool keeps, whatever its threads do.
use greencloud.Base.{
  ℕ, zero, suc, ◌+◌, ◌≡◌, refl, subst, List, [], ◌∷◌, some, length, get_elem?, ◌∙◌, arith,
  Option-cases, inl, inr,
}
use greencloud.Pool.Threads.{
  Job, stop, remove_at, ThreadPool, check_num, create, after, Move, push, claim, pop, finish, wake,
  report, post_thread, wait_main, step, run,
}

-- The sum of a weight over a list of tasks, and over the tasks that moves push.
abbrev pub weigh : (Job → ℕ) → List Job → ℕ
weigh f [] = 0
weigh f (j ∷ js) = f j + weigh f js

abbrev pub pushed : (Job → ℕ) → List Move → ℕ
pushed f [] = 0
pushed f (push j ∷ ms) = f j + pushed f ms
pushed f (_ ∷ ms) = pushed f ms

abbrev pub is_stop : Job → ℕ
is_stop stop = 1
is_stop _ = 0

weigh-remove_at :
    (f : Job → ℕ) (k : ℕ) (js : List Job) (j : Job)
    → get_elem? js k ≡ some j
    → f j + weigh f (remove_at k js) ≡ weigh f js
weigh-remove_at f k [] j e = absurd (ground arith)
weigh-remove_at f zero (x ∷ js) j e = ground arith
weigh-remove_at f (suc k) (x ∷ js) j e = omega (arith, weigh-remove_at f k js j e)

abbrev one : Job → ℕ
one j = 1

pub length-weigh : (js : List Job) → length js ≡ weigh one js
length-weigh [] = refl
length-weigh (j ∷ js) = omega (arith, length-weigh js)

-- Where all the threads of a pool are.
abbrev pub threads : ThreadPool → ℕ
threads t = t.waiting + t.claimed + length t.busy + t.parked + t.resumed + t.ended

abbrev pub held : (Job → ℕ) → ThreadPool → ℕ
held f t = weigh f t.queue + weigh f t.busy + weigh f t.finished

-- What a move keeps of a pool: the gap between semaphore and queue, the threads, and the tasks.
pub record Keeps (t u : ThreadPool) (m : Move) : Type 0 where
  pub same_threads : threads u ≡ threads t
  pub same_gap : t.sem + t.claimed ≡ length t.queue → u.sem + u.claimed ≡ length u.queue
  pub same_ended : t.ended ≡ weigh is_stop t.finished → u.ended ≡ weigh is_stop u.finished
  pub same_held : (f : Job → ℕ) → held f u ≡ held f t + pushed f (m ∷ [])

step-Keeps : (t u : ThreadPool) (m : Move) → step t m ≡ some u → Keeps t u m
unfolding step after
step-Keeps t u (push j) e = record {
  same_threads = ground arith;
  same_gap = λ h. ground arith;
  same_ended = λ h. ground arith;
  same_held = λ f. ground arith;
}
step-Keeps t u claim e = record {
  same_threads = ground arith;
  same_gap = λ h. ground arith;
  same_ended = λ h. ground arith;
  same_held = λ f. ground arith;
}
step-Keeps t u (pop k) e = elim (Option-cases (get_elem? t.queue k)) [
  | inl nothing ↦ absurd (ground arith)
  | inr (j, here) ↦
      let count = weigh-remove_at one k t.queue j here in
      let before = length-weigh t.queue in
      let behind = length-weigh (remove_at k t.queue) in
      record {
        same_threads = ground arith;
        same_gap = λ h. ground arith;
        same_ended = λ h. ground arith;
        same_held = λ f. let moved = weigh-remove_at f k t.queue j here in ground arith;
      }
]
step-Keeps t u (finish k) e = elim (Option-cases (get_elem? t.busy k)) [
  | inl nothing ↦ absurd (ground arith)
  | inr (j, here) ↦
      let count = weigh-remove_at one k t.busy j here in
      let before = length-weigh t.busy in
      let behind = length-weigh (remove_at k t.busy) in
      record {
        same_threads = ground arith;
        same_gap = λ h. ground arith;
        same_ended = λ h. ground arith;
        same_held = λ f. let moved = weigh-remove_at f k t.busy j here in ground arith;
      }
]
step-Keeps t u wake e = record {
  same_threads = ground arith;
  same_gap = λ h. ground arith;
  same_ended = λ h. ground arith;
  same_held = λ f. ground arith;
}
step-Keeps t u report e = record {
  same_threads = ground arith;
  same_gap = λ h. ground arith;
  same_ended = λ h. ground arith;
  same_held = λ f. ground arith;
}
step-Keeps t u post_thread e = record {
  same_threads = ground arith;
  same_gap = λ h. ground arith;
  same_ended = λ h. ground arith;
  same_held = λ f. ground arith;
}
step-Keeps t u wait_main e = record {
  same_threads = ground arith;
  same_gap = λ h. ground arith;
  same_ended = λ h. ground arith;
  same_held = λ f. ground arith;
}

-- The same for a run.
pub record Kept (t u : ThreadPool) (ms : List Move) : Type 0 where
  pub same_threads : threads u ≡ threads t
  pub same_gap : t.sem + t.claimed ≡ length t.queue → u.sem + u.claimed ≡ length u.queue
  pub same_ended : t.ended ≡ weigh is_stop t.finished → u.ended ≡ weigh is_stop u.finished
  pub same_held : (f : Job → ℕ) → held f u ≡ held f t + pushed f ms

pushed-cons :
    (f : Job → ℕ) (m : Move) (ms : List Move) → pushed f (m ∷ ms) ≡ pushed f (m ∷ []) + pushed f ms
pushed-cons f (push j) ms = omega arith
pushed-cons f claim ms = omega arith
pushed-cons f (pop k) ms = omega arith
pushed-cons f (finish k) ms = omega arith
pushed-cons f wake ms = omega arith
pushed-cons f report ms = omega arith
pushed-cons f post_thread ms = omega arith
pushed-cons f wait_main ms = omega arith

Kept-refl : (t u : ThreadPool) → t ≡ u → Kept t u []
Kept-refl t u same =
    subst (λ v. Kept t v []) same
      (record {
        same_threads = refl;
        same_gap = λ h. h;
        same_ended = λ h. h;
        same_held = λ f. omega arith;
      })

pub run-Kept : (t u : ThreadPool) (ms : List Move) → run t ms ≡ some u → Kept t u ms
unfolding run
run-Kept t u [] e = Kept-refl t u (ground arith)
run-Kept t u (m ∷ ms) e = elim (Option-cases (step t m)) [
  | inl refused ↦ absurd (ground arith)
  | inr (v, now) ↦
      let later : run v ms ≡ some u = ground arith in
      let first = step-Keeps t v m now in
      let rest = run-Kept v u ms later in
      record {
        same_threads = rest.same_threads ∙ first.same_threads;
        same_gap = λ h. rest.same_gap (first.same_gap h);
        same_ended = λ h. rest.same_ended (first.same_ended h);
        same_held = λ f. omega (arith, rest.same_held f, first.same_held f, pushed-cons f m ms);
      }
]

-- No task is lost, made up or executed twice, whatever the threads do: by any weight, the tasks
-- pushed since the pool was made are those that wait, those in execution and those executed.
pub run-held :
    (n : ℕ) (ms : List Move) (t : ThreadPool) (f : Job → ℕ)
    → run (create n) ms ≡ some t
    → held f t ≡ pushed f ms
unfolding create
run-held n ms t f e = omega (arith, (run-Kept (create n) t ms e).same_held f)

pub run-threads :
    (n : ℕ) (ms : List Move) (t : ThreadPool) → run (create n) ms ≡ some t → threads t ≡ check_num n
unfolding create
run-threads n ms t e = omega (arith, (run-Kept (create n) t ms e).same_threads)
