-- ===== src/Pool/Drained.antt =====
-- What comes out of the queue of include/wpriorityqueue.hpp.
use greencloud.Base.{
  ℕ, zero, suc, subst, ◌+◌, ◌-◌, ◌^◌, ◌<◌, ◌≡◌, refl, sym, ap, ◌∙◌, true, false, List, [], ◌∷◌,
  ◌++◌, none, some, done, length, get_elem?, ◌==◌, ltb, append-nil, arith,
}
use mathlib.Core.List.{Perm, perm_middle}
use mathlib.Core.List.Perm
use greencloud.Pool.Threads.{Job, task_lt, is_top, remove_at}
use greencloud.Pool.Semaphore.{value_max, post, wait, timed_wait}
use greencloud.Pool.Queue.{
  WPriorityQueue, empty, push, push_all, size, Documented, lock_and_pop, pop, pop_for, pop_all,
}

-- None comes before a greater one.
abbrev pub Falls : List Job → Type 0
Falls [] = Unit
Falls (j ∷ js) = (is_top j js ≡ true) × Falls js

remove_at-Perm :
    (k : ℕ) (q : List Job) (j : Job) → get_elem? q k ≡ some j → Perm (j ∷ remove_at k q) q
remove_at-Perm k [] j e = absurd (ground arith)
remove_at-Perm zero (x ∷ q) j e = let same : x ≡ j = ground arith in rw same (Perm.refl _)
remove_at-Perm (suc k) (x ∷ q) j e =
    Perm.trans (Perm.swap x j (remove_at k q)) (Perm.cons x (remove_at-Perm k q j e))

length-remove_at :
    (k : ℕ) (q : List Job) (j : Job)
    → get_elem? q k ≡ some j
    → suc (length (remove_at k q)) ≡ length q
length-remove_at k [] j e = absurd (ground arith)
length-remove_at zero (x ∷ q) j e = refl
length-remove_at (suc k) (x ∷ q) j e = omega (arith, length-remove_at k q j e)

is_top-remove_at :
    (i : Job) (k : ℕ) (q : List Job) → is_top i q ≡ true → is_top i (remove_at k q) ≡ true
is_top-remove_at i k [] e = refl
is_top-remove_at i zero (x ∷ q) e = ground arith
is_top-remove_at i (suc k) (x ∷ q) e =
    let rest : is_top i q ≡ true = ground arith in
    let later = is_top-remove_at i k q rest in ground arith

is_top-get_elem? :
    (i : Job) (k : ℕ) (q : List Job) (j : Job)
    → is_top i q ≡ true
    → get_elem? q k ≡ some j
    → task_lt i j ≡ false
is_top-get_elem? i k [] j e there = absurd (ground arith)
is_top-get_elem? i zero (x ∷ q) j e there =
    let same : x ≡ j = ground arith in rw (sym same) (ground arith)
is_top-get_elem? i (suc k) (x ∷ q) j e there =
    let rest : is_top i q ≡ true = ground arith in is_top-get_elem? i k q j rest there

empty_list : (q : List Job) → length q ≡ 0 → q ≡ []
empty_list [] e = refl
empty_list (x ∷ q) e = absurd (omega arith)

module _ (top : List Job → ℕ) (documented : Documented top) where
  -- What one `Pop` takes, and what it leaves.
  record Takes (n : ℕ) (w w' : WPriorityQueue) (j : Job) : Type 0 where
    popped : pop top w ≡ done (w', j)
    left : length w'.items ≡ n
    counts : w'.sem.value ≡ n
    taken : Perm (j ∷ w'.items) w.items
    greatest : is_top j w'.items ≡ true
    below : (i : Job) → is_top i w.items ≡ true → (task_lt i j ≡ false) × (is_top i w'.items ≡ true)

  pop_lem :
      (n : ℕ) (w : WPriorityQueue)
      → length w.items ≡ suc n
      → w.sem.value ≡ suc n
      → (j : Job) × (w' : WPriorityQueue) × Takes n w w' j
  unfolding pop lock_and_pop wait
  pop_lem n w long counts =
      let (j, there, greatest) = documented w.items (omega arith) in
      let shorter = length-remove_at (top w.items) w.items j there in
      let some_left : (w.sem.value == 0) ≡ false = ground arith in
      (
        j,
        record {
          sem = record { value = w.sem.value - 1 };
          items = remove_at (top w.items) w.items;
        },
        record {
          popped = rw (some_left, lock_and_pop, there) refl;
          left = omega arith;
          counts = omega arith;
          taken = remove_at-Perm (top w.items) w.items j there;
          greatest = is_top-remove_at j (top w.items) w.items greatest;
          below = λ i above. (
            is_top-get_elem? i (top w.items) w.items j above there,
            is_top-remove_at i (top w.items) w.items above,
          );
        },
      )

  -- What several leave and hand out.
  record Drains (n : ℕ) (w w' : WPriorityQueue) (out : List Job) : Type 0 where
    popped : pop_all top n w ≡ done (w', out)
    nothing : w'.items ≡ []
    zero_left : w'.sem.value ≡ 0
    taken : Perm out w.items
    falls : Falls out
    below : (i : Job) → is_top i w.items ≡ true → is_top i out ≡ true

  Takes-Drains :
      (n : ℕ) (w w₁ w' : WPriorityQueue) (j : Job) (out : List Job)
      → Takes n w w₁ j
      → Drains n w₁ w' out
      → Drains (suc n) w w' (j ∷ out)
  unfolding pop_all
  Takes-Drains n w w₁ w' j out t d = record {
    popped = rw (t.popped, d.popped) refl;
    nothing = d.nothing;
    zero_left = d.zero_left;
    taken = Perm.trans (Perm.cons j d.taken) t.taken;
    falls = (d.below j t.greatest, d.falls);
    below = λ i above.
        let (first, others) = t.below i above in let rest = d.below i others in ground arith;
  }

  pop_all_lem :
      (n : ℕ) (w : WPriorityQueue)
      → length w.items ≡ n
      → w.sem.value ≡ n
      → (w' : WPriorityQueue) × (out : List Job) × Drains n w w' out
  unfolding pop_all
  pop_all_lem zero w short counts =
      let none_left = empty_list w.items short in
      (
        w,
        [],
        record {
          popped = refl;
          nothing = none_left;
          zero_left = counts;
          taken = rw none_left (Perm.refl []);
          falls = tt;
          below = λ i above. refl;
        },
      )
  pop_all_lem (suc n) w long counts =
      let (j, w₁, t) = pop_lem n w long counts in
      let (w', out, d) = pop_all_lem n w₁ t.left t.counts in
      (w', j ∷ out, Takes-Drains n w w₁ w' j out t d)

  pop_for-zero : (w : WPriorityQueue) → w.sem.value ≡ 0 → pop_for top w ≡ done (w, none)
  unfolding pop_for timed_wait
  pop_for-zero w e =
      let none_left : (w.sem.value == 0) ≡ true = ground arith in
      rw (pop_for, timed_wait, none_left) refl

  push_all_lem :
      (js : List Job) (w : WPriorityQueue)
      → w.sem.value ≡ length w.items
      → length js + length w.items < 2 ^ 31
      → (w' : WPriorityQueue) × (push_all js w ≡ done w')
        × (w'.sem.value ≡ length w'.items)
        × (length w'.items ≡ length js + length w.items)
        × Perm w'.items (js ++ w.items)
  unfolding push_all post
  push_all_lem [] w counts room = (w, refl, counts, omega arith, Perm.refl w.items)
  push_all_lem (j ∷ js) w counts room =
      let w₁ : WPriorityQueue = record {
        sem = record { value = w.sem.value + 1 };
        items = j ∷ w.items;
      } in
      let (w', pushed, same, longer, perm) = push_all_lem js w₁ (omega arith) (omega arith) in
      let free : ltb w.sem.value value_max ≡ true = ground arith in
      (
        w',
        rw (push, post, free) pushed,
        same,
        omega arith,
        Perm.trans perm (perm_middle js w.items),
      )

  -- What is pushed comes out, by priority. Fewer than 2^31 tasks that are pushed into an empty
  -- queue are popped again by as many calls of `Pop`, whichever element of several that are
  -- greatest `std::priority_queue` takes for its top: each of them once, none before one of a
  -- higher priority. The queue and its semaphore are empty then, and a `Pop` with a time-out
  -- returns false.
  pub pop_all-Falls :
      (js : List Job)
      → length js < 2 ^ 31
      → (w : WPriorityQueue) × (w' : WPriorityQueue) × (out : List Job) × (push_all js empty
          ≡ done w)
        × (pop_all top (length js) w ≡ done (w', out))
        × Perm out js
        × Falls out
        × (size w' ≡ 0)
        × (pop_for top w' ≡ done (w', none))
  unfolding size
  pop_all-Falls js room =
      let (w, pushed, counts, long, perm) = push_all_lem js empty refl (omega arith) in
      let all : length w.items ≡ length js = omega arith in
      let (w', out, d) = pop_all_lem (length js) w all (counts ∙ all) in
      (
        w,
        w',
        out,
        pushed,
        d.popped,
        Perm.trans d.taken (subst (Perm w.items) (append-nil js) perm),
        d.falls,
        ap length d.nothing,
        pop_for-zero w' d.zero_left,
      )
