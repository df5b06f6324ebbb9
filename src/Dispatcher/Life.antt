-- ===== src/Dispatcher/Life.antt =====
-- What every history of a dispatcher and its callbacks keeps.
use greencloud.Base.{
  ℕ, ◌+◌, ◌-◌, ◌≡◌, refl, subst, Bool, true, false, List, [], ◌∷◌, ◌++◌, done, if◌then◌else◌, ◌==◌,
  arith, Bool-cases, Outcome-cases, inl, inr,
}
use greencloud.Dispatcher.Callbacks.{
  last_of, but_last, remove, count, Hub, Op, attach, detach, notify_all, close, set_link, step, run,
  opened,
}

abbrev pub one_if : Bool → ℕ
one_if b = if b then 1 else 0

count-append : (i : ℕ) (xs ys : List ℕ) → count i (xs ++ ys) ≡ count i xs + count i ys
count-append i [] ys = omega arith
count-append i (x ∷ xs) ys = omega (arith, count-append i xs ys)

count-last : (i y : ℕ) (ys : List ℕ) → count i (last_of y ys ∷ but_last y ys) ≡ count i (y ∷ ys)
count-last i y [] = refl
count-last i y (z ∷ ys) = omega (arith, count-last i z ys)

-- `Remove` takes one occurrence of its callback, and no other is lost.
count-remove : (c i : ℕ) (xs : List ℕ) → count i (remove c xs) ≡ count i xs - one_if (i == c)
unfolding remove
count-remove c i [] = omega arith
count-remove c i (x ∷ []) = let later = count-remove c i [] in ground arith
count-remove c i (x ∷ y ∷ ys) =
    let later = count-remove c i (y ∷ ys) in let moved = count-last i y ys in ground arith

-- Each link of a callback has one entry in the vector of the dispatcher, and nothing links to a
-- dispatcher that is gone.
pub record Settled (h : Hub) : Type 0 where
  pub entries : (i : ℕ) → h.exists ≡ true → count i h.callbacks ≡ one_if (h.linked i)
  pub gone : (i : ℕ) → h.exists ≡ false → h.linked i ≡ false

step-Settled : (h h' : Hub) (o : Op) → step h o ≡ done h' → Settled h → Settled h'
unfolding step
step-Settled h h' (attach c) eq s = record {
  entries = λ i on.
      let old = s.entries i in let sum = count-append i h.callbacks (c ∷ []) in ground arith;
  gone = λ i off. ground arith;
}
step-Settled h h' (detach c) eq s = record {
  entries = λ i on. let old = s.entries i in let sum = count-remove c i h.callbacks in ground arith;
  gone = λ i off. let old = s.gone i in ground arith;
}
step-Settled h h' notify_all eq s = record {
  entries = λ i on. let old = s.entries i in ground arith;
  gone = λ i off. let old = s.gone i in ground arith;
}
step-Settled h h' close eq s = record {
  entries = λ i on. ground arith;
  gone = λ i off. let old = s.entries i in ground arith;
}

run-Settled : (h h' : Hub) (os : List Op) → run h os ≡ done h' → Settled h → Settled h'
unfolding run
run-Settled h h' [] eq s = let same : h ≡ h' = ground arith in subst Settled same s
run-Settled h h' (o ∷ os) eq s = elim (Outcome-cases (step h o)) [
  | inl (m, now) ↦
      let later : run m os ≡ done h' = rw now at eq in
      run-Settled m h' os later (step-Settled h m o now s)
  | inr (f, failed) ↦ absurd (ground arith)
]

opened-Settled : Settled opened
unfolding opened
opened-Settled = record { entries = λ i on. refl; gone = λ i off. refl }

-- After any history of a dispatcher that still exists a message reaches each callback that is
-- linked to it exactly once, and no other.
pub run-notify_all :
    (os : List Op) (h : Hub) (i : ℕ)
    → run opened os ≡ done h
    → h.exists ≡ true
    → (h' : Hub) × (step h notify_all ≡ done h')
      × (count i h'.notified ≡ count i h.notified + one_if (h.linked i))
unfolding step
run-notify_all os h i eq on =
    let settled = run-Settled opened h os eq opened-Settled in
    let entry = settled.entries i on in
    let sum = count-append i h.notified h.callbacks in
    (record h { notified = h.notified ++ h.callbacks }, ground arith, omega arith)

-- After any history that is defined, a callback may be destroyed, whether the dispatcher still
-- exists or not: it never calls a dispatcher that is gone.
pub run-detach :
    (os : List Op) (h : Hub) (c : ℕ)
    → run opened os ≡ done h
    → (h' : Hub) × (step h (detach c) ≡ done h') × (h'.linked c ≡ false)
unfolding step
run-detach os h c eq =
    let settled = run-Settled opened h os eq opened-Settled in
    let gone = settled.gone c in
    elim (Bool-cases (h.linked c)) [
      | inl links ↦ (
        record h { callbacks = remove c h.callbacks; linked = set_link c false h.linked },
        ground arith,
        ground arith,
      )
      | inr free ↦ (h, ground arith, free)
    ]
