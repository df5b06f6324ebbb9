-- ===== src/Handleton/Single.antt =====
-- There is one instance at most, and its end.
use greencloud.Base.{
  ℕ, ◌≤◌, ◌≡◌, refl, subst, List, [], ◌∷◌, Option, none, some, All, arith, Option-cases, inl, inr,
}
use greencloud.Handleton.Moves.{
  Inside, free, entered, building, storing, Handleton, started, Move, load, lock, reload, build,
  store, release, step, run,
}

-- How the mutex's holder, the pointer and the number of objects go together.
abbrev Fits : Inside → Option ℕ → ℕ → Type 0
Fits building none n = n ≡ 0
Fits (storing a) none n = (a ≡ 0) × (n ≡ 1)
Fits _ none n = n ≡ 0
Fits free (some a) n = (a ≡ 0) × (n ≡ 1)
Fits entered (some a) n = (a ≡ 0) × (n ≡ 1)
Fits building (some a) n = ⊥
Fits (storing b) (some a) n = ⊥

record Valid (h : Handleton) : Type 0 where
  fits : Fits h.inside h.instance_ptr h.constructed
  same : All (λ a. a ≡ 0) h.returned

step-Valid : (h u : Handleton) (m : Move) → step h m ≡ some u → Valid h → Valid u
unfolding step
step-Valid h u load e v = record {
  fits = let f = v.fits in ground arith;
  same = let s = v.same in ground arith;
}
step-Valid h u lock e v = record {
  fits = let f = v.fits in ground arith;
  same = let s = v.same in ground arith;
}
step-Valid h u reload e v = record {
  fits = let f = v.fits in ground arith;
  same = let s = v.same in ground arith;
}
step-Valid h u build e v = record {
  fits = let f = v.fits in ground arith;
  same = let s = v.same in ground arith;
}
step-Valid h u store e v = record {
  fits = let f = v.fits in ground arith;
  same = let s = v.same in ground arith;
}
step-Valid h u release e v = record {
  fits = let f = v.fits in ground arith;
  same = let s = v.same in ground arith;
}

run-Valid : (h u : Handleton) (ms : List Move) → run h ms ≡ some u → Valid h → Valid u
unfolding run
run-Valid h u [] e v = let same : h ≡ u = ground arith in subst Valid same v
run-Valid h u (m ∷ ms) e v = elim (Option-cases (step h m)) [
  | inl refused ↦ absurd (ground arith)
  | inr (w, now) ↦
      let later : run w ms ≡ some u = ground arith in
      run-Valid w u ms later (step-Valid h w m now v)
]

started-Valid : Valid started
unfolding started
started-Valid = record { fits = refl; same = tt }

constructed-le : (i : Inside) (p : Option ℕ) (n : ℕ) → Fits i p n → n ≤ 1
constructed-le free none n h = omega arith
constructed-le entered none n h = omega arith
constructed-le building none n h = omega arith
constructed-le (storing a) none n h = omega arith
constructed-le free (some a) n h = omega arith
constructed-le entered (some a) n h = omega arith
constructed-le building (some a) n h = absurd h
constructed-le (storing b) (some a) n h = absurd h

once : (i : Inside) (p : Option ℕ) (n a : ℕ) → Fits i p n → p ≡ some a → n ≡ 1
once i none n a h e = absurd (ground arith)
once free (some b) n a h e = h.1
once entered (some b) n a h e = h.1
once building (some b) n a h e = absurd h
once (storing c) (some b) n a h e = absurd h

-- In every interleaving of any number of calls one object is constructed at most, and all calls
-- that return give it.
pub run-returned :
    (ms : List Move) (h : Handleton)
    → run started ms ≡ some h
    → (h.constructed ≤ 1) × All (λ a. a ≡ 0) h.returned
run-returned ms h e =
    let v = run-Valid started h ms e started-Valid in
    (constructed-le h.inside h.instance_ptr h.constructed v.fits, v.same)

-- After `ReleaseResources` a call still returns the pointer that was stored, to an object that is
-- destroyed: nothing owns it, and no later call constructs another.
pub release-load :
    (ms : List Move) (h : Handleton) (a : ℕ)
    → run started ms ≡ some h
    → h.instance_ptr ≡ some a
    → (u : Handleton) × (run h (release ∷ load ∷ []) ≡ some u)
      × (u.owner ≡ none)
      × (u.returned ≡ a ∷ h.returned)
      × (u.constructed ≡ 1)
unfolding run step
release-load ms h a e stored =
    let v = run-Valid started h ms e started-Valid in
    let one = once h.inside h.instance_ptr h.constructed a v.fits stored in
    (record h { owner = none; returned = a ∷ h.returned }, ground arith, refl, refl, one)
