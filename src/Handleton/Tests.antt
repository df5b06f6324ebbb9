-- ===== src/Handleton/Tests.antt =====
-- Two threads that both see a null pointer, and a third call.
use greencloud.Base.{◌≤◌, ◌≡◌, refl, List, [], ◌∷◌, some, All}
use greencloud.Handleton.Moves.{
  Inside, Handleton, started, Move, load, lock, reload, build, store, step, run,
}
use greencloud.Handleton.Single.{run-returned}

abbrev race : List Move
race = load ∷ load ∷ lock ∷ reload ∷ build ∷ store ∷ lock ∷ reload ∷ load ∷ []

abbrev shared : Handleton
shared = record {
  instance_ptr = some 0;
  owner = some 0;
  constructed = 1;
  locking = 0;
  inside = Inside.free;
  returned = 0 ∷ 0 ∷ 0 ∷ [];
}

run-returned_example : (1 ≤ 1) × All (λ a. a ≡ 0) shared.returned
unfolding run step started
run-returned_example = run-returned race shared refl
