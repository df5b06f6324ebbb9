-- ===== src/Programs/Threaded/Picks.antt =====
-- An element that is taken out of a list of threads.
use greencloud.Base.{
  ℕ, zero, suc, ◌≡◌, refl, sym, List, [], ◌∷◌, ◌++◌, some, Option-cases, inl, inr, arith,
}
use mathlib.Core.List.{Perm}
use mathlib.Core.List.Perm
use greencloud.Data.{DriverData}
use greencloud.Programs.Threaded.{pick}

pub pick-append :
    (k : ℕ) (ds rest more : List DriverData) (d : DriverData)
    → pick k ds ≡ some (d, rest)
    → pick k (ds ++ more) ≡ some (d, rest ++ more)
pick-append k [] rest more d e = absurd (ground arith)
pick-append zero (x ∷ xs) rest more d e =
    let first : x ≡ d = ground arith in
    let behind : xs ≡ rest = ground arith in rw (first, behind) refl
pick-append (suc k) (x ∷ xs) rest more d e = elim (Option-cases (pick k xs)) [
  | inl nothing ↦ absurd (ground arith)
  | inr ((y, ys), found) ↦
      let first : y ≡ d = ground arith in
      let behind : x ∷ ys ≡ rest = ground arith in
      rw (pick-append k xs ys more y found, first, sym behind) refl
]

pub pick-Perm :
    (k : ℕ) (ds rest : List DriverData) (d : DriverData)
    → pick k ds ≡ some (d, rest)
    → Perm (d ∷ rest) ds
pick-Perm k [] rest d e = absurd (ground arith)
pick-Perm zero (x ∷ xs) rest d e =
    let first : x ≡ d = ground arith in
    let behind : xs ≡ rest = ground arith in rw (sym first, sym behind) (Perm.refl (x ∷ xs))
pick-Perm (suc k) (x ∷ xs) rest d e = elim (Option-cases (pick k xs)) [
  | inl nothing ↦ absurd (ground arith)
  | inr ((y, ys), found) ↦
      let first : y ≡ d = ground arith in
      let behind : x ∷ ys ≡ rest = ground arith in
      rw (sym first, sym behind)
        (Perm.trans (Perm.swap _ _ ys) (Perm.cons x (pick-Perm k xs ys y found)))
]
