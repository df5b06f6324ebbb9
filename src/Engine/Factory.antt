-- ===== src/Engine/Factory.antt =====
-- `Factory` of include/factory.hpp, for any type of keys that can be compared.
use greencloud.Base.{
  ◌≡◌, ◌≢◌, ◌↔◌, List, [], ◌∷◌, Option, none, some, Outcome, done, fails, bad_key, arith,
}

pub data AddStatus : Type 0 where
  new : AddStatus
  updated : AddStatus

module _ {ℓ κ} {Key : Type ℓ} {Creator : Type κ} (same : Discrete Key) where
  abbrev pub find : List (Key × Creator) → Key → Option Creator
  find [] k = none
  find ((j, f) ∷ t) k = elim (same j k) [ yes _ ↦ some f | no _ ↦ find t k ]

  -- `m_umap[key] = func`: the entry of a key that is there is replaced.
  abbrev pub assign : List (Key × Creator) → Key → Creator → List (Key × Creator)
  assign [] k f = (k, f) ∷ []
  assign ((j, g) ∷ t) k f = elim (same j k) [ yes _ ↦ (j, f) ∷ t | no _ ↦ (j, g) ∷ assign t k f ]

  -- `Add`: the status is the number of entries that the key had.
  unfoldable pub add : List (Key × Creator) → Key → Creator → AddStatus × List (Key × Creator)
  add t k f = (elim (find t k) [ none ↦ AddStatus.new | some _ ↦ AddStatus.updated ], assign t k f)

  -- `Create` finds the creator or throws `Badkey`.
  unfoldable pub creator : List (Key × Creator) → Key → Outcome Creator
  creator t k = elim (find t k) [ none ↦ fails bad_key | some f ↦ done f ]

  find-assign : (t : List (Key × Creator)) (k : Key) (f : Creator) → find (assign t k f) k ≡ some f
  find-assign [] k f = ground arith
  find-assign ((j, g) ∷ t) k f = let later = find-assign t k f in ground arith

  find-assign_other :
      (t : List (Key × Creator)) (k i : Key) (f : Creator)
      → k ≢ i
      → find (assign t k f) i ≡ find t i
  find-assign_other [] k i f other = ground arith
  find-assign_other ((j, g) ∷ t) k i f other =
      let later = find-assign_other t k i f other in ground arith

  -- A key that was added makes what its last creator makes, and every other key what it made
  -- before; `Add` says that the key is new exactly when `Create` would have thrown `Badkey`.
  pub add-creator :
      (t : List (Key × Creator)) (k i : Key) (f : Creator)
      → k ≢ i
      → (creator (add t k f).1 k ≡ done f)
        × (creator (add t k f).1 i ≡ creator t i)
        × (((add t k f).0 ≡ AddStatus.new) ↔ (creator t k ≡ fails bad_key))
  unfolding add creator
  add-creator t k i f other = (
    let here = find-assign t k f in ground arith,
    let there = find-assign_other t k i f other in ground arith,
    (λ h. ground arith, λ h. ground arith),
  )
