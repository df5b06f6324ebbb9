-- ===== src/Programs/Threaded/Commuting.antt =====
-- Requests of which it does not matter which one a block device serves first.
use greencloud.Base.{
  ℕ, zero, suc, ◌+◌, ◌≤◌, ◌≡◌, refl, ap, ◌∙◌, sym, append-nil, subst, inl, inr, List, [], ◌∷◌, ◌++◌,
  Bytes, length, peek, poke, All, arith, some, Option-cases, peek-poke_before, peek-poke_after,
  poke-nil,
}
use mathlib.Core.List.{Perm}
use mathlib.Core.List.Perm
use greencloud.Data.{DriverData, FactoryKey, deliver}
use greencloud.Data.Keys
use greencloud.Programs.Threaded.{pick}
use greencloud.Storage.Iface.{HasPayload, payload}
use greencloud.Storage.Laws.{Apart, length-payload}
use greencloud.Programs.Serial.Device.{answers, device, Serves, IsServed, length-answers}

-- A write and another request that touches the block have ranges that do not meet.
abbrev pub Commute : FactoryKey → FactoryKey → DriverData → DriverData → Type 0
Commute Keys.write Keys.write d e = Apart d e
Commute Keys.write Keys.read d e = Apart d e
Commute Keys.read Keys.write d e = Apart d e
Commute _ _ d e = Unit

abbrev pub Commutes : DriverData → DriverData → Type 0
Commutes d e = Commute d.key e.key d e

-- Each request and all that come behind it.
abbrev pub Independent : List DriverData → Type 0
Independent [] = Unit
Independent (d ∷ ds) = All (Commutes d) ds × Independent ds

poke-poke_apart :
    (block : Bytes) (off from : ℕ) (bs cs : Bytes)
    → off + length bs ≤ from
    → poke (poke block off bs) from cs ≡ poke (poke block from cs) off bs
poke-poke_apart [] off from bs cs h = refl
poke-poke_apart (b ∷ block) zero from [] cs h = sym (poke-nil (poke (b ∷ block) from cs) 0)
poke-poke_apart (b ∷ block) zero zero (x ∷ bs) cs h = absurd (omega arith)
poke-poke_apart (b ∷ block) zero (suc from) (x ∷ bs) cs h =
    ap (◌∷◌ x) (poke-poke_apart block zero from bs cs (omega arith))
poke-poke_apart (b ∷ block) (suc off) zero bs cs h = absurd (omega arith)
poke-poke_apart (b ∷ block) (suc off) (suc from) bs cs h =
    ap (◌∷◌ b) (poke-poke_apart block off from bs cs (omega arith))

peek-poke-Apart :
    (d e : DriverData) (block : Bytes)
    → HasPayload d
    → Apart d e
    → peek (poke block d.offset (payload d)) e.offset e.len ≡ peek block e.offset e.len
peek-poke-Apart d e block full (inl before) =
    peek-poke_after block d.offset e.offset e.len (payload d) (omega (arith, length-payload d full))
peek-poke-Apart d e block full (inr after) =
    peek-poke_before block d.offset e.offset e.len (payload d) after

Apart-symm : (d e : DriverData) → Apart d e → Apart e d
Apart-symm d e (inl before) = inr before
Apart-symm d e (inr after) = inl after

-- The block of a device, and its answers in any order.
abbrev pub Same : Bytes × List DriverData → Bytes × List DriverData → Type 0
Same s t = (s.0 ≡ t.0) × Perm s.1 t.1

pub Same-trans : (s t u : Bytes × List DriverData) → Same s t → Same t u → Same s u
Same-trans s t u (b, p) (c, q) = (b ∙ c, Perm.trans p q)

pub pick-All :
    (P : DriverData → Type 0) (k : ℕ) (ds rest more : List DriverData) (d : DriverData)
    → pick k ds ≡ some (d, rest)
    → All P (ds ++ more)
    → P d × All P (rest ++ more)
pick-All P k [] rest more d e all = absurd (ground arith)
pick-All P zero (x ∷ xs) rest more d e (here, others) =
    let first : x ≡ d = ground arith in
    let behind : xs ≡ rest = ground arith in (subst P first here, rw (sym behind) others)
pick-All P (suc k) (x ∷ xs) rest more d e (here, others) = elim (Option-cases (pick k xs)) [
  | inl nothing ↦ absurd (ground arith)
  | inr ((y, ys), found) ↦
      let first : y ≡ d = ground arith in
      let behind : x ∷ ys ≡ rest = ground arith in
      let (there, left) = pick-All P k xs ys more y found others in
      (subst P first there, rw (sym behind) (here, left))
]

pub pick-Independent :
    (k : ℕ) (ds rest more : List DriverData) (d : DriverData)
    → pick k ds ≡ some (d, rest)
    → Independent (ds ++ more)
    → Independent (rest ++ more)
pick-Independent k [] rest more d e apart = absurd (ground arith)
pick-Independent zero (x ∷ xs) rest more d e (here, others) =
    let behind : xs ≡ rest = ground arith in rw (sym behind) others
pick-Independent (suc k) (x ∷ xs) rest more d e (here, others) = elim (Option-cases (pick k xs)) [
  | inl nothing ↦ absurd (ground arith)
  | inr ((y, ys), found) ↦
      let behind : x ∷ ys ≡ rest = ground arith in
      rw (sym behind) (
        (pick-All (Commutes x) k xs ys more y found here).1,
        pick-Independent k xs ys more y found others,
      )
]

module _ (junk : ℕ → ℕ) where
  answers-Commute :
      (k l : FactoryKey) (d e : DriverData) (block : Bytes)
      → Serves (length block) k d
      → Serves (length block) l e
      → Commute k l d e
      → ((answers junk l e (answers junk k d block).0).0
          ≡ (answers junk k d (answers junk l e block).0).0)
        × ((answers junk l e (answers junk k d block).0).1 ≡ (answers junk l e block).1)
        × ((answers junk k d (answers junk l e block).0).1 ≡ (answers junk k d block).1)
  answers-Commute Keys.write Keys.write d e block (fits, full) (inside, whole) (inl before) = (
    poke-poke_apart block d.offset e.offset (payload d) (payload e)
        (omega (arith, length-payload d full)),
    refl,
    refl,
  )
  answers-Commute Keys.write Keys.write d e block (fits, full) (inside, whole) (inr after) = (
    sym (
        poke-poke_apart block e.offset d.offset (payload e) (payload d)
          (omega (arith, length-payload e whole))),
    refl,
    refl,
  )
  answers-Commute Keys.write Keys.read d e block (fits, full) inside apart =
      (refl, ap (λ got. deliver junk got e) (peek-poke-Apart d e block full apart), refl)
  answers-Commute Keys.read Keys.write d e block fits (inside, whole) apart = (
    refl,
    refl,
    ap (λ got. deliver junk got d) (peek-poke-Apart e d block whole (Apart-symm d e apart)),
  )
  answers-Commute _ _ d e block fits inside apart = (refl, refl, refl)

  -- What was answered before does not matter.
  pub device-told :
      (ds : List DriverData) (block : Bytes) (told told' : List DriverData)
      → Perm told told'
      → Same (device junk ds (block, told)) (device junk ds (block, told'))
  device-told [] block told told' p = (refl, p)
  device-told (d ∷ ds) block told told' p =
      let (block', answer) = answers junk d.key d block in
      device-told ds block' (answer ∷ told) (answer ∷ told') (Perm.cons answer p)

  told_swapped :
      (ds : List DriverData) (block block' : Bytes) (a a' c c' : DriverData)
      (told : List DriverData)
      → block ≡ block'
      → a ≡ a'
      → c ≡ c'
      → Same (device junk ds (block, a ∷ c ∷ told)) (device junk ds (block', c' ∷ a' ∷ told))
  told_swapped ds block block' a a' c c' told same first second =
      rw (same, first, second)
        (device-told ds block' (a' ∷ c' ∷ told) (c' ∷ a' ∷ told) (Perm.swap _ _ told))

  device-swap :
      (d e : DriverData) (ds : List DriverData) (block : Bytes) (told : List DriverData)
      → IsServed (length block) d
      → IsServed (length block) e
      → Commutes d e
      → Same (device junk (e ∷ d ∷ ds) (block, told)) (device junk (d ∷ e ∷ ds) (block, told))
  device-swap d e ds block told fits inside apart =
      let (same, second, first) = answers-Commute d.key e.key d e block fits inside apart in
      told_swapped ds _ _ _ _ _ _ told (sym same) first (sym second)

  -- A request may be served before those that came before it.
  pub device-pick :
      (k : ℕ) (ds rest : List DriverData) (d : DriverData) (block : Bytes) (told : List DriverData)
      → pick k ds ≡ some (d, rest)
      → All (IsServed (length block)) ds
      → Independent ds
      → Same (device junk (d ∷ rest) (block, told)) (device junk ds (block, told))
  device-pick k [] rest d block told e fits apart = absurd (ground arith)
  device-pick zero (x ∷ xs) rest d block told e fits apart =
      let first : x ≡ d = ground arith in
      let behind : xs ≡ rest = ground arith in rw (sym first, sym behind) (refl, Perm.refl _)
  device-pick (suc k) (x ∷ xs) rest d block told e (fits, inside) (apart, others) =
      elim (Option-cases (pick k xs)) [
        | inl nothing ↦ absurd (ground arith)
        | inr ((y, ys), found) ↦
            let first : y ≡ d = ground arith in
            let behind : x ∷ ys ≡ rest = ground arith in
            let whole : xs ++ [] ≡ xs = append-nil xs in
            let (block', answer) = answers junk x.key x block in
            let served =
              (pick-All (IsServed (length block)) k xs ys [] y found (rw whole inside)).0 in
            let meets = (pick-All (Commutes x) k xs ys [] y found (rw whole apart)).0 in
            let later : Same (device junk (y ∷ ys) (block', answer ∷ told))
                (device junk xs (block', answer ∷ told)) =
              device-pick k xs ys y block' (answer ∷ told) found
                (rw (length-answers junk x.key x block) inside) others in
            rw (sym first, sym behind)
              (Same-trans _ (device junk (x ∷ y ∷ ys) (block, told)) _
                (device-swap x y ys block told fits served meets) later)
      ]
