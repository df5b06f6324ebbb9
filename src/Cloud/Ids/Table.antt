-- ===== src/Cloud/Ids/Table.antt =====
-- The table of waiting requests as a map from numbers to handles.
use mathlib.Core.List.{Perm}
use mathlib.Core.List.Perm
use greencloud.Base.{
  ℕ, ◌+◌, ◌<◌, ◌≡◌, refl, true, false, List, [], ◌∷◌, Bytes, done, fails, undefined, Option, none,
  some, Outcome-cases, Bool-cases, inl, inr, if◌then◌else◌, arith, ◌⊎◌, ◌≤◌, ◌^◌, lt→ltb,
}
use greencloud.Base.Int.{ℤ, pos, negsuc}
use greencloud.Cloud.Ids.{Ids, int_eq, handler_to_id, take_id, id_to_handler}

pub int_eq→eq : (i j : ℤ) → int_eq i j ≡ true → i ≡ j
int_eq→eq (pos a) (pos b) h = ground arith
int_eq→eq (negsuc a) (negsuc b) h = ground arith
int_eq→eq (pos a) (negsuc b) h = cc
int_eq→eq (negsuc a) (pos b) h = cc

pub int_eq_refl : (i : ℤ) → int_eq i i ≡ true
int_eq_refl (pos a) = ground arith
int_eq_refl (negsuc a) = ground arith

-- The handle that waits under a number.
abbrev pub pending : List (ℤ × Bytes) → ℤ → Option Bytes
pending [] i = none
pending ((j, h) ∷ l) i = if int_eq i j then some h else pending l i

-- Numbers fall along the table, from the last one handed out.
abbrev pub Falls : ℕ → List (ℤ × Bytes) → Type 0
Falls n [] = Unit {0}
Falls n ((pos j, h) ∷ l) = (j < n) × Falls j l
Falls n ((negsuc j, h) ∷ l) = ⊥

abbrev pub IsValid : Ids → Type 0
IsValid t = Falls (t.last + 1) t.table

pending_above : (n i : ℕ) (l : List (ℤ × Bytes)) → Falls n l → n < i + 1 → pending l (pos i) ≡ none
pending_above n i [] f h = refl
pending_above n i ((pos j, k) ∷ l) f h = ground (arith, pending_above j i l f.1)
pending_above n i ((negsuc j, k) ∷ l) f h = absurd f

int_eq_sym : (i j : ℤ) → int_eq i j ≡ int_eq j i
int_eq_sym (pos a) (pos b) = ground arith
int_eq_sym (negsuc a) (negsuc b) = ground arith
int_eq_sym (pos a) (negsuc b) = refl
int_eq_sym (negsuc a) (pos b) = refl

take_id-none : (i : ℤ) (l : List (ℤ × Bytes)) → pending l i ≡ none → take_id i l ≡ fails undefined
unfolding take_id
take_id-none i [] e = refl
take_id-none i ((j, k) ∷ l) e = ground (arith, take_id-none i l)

-- A successful search stopped at the head or went on behind it.
take_id_inv :
    (i j : ℤ) (k h : Bytes) (l l' : List (ℤ × Bytes))
    → take_id i ((j, k) ∷ l) ≡ done (h, l')
    → ((i ≡ j) × (k ≡ h) × (l ≡ l'))
      ⊎ ((l'' : List (ℤ × Bytes)) × (take_id i l ≡ done (h, l'')) × (l' ≡ (j, k) ∷ l''))
unfolding take_id
take_id_inv i j k h l l' e = elim (Bool-cases (int_eq i j)) [
  | inl same ↦ inl (int_eq→eq i j same, ground arith, ground arith)
  | inr other ↦ elim (Outcome-cases (take_id i l)) [
    | inl ((h', l''), here) ↦ inr (l'', ground arith, ground arith)
    | inr (f, here) ↦ absurd (ground arith)
  ]
]

pub take_id-perm :
    (i : ℤ) (l l' : List (ℤ × Bytes)) (h : Bytes)
    → take_id i l ≡ done (h, l')
    → Perm l ((i, h) ∷ l')
take_id-perm i [] l' h e = unfold take_id in cc
take_id-perm i ((j, k) ∷ l) l' h e = elim (take_id_inv i j k h l l' e) [
  | inl (ij, kh, ll) ↦ rw (ij, ← kh, ← ll) (Perm.refl ((j, k) ∷ l))
  | inr (l'', here, shape) ↦
      rw shape
        (Perm.trans (Perm.cons (j, k) (take_id-perm i l l'' h here)) (Perm.swap (i, h) (j, k) l''))
]

Falls-mono : (m n : ℕ) (l : List (ℤ × Bytes)) → m ≤ n → Falls m l → Falls n l
Falls-mono m n [] h f = tt
Falls-mono m n ((pos j, k) ∷ l) h f = (omega arith, f.1)
Falls-mono m n ((negsuc j, k) ∷ l) h f = f

pending-tail :
    (j : ℕ) (i q : ℤ) (k : Bytes) (l : List (ℤ × Bytes))
    → Falls j l
    → int_eq i (pos j) ≡ true
    → pending l q ≡ (if int_eq q i then none else pending ((pos j, k) ∷ l) q)
pending-tail j i q k l f same =
    rw (int_eq→eq i (pos j) same) (elim (Bool-cases (int_eq q (pos j))) [
      | inl hit ↦ rw hit (rw (int_eq→eq q (pos j) hit) (pending_above j j l f (omega arith)))
      | inr miss ↦ rw miss refl
    ])

pending-skip :
    (j i q : ℤ) (k : Bytes) (l l' : List (ℤ × Bytes))
    → int_eq i j ≡ false
    → pending l' q ≡ (if int_eq q i then none else pending l q)
    → pending ((j, k) ∷ l') q ≡ (if int_eq q i then none else pending ((j, k) ∷ l) q)
pending-skip j i q k l l' other h = elim (Bool-cases (int_eq q i)) [
  | inl hit ↦
      let qi : q ≡ i = int_eq→eq q i hit in
      let miss : int_eq q j ≡ false = rw qi other in ground arith
  | inr miss ↦ ground arith
]

-- Taking a waiting number gives its handle, and leaves every other number as it was.
pub take_id_lem :
    (n : ℕ) (i : ℤ) (l : List (ℤ × Bytes)) (h : Bytes)
    → Falls n l
    → pending l i ≡ some h
    → (l' : List (ℤ × Bytes)) × (take_id i l ≡ done (h, l'))
      × Falls n l'
      × ((q : ℤ) → pending l' q ≡ (if int_eq q i then none else pending l q))
unfolding take_id
take_id_lem n i [] h f e = cc
take_id_lem n i ((negsuc j, k) ∷ l) h f e = absurd f
take_id_lem n i ((pos j, k) ∷ l) h f e = elim (Bool-cases (int_eq i (pos j))) [
  | inl same ↦
      (l, ground arith, Falls-mono j n l (omega arith) f.1, λ q. pending-tail j i q k l f.1 same)
  | inr other ↦
      let (l', took, falls, view) = take_id_lem j i l h f.1 (ground arith) in
      (
        (pos j, k) ∷ l',
        rw (other, took) refl,
        (f.0, falls),
        λ q. pending-skip (pos j) i q k l l' other (view q),
      )
]

-- A new number was not waiting, and now waits with its handle; all others are as before.
pub handler_to_id_lem :
    (t : Ids) (h : Bytes)
    → IsValid t
    → t.last + 1 < 2 ^ 31
    → (t' : Ids) × (handler_to_id t h ≡ done (t', pos (t.last + 1)))
      × IsValid t'
      × (pending t.table (pos (t.last + 1)) ≡ none)
      × ((q : ℤ)
          → pending t'.table q
            ≡ (if int_eq q (pos (t.last + 1)) then some h else pending t.table q))
unfolding handler_to_id
handler_to_id_lem t h valid room = (
  record { last = t.last + 1; table = (pos (t.last + 1), h) ∷ t.table },
  rw (lt→ltb _ _ room) refl,
  (omega arith, valid),
  pending_above (t.last + 1) (t.last + 1) t.table valid (omega arith),
  λ q. refl,
)

-- The reply to a waiting number gets the handle that was stored under it, and no other number
-- changes: replies may come in any order.
pub id_to_handler_lem :
    (t : Ids) (i : ℤ) (h : Bytes)
    → IsValid t
    → pending t.table i ≡ some h
    → (t' : Ids) × (id_to_handler t i ≡ done (t', h))
      × IsValid t'
      × ((q : ℤ) → pending t'.table q ≡ (if int_eq q i then none else pending t.table q))
unfolding id_to_handler
id_to_handler_lem t i h valid waits =
    let (l', took, falls, view) = take_id_lem (t.last + 1) i t.table h valid waits in
    (record t { table = l' }, rw took refl, falls, view)

-- A number that does not wait, such as that of a second reply to one request, runs off the list.
pub id_to_handler-undefined :
    (t : Ids) (i : ℤ) → pending t.table i ≡ none → id_to_handler t i ≡ fails undefined
unfolding id_to_handler
id_to_handler-undefined t i e = rw (take_id-none i t.table e) refl

pub take_id-Falls :
    (n : ℕ) (i : ℤ) (l l' : List (ℤ × Bytes)) (h : Bytes)
    → take_id i l ≡ done (h, l')
    → Falls n l
    → Falls n l'
take_id-Falls n i [] l' h e f = unfold take_id in cc
take_id-Falls n i ((negsuc j, k) ∷ l) l' h e f = absurd f
take_id-Falls n i ((pos j, k) ∷ l) l' h e f = elim (take_id_inv i (pos j) k h l l' e) [
  | inl (ij, kh, ll) ↦ rw (← ll) (Falls-mono j n l (omega arith) f.1)
  | inr (l'', here, shape) ↦ rw shape (f.0, take_id-Falls j i l l'' h here f.1)
]
