-- ===== src/Data/Buffers.antt =====
-- `std::vector<char>`, which the code uses both through its iterators (its size) and as raw memory
-- through `data()` (its capacity).
use greencloud.Base.{
  ℕ, zero, suc, ◌≡◌, refl, ap, [], ◌∷◌, ◌++◌, Bytes, length, take, arith, leb, if◌then◌else◌, ◌-◌,
  leb→le, Bool-cases, inl, inr, length-append, ◌≤◌,
}

-- `cells` is the memory that the vector owns, `size` how many of the cells are its elements.
pub record Vector : Type 0 where
  pub size : ℕ
  pub cells : Bytes

abbrev pub empty : Vector
empty = record { size = 0; cells = [] }

-- Memory that the allocator hands out: nothing is known of what stands in it.
unfoldable pub fresh : (ℕ → ℕ) → ℕ → Bytes
fresh junk zero = []
fresh junk (suc n) = junk n ∷ fresh junk n

-- `reserve`: the capacity grows to `n`, the elements and the size stay.
unfoldable pub reserve : (ℕ → ℕ) → ℕ → Vector → Vector
reserve junk n v =
    if leb n (length v.cells)
    then v
    else record v { cells = take v.size v.cells ++ fresh junk (n - length (take v.size v.cells)) }

pub length-fresh : (junk : ℕ → ℕ) (n : ℕ) → length (fresh junk n) ≡ n
unfolding fresh
length-fresh junk zero = refl
length-fresh junk (suc n) = ap suc (length-fresh junk n)

pub reserve-empty : (junk : ℕ → ℕ) (n : ℕ) → (reserve junk n empty).cells ≡ fresh junk n
unfolding reserve fresh
reserve-empty junk zero = refl
reserve-empty junk (suc n) = ground arith

pub le-length-reserve : (junk : ℕ → ℕ) (n : ℕ) (v : Vector) → n ≤ length (reserve junk n v).cells
unfolding reserve
le-length-reserve junk n v = elim (Bool-cases (leb n (length v.cells))) [
  | inl fits ↦ rw fits (leb→le _ _ fits)
  | inr grows ↦ rw grows (
      omega (
        arith,
        length-append (take v.size v.cells) (fresh junk (n - length (take v.size v.cells))),
        length-fresh junk (n - length (take v.size v.cells)),
      ))
]
