-- ===== src/Wire/Decimal/Shape.antt =====
-- What the print of a number looks like: no terminator, no `;`, and not too long.
use native.Mathlib.Nat.{pow-suc}
use greencloud.Base.{
  ℕ, zero, suc, ◌+◌, ◌/◌, ◌%◌, ◌^◌, ◌≤◌, ◌<◌, ◌≢◌, [], ◌∷◌, Bytes, arith, length, All,
}
use greencloud.Base.Int.{ℤ, pos, negsuc}
use greencloud.Wire.Decimal.{digits, show, show_int}
use greencloud.Wire.Decimal.RoundTrip.{IsInt}

abbrev pub IsPlain : ℕ → Type 0
IsPlain c = (0 < c) × (c ≢ b';')

digit-IsPlain : (n : ℕ) → IsPlain (b'0' + n % 10)
digit-IsPlain n = (omega arith, omega arith)

digits-IsPlain : (fuel n : ℕ) (out : Bytes) → All IsPlain out → All IsPlain (digits fuel n out)
unfolding digits
digits-IsPlain zero n out h = h
digits-IsPlain (suc fuel) n out h =
    ground (arith, digits-IsPlain fuel (n / 10) ((b'0' + n % 10) ∷ out) (digit-IsPlain n, h))

pub show-IsPlain : (n : ℕ) → All IsPlain (show n)
unfolding show
show-IsPlain n = ground (arith, digits-IsPlain n n [] tt)

pub show_int-IsPlain : (i : ℤ) → All IsPlain (show_int i)
unfolding show_int
show_int-IsPlain (pos n) = show-IsPlain n
show_int-IsPlain (negsuc n) = ((omega arith, omega arith), show-IsPlain (n + 1))

length-digits-le :
    (fuel k n : ℕ) (out : Bytes) → n < 10 ^ k → length (digits fuel n out) ≤ k + length out
unfolding digits
length-digits-le zero k n out h = omega arith
length-digits-le (suc fuel) zero n out h = ground arith
length-digits-le (suc fuel) (suc k) n out h =
    let shorter : n / 10 < 10 ^ k = omega (arith, pow-suc 10 k) in
    ground (arith, length-digits-le fuel k (n / 10) ((b'0' + n % 10) ∷ out) shorter)

-- A number below 10^k prints to at most k digits, and 0 to one.
pub length-show-le : (k n : ℕ) → 0 < k → n < 10 ^ k → length (show n) ≤ k
unfolding show
length-show-le k n some_digit h = ground (arith, length-digits-le n k n [] h)

pub length-show_int-le : (i : ℤ) → IsInt i → length (show_int i) ≤ 11
unfolding show_int
length-show_int-le (pos n) h = omega (arith, length-show-le 10 n (omega arith) (omega arith))
length-show_int-le (negsuc n) h =
    omega (arith, length-show-le 10 (n + 1) (omega arith) (omega arith))

length-digits-ge : (fuel n : ℕ) (out : Bytes) → length out ≤ length (digits fuel n out)
unfolding digits
length-digits-ge zero n out = omega arith
length-digits-ge (suc fuel) n out =
    ground (arith, length-digits-ge fuel (n / 10) ((b'0' + n % 10) ∷ out))

pub length-show-pos : (n : ℕ) → 0 < length (show n)
unfolding show digits
length-show-pos zero = omega arith
length-show-pos (suc n) = ground (arith, length-digits-ge n (suc n / 10) ((b'0' + suc n % 10) ∷ []))

pub length-show_int-pos : (i : ℤ) → 0 < length (show_int i)
unfolding show_int
length-show_int-pos (pos n) = length-show-pos n
length-show_int-pos (negsuc n) = omega arith
