-- ===== src/Wire/Decimal/RoundTrip.antt =====
-- What is printed is read back.
use greencloud.Base.{
  ℕ, zero, suc, ◌+◌, ◌/◌, ◌%◌, ◌^◌, ◌≤◌, ◌<◌, ◌≡◌, refl, ◌∙◌, true, false, [], ◌∷◌, ◌++◌, Bytes,
  arith,
}
use greencloud.Base.Int.{ℤ, pos, negsuc, int32}
use greencloud.Wire.Decimal.{
  digits, show, show_int, is_digit, skip_space, sign, scan, starts_digit, number, strtoul, strtol,
}

-- The text ends, or goes on with no digit.
abbrev pub Stops : Bytes → Type 0
Stops [] = Unit
Stops (c ∷ s) = is_digit c ≡ false

digits-append :
    (fuel n : ℕ) (out rest : Bytes) → digits fuel n out ++ rest ≡ digits fuel n (out ++ rest)
unfolding digits
digits-append zero n out rest = refl
digits-append (suc fuel) n out rest =
    ground (arith, digits-append fuel (n / 10) ((b'0' + n % 10) ∷ out) rest)

-- Reading the last digit of `n` after the digits before it gives `n`.
scan_last : (n : ℕ) (out : Bytes) → scan ((b'0' + n % 10) ∷ out) (n / 10) ≡ scan out n
unfolding scan
scan_last n out = ground arith

scan-digits : (fuel n : ℕ) (out : Bytes) → n ≤ fuel → scan (digits fuel n out) 0 ≡ scan out n
unfolding digits
scan-digits zero n out h = ground arith
scan-digits (suc fuel) n out h =
    ground (arith, scan_last n out, scan-digits fuel (n / 10) ((b'0' + n % 10) ∷ out))

scan-Stops : (rest : Bytes) (n : ℕ) → Stops rest → scan rest n ≡ (n, rest)
unfolding scan
scan-Stops [] n h = refl
scan-Stops (c ∷ rest) n h = rw h

starts_digit-digits :
    (fuel n : ℕ) (out : Bytes) → starts_digit out ≡ true → starts_digit (digits fuel n out) ≡ true
unfolding digits
starts_digit-digits zero n out h = h
starts_digit-digits (suc fuel) n out h =
    ground (arith, starts_digit-digits fuel (n / 10) ((b'0' + n % 10) ∷ out))

show-suc : (n : ℕ) → show (suc n) ≡ digits n (suc n / 10) ((b'0' + suc n % 10) ∷ [])
unfolding show
show-suc n = ground arith

starts_digit-show : (n : ℕ) (rest : Bytes) → starts_digit (show n ++ rest) ≡ true
starts_digit-show zero rest = unfold show in refl
starts_digit-show (suc n) rest =
    rw (show-suc n, digits-append n (suc n / 10) ((b'0' + suc n % 10) ∷ []) rest)
      (starts_digit-digits n (suc n / 10) ((b'0' + suc n % 10) ∷ rest) (ground arith))

scan-zero : (rest : Bytes) → Stops rest → scan (b'0' ∷ rest) 0 ≡ (0, rest)
unfolding scan
scan-zero rest h = scan-Stops rest 0 h

scan-show : (n : ℕ) (rest : Bytes) → Stops rest → scan (show n ++ rest) 0 ≡ (n, rest)
scan-show zero rest h = unfold show in scan-zero rest h
scan-show (suc n) rest h =
    rw (show-suc n, digits-append n (suc n / 10) ((b'0' + suc n % 10) ∷ []) rest)
      (scan-digits n (suc n / 10) ((b'0' + suc n % 10) ∷ rest) (omega arith)
        ∙ scan_last (suc n) rest
        ∙ scan-Stops rest (suc n) h)

-- A text that starts with a digit has no space and no sign before it.
skip_space-digit : (s : Bytes) → starts_digit s ≡ true → skip_space s ≡ s
unfolding skip_space
skip_space-digit [] h = refl
skip_space-digit (c ∷ s) h = ground arith

sign-digit : (s : Bytes) → starts_digit s ≡ true → sign s ≡ (false, s)
unfolding sign
sign-digit [] h = refl
sign-digit (c ∷ s) h = ground arith

number-show : (n : ℕ) (rest : Bytes) → Stops rest → number (show n ++ rest) ≡ (false, n, rest)
unfolding number
number-show n rest h =
    let digit = starts_digit-show n rest in
    rw (skip_space-digit (show n ++ rest) digit, sign-digit (show n ++ rest) digit)
      (rw (scan-show n rest h, digit) refl)

-- A `size_t` is read back from its print, up to the text behind it.
pub strtoul-show :
    (n : ℕ) (rest : Bytes) → n < 2 ^ 64 → Stops rest → strtoul (show n ++ rest) ≡ (n, rest)
unfolding strtoul
strtoul-show n rest h stops = rw (number-show n rest stops) (ground arith)

number-minus :
    (n : ℕ) (rest : Bytes) → Stops rest → number (b'-' ∷ show n ++ rest) ≡ (true, n, rest)
unfolding number skip_space sign
number-minus n rest h = rw (scan-show n rest h, starts_digit-show n rest) refl

-- The values of an `int`.
abbrev pub IsInt : ℤ → Type 0
IsInt (pos n) = n < 2 ^ 31
IsInt (negsuc n) = n < 2 ^ 31

-- An `int` goes through `strtoul`, which `GetInt` calls, and comes back with its sign.
pub strtoul-show_int :
    (i : ℤ) (rest : Bytes)
    → IsInt i
    → Stops rest
    → (int32 (strtoul (show_int i ++ rest)).0 ≡ i) × ((strtoul (show_int i ++ rest)).1 ≡ rest)
unfolding strtoul show_int
strtoul-show_int (pos n) rest h stops = rw (number-show n rest stops) (ground arith, refl)
strtoul-show_int (negsuc n) rest h stops = rw (number-minus (n + 1) rest stops) (ground arith, refl)

-- So does it through `strtol`, with which the master reads it.
pub strtol-show_int :
    (i : ℤ) (rest : Bytes) → IsInt i → Stops rest → strtol (show_int i ++ rest) ≡ (i, rest)
unfolding strtol show_int
strtol-show_int (pos n) rest h stops = rw (number-show n rest stops) (ground arith)
strtol-show_int (negsuc n) rest h stops = rw (number-minus (n + 1) rest stops) (ground arith)
