-- ===== src/Wire/Decimal.antt =====
-- Decimal numbers as the C library prints and reads them: `std::to_string`, `%lu`, `%u` and `%d`
-- of `sprintf`, `strtoul` and `strtol` in base ten.
pub mod RoundTrip
pub mod Shape
use greencloud.Base.{
  ℕ, zero, suc, ◌+◌, ◌-◌, ◌*◌, ◌/◌, ◌%◌, ◌^◌, ◌≡◌, refl, Bool, true, false, ◌&&◌, ◌||◌, [], ◌∷◌,
  Bytes, codes, ltb, leb, ◌==◌, if◌then◌else◌,
}
use greencloud.Base.Int.{ℤ, pos, negsuc}

-- Digits of `n`, put before `out`. The fuel is `n` at least, and each round divides by ten.
pub digits : ℕ → ℕ → Bytes → Bytes
digits zero n out = out
digits (suc fuel) n out =
    let rest = digits fuel (n / 10) ((b'0' + n % 10) ∷ out) in if n == 0 then out else rest

unfoldable pub show : ℕ → Bytes
unfolding digits
show n = if n == 0 then b'0' ∷ [] else digits n n []

unfoldable pub show_int : ℤ → Bytes
unfolding show
show_int (pos n) = show n
show_int (negsuc n) = b'-' ∷ show (n + 1)

abbrev pub is_digit : ℕ → Bool
is_digit c = leb b'0' c && leb c b'9'

abbrev pub is_space : ℕ → Bool
is_space c = c == 32 || (leb 9 c && leb c 13)

pub skip_space : Bytes → Bytes
skip_space [] = []
skip_space (c ∷ s) = if is_space c then skip_space s else c ∷ s

-- An optional sign: whether it is a minus, and what follows it.
pub sign : Bytes → Bool × Bytes
sign [] = (false, [])
sign (c ∷ s) = if c == b'-' then (true, s) else if c == b'+' then (false, s) else (false, c ∷ s)

-- The number that the leading digits spell behind `n`, and the text behind them.
pub scan : Bytes → ℕ → ℕ × Bytes
scan [] n = (n, [])
scan (c ∷ s) n = let rest = scan s (n * 10 + (c - b'0')) in if is_digit c then rest else (n, c ∷ s)

abbrev pub starts_digit : Bytes → Bool
starts_digit [] = false
starts_digit (c ∷ s) = is_digit c

-- What `strtoul` makes of a number: out of range it is `ULONG_MAX`, behind a minus it is negated
-- as an unsigned number.
abbrev pub unsigned : Bool → ℕ → ℕ
unsigned minus n = if leb (2 ^ 64) n then 2 ^ 64 - 1 else if minus then (2 ^ 64 - n) % 2 ^ 64 else n

-- What `strtol` makes of it: out of range it is `LONG_MAX` or `LONG_MIN`.
abbrev pub signed : Bool → ℕ → ℤ
signed false n = if leb (2 ^ 63) n then pos (2 ^ 63 - 1) else pos n
signed true n =
    if n == 0 then pos 0 else if leb (2 ^ 63) n then negsuc (2 ^ 63 - 1) else negsuc (n - 1)

-- The sign, the number and the end pointer; with no digits the end is the start and the number 0.
pub number : Bytes → Bool × ℕ × Bytes
unfolding skip_space sign scan
number s =
    let (minus, body) = sign (skip_space s) in
    let (n, rest) = scan body 0 in if starts_digit body then (minus, n, rest) else (false, 0, s)

unfoldable pub strtoul : Bytes → ℕ × Bytes
unfolding number
strtoul s = let (minus, n, rest) = number s in (unsigned minus n, rest)

unfoldable pub strtol : Bytes → ℤ × Bytes
unfolding number
strtol s = let (minus, n, rest) = number s in (signed minus n, rest)

show_runs : show 18446744073709551615 ≡ codes "18446744073709551615"
unfolding show
show_runs = refl

strtoul_runs : strtoul (codes " -5;x") ≡ (18446744073709551611, codes ";x")
unfolding strtoul
strtoul_runs = refl
