-- ===== src/Nbd/Stream.antt =====
-- The loops of src/nbd_driver_proxy.cpp over a stream socket, `ReadAll` and `WriteAll`.
use native.Mathlib.Decide.{dec_lt}
use greencloud.Base.{
  All, lt→ltb, ge→ltb, ℕ, zero, suc, ap, replicate, length-append, length-drop, drop-append_ge,
  take-append-drop, ◌+◌, ◌-◌, ◌≤◌, ◌<◌, ◌≡◌, refl, List, [], ◌∷◌, ◌++◌, map, Bytes, Option, none,
  some, Outcome, done, fails, ◌>>=◌, hangs, runtime_error, length, take, drop, ltb, if◌then◌else◌,
  arith,
}

-- What is still to come on a socket: each chunk is what a `read` with room enough finds there, none
-- is an error, and the empty chunk is the end of the stream. Behind the last one nothing comes.
abbrev pub Arrivals : Type 0
Arrivals = List (Option Bytes)

-- One `read` with room for `count` bytes; what does not fit stays in the socket.
unfoldable pub read_some : Arrivals → ℕ → Outcome (Bytes × Arrivals)
read_some [] count = fails hangs
read_some (none ∷ rest) count = fails runtime_error
read_some (some chunk ∷ rest) count =
    if ltb count (length chunk)
    then done (take count chunk, some (drop count chunk) ∷ rest)
    else done (chunk, rest)

-- `ReadAll`: a `read` that gives nothing does not end the loop.
unfoldable pub read_all : Arrivals → ℕ → Outcome (Bytes × Arrivals)
read_all [] zero = done ([], [])
read_all [] (suc k) = fails hangs
read_all (x ∷ rest) zero = done ([], x ∷ rest)
read_all (none ∷ rest) (suc k) = fails runtime_error
read_all (some chunk ∷ rest) (suc k) =
    let more = read_all rest (suc k - length chunk) in
    if ltb (suc k) (length chunk)
    then done (take (suc k) chunk, some (drop (suc k) chunk) ∷ rest)
    else more >>= λ p. done (chunk ++ p.0, p.1)

-- What a `write` will take each time it is called; none is an error. Behind the last one the call
-- blocks.
abbrev pub Accepts : Type 0
Accepts = List (Option ℕ)

-- `WriteAll` of all the bytes given: what stands on the wire then. A `write` takes no more than it
-- is offered.
unfoldable pub write_all : Accepts → Bytes → Outcome (Bytes × Accepts)
write_all ws [] = done ([], ws)
write_all [] (b ∷ bs) = fails hangs
write_all (none ∷ ws) (b ∷ bs) = fails runtime_error
write_all (some n ∷ ws) (b ∷ bs) =
    write_all ws (drop n (b ∷ bs)) >>= λ p. done (take n (b ∷ bs) ++ p.0, p.1)

abbrev pub flat : List Bytes → Bytes
flat [] = []
flat (c ∷ cs) = c ++ flat cs

-- What is left of a list of chunks when so many bytes have been taken.
abbrev pub rest_of : ℕ → List Bytes → List Bytes
rest_of k [] = []
rest_of zero (c ∷ cs) = c ∷ cs
rest_of (suc k) (c ∷ cs) =
    if ltb (suc k) (length c) then drop (suc k) c ∷ cs else rest_of (suc k - length c) cs

take-append_lt : (k : ℕ) (xs ys : Bytes) → k < length xs → take k (xs ++ ys) ≡ take k xs
take-append_lt zero xs ys h = refl
take-append_lt (suc k) [] ys h = absurd (omega arith)
take-append_lt (suc k) (x ∷ xs) ys h = ap (λ l. x ∷ l) (take-append_lt k xs ys (omega arith))

drop-append_lt : (k : ℕ) (xs ys : Bytes) → k < length xs → drop k (xs ++ ys) ≡ drop k xs ++ ys
drop-append_lt zero xs ys h = refl
drop-append_lt (suc k) [] ys h = absurd (omega arith)
drop-append_lt (suc k) (x ∷ xs) ys h = drop-append_lt k xs ys (omega arith)

take-append_ge :
    (k : ℕ) (xs ys : Bytes) → length xs ≤ k → take k (xs ++ ys) ≡ xs ++ take (k - length xs) ys
take-append_ge k [] ys h = let same : k - 0 ≡ k = omega arith in rw same
take-append_ge zero (x ∷ xs) ys h = absurd (omega arith)
take-append_ge (suc k) (x ∷ xs) ys h =
    let same : suc k - suc (length xs) ≡ k - length xs = omega arith in
    rw same (ap (λ l. x ∷ l) (take-append_ge k xs ys (omega arith)))

-- `ReadAll` gives the bytes asked for, however the stream is cut into chunks, and leaves the
-- others.
pub read_all-flat :
    (cs : List Bytes) (k : ℕ) (tail : Arrivals)
    → k ≤ length (flat cs)
    → read_all (map some cs ++ tail) k ≡ done (take k (flat cs), map some (rest_of k cs) ++ tail)
unfolding read_all
read_all-flat [] zero [] h = refl
read_all-flat [] zero (none ∷ tail) h = refl
read_all-flat [] zero (some c ∷ tail) h = refl
read_all-flat [] (suc k) tail h = absurd (omega arith)
read_all-flat (c ∷ cs) zero tail h = refl
read_all-flat (c ∷ cs) (suc k) tail h = elim (dec_lt (suc k) (length c)) [
  | yes lt ↦ rw (lt→ltb (suc k) (length c) lt, take-append_lt (suc k) c (flat cs) lt) refl
  | no ge ↦
      let later =
        read_all-flat cs (suc k - length c) tail (omega (arith, length-append c (flat cs))) in
      rw
        (
          ge→ltb (suc k) (length c) (omega arith),
          later,
          take-append_ge (suc k) c (flat cs) (omega arith),
        )
        refl
]

-- What is left behind are the other bytes.
pub flat-rest_of : (cs : List Bytes) (k : ℕ) → flat (rest_of k cs) ≡ drop k (flat cs)
flat-rest_of [] zero = refl
flat-rest_of [] (suc k) = refl
flat-rest_of (c ∷ cs) zero = refl
flat-rest_of (c ∷ cs) (suc k) = elim (dec_lt (suc k) (length c)) [
  | yes lt ↦ rw (lt→ltb (suc k) (length c) lt, drop-append_lt (suc k) c (flat cs) lt) refl
  | no ge ↦
      rw (ge→ltb (suc k) (length c) (omega arith), drop-append_ge (suc k) c (flat cs) (omega arith))
        (flat-rest_of cs (suc k - length c))
]

-- At the end of the stream `ReadAll` stays in its loop: `read` gives nothing, is no error, and is
-- called again, without end.
pub read_all-ended : (k n : ℕ) → 0 < k → read_all (replicate n (some [])) k ≡ fails hangs
unfolding read_all
read_all-ended zero n h = absurd (omega arith)
read_all-ended (suc k) zero h = refl
read_all-ended (suc k) (suc n) h =
    let same : suc k - 0 ≡ suc k = omega arith in
    rw (same, read_all-ended (suc k) n h, ge→ltb (suc k) 0 (omega arith)) refl

-- A stream that ends before the bytes asked for never lets `ReadAll` return.
pub read_all-short :
    (cs : List Bytes) (k n : ℕ)
    → length (flat cs) < k
    → read_all (map some cs ++ replicate n (some [])) k ≡ fails hangs
unfolding read_all
read_all-short [] k n h = read_all-ended k n h
read_all-short (c ∷ cs) zero n h = absurd (omega arith)
read_all-short (c ∷ cs) (suc k) n h =
    let sum = length-append c (flat cs) in
    let later = read_all-short cs (suc k - length c) n (omega arith) in
    rw (ge→ltb (suc k) (length c) (omega arith), later) refl

-- `WriteAll` puts all its bytes on the wire, in order, however few each `write` takes, when each
-- takes one at least and no more calls are made than there are bytes.
pub write_all-positive :
    (ns : List ℕ) (bs : Bytes)
    → All (λ n. 0 < n) ns
    → length bs ≤ length ns
    → (left : List ℕ) × (write_all (map some ns) bs ≡ done (bs, map some left))
      × All (λ n. 0 < n) left
      × (length ns ≤ length left + length bs)
unfolding write_all
write_all-positive ns [] p h = (ns, refl, p, omega arith)
write_all-positive [] (b ∷ bs) p h = absurd (omega arith)
write_all-positive (n ∷ ns) (b ∷ bs) (q, p) h =
    let shorter = length-drop n (b ∷ bs) in
    let (left, later, p', many) = write_all-positive ns (drop n (b ∷ bs)) p (omega arith) in
    (left, rw (later, take-append-drop n (b ∷ bs)) refl, p', omega arith)
