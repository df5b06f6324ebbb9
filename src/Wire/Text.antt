-- ===== src/Wire/Text.antt =====
-- C strings in a buffer of bytes: bounded writes, the end of a string, and the parser's search for
-- the next `;`.
use greencloud.Base.{
  ℕ, zero, suc, ◌+◌, ◌-◌, ◌≤◌, ◌<◌, ◌≡◌, ◌≢◌, refl, ap, [], ◌∷◌, ◌++◌, append_assoc, Bytes, Outcome,
  done, fails, ◌>>=◌, ◌>>◌, guard, undefined, bad_key, length, replicate, length-replicate,
  length-append, poke, poke-append, leb, le→leb, ◌==◌, if◌then◌else◌, arith, All, Outcome-cases,
  inl, inr, drop,
}

-- A zeroed array.
unfoldable pub zeros : ℕ → Bytes
zeros n = replicate n 0

-- A write into an array; behind its end it is undefined.
unfoldable pub put : Bytes → ℕ → Bytes → Outcome Bytes
put buf at bs = do guard (leb (at + length bs) (length buf)) undefined; done (poke buf at bs)

-- `while (*p) ++p;`: the string up to its terminator, and what lies behind the terminator.
unfoldable pub split_string : Bytes → Outcome (Bytes × Bytes)
split_string [] = fails undefined
split_string (c ∷ s) =
    if c == 0 then done ([], s) else (split_string s >>= λ p. done (c ∷ p.0, p.1))

-- `GetNextParse`: the text behind the next `;`.
unfoldable pub next_parse : Bytes → Outcome Bytes
next_parse [] = fails undefined
next_parse (c ∷ s) = if c == b';' then done s else next_parse s

abbrev pub NoNul : Bytes → Type 0
NoNul = All (λ c. 0 < c)

abbrev pub NoSemicolon : Bytes → Type 0
NoSemicolon = All (λ c. c ≢ b';')

pub split_string-append : (xs ys : Bytes) → NoNul xs → split_string (xs ++ 0 ∷ ys) ≡ done (xs, ys)
unfolding split_string
split_string-append [] ys h = refl
split_string-append (x ∷ xs) ys (hx, h) = ground (arith, split_string-append xs ys h)

-- A text with no zero byte has no end.
pub split_string-none : (xs : Bytes) → NoNul xs → split_string xs ≡ fails undefined
unfolding split_string
split_string-none [] h = refl
split_string-none (x ∷ xs) (hx, h) = ground (arith, split_string-none xs h)

-- A string that ends at its terminator has a text with no zero byte, and begins the buffer.
pub split_string-eq-done :
    (s xs ys : Bytes) → split_string s ≡ done (xs, ys) → NoNul xs × (s ≡ xs ++ 0 ∷ ys)
unfolding split_string
split_string-eq-done [] xs ys h = cc
split_string-eq-done (c ∷ s) xs ys h = elim (Outcome-cases (split_string s)) [
  | inl ((xs', ys'), e) ↦ ground (arith, split_string-eq-done s xs' ys' e)
  | inr (f, e) ↦ ground arith
]

pub next_parse-append : (xs ys : Bytes) → NoSemicolon xs → next_parse (xs ++ b';' ∷ ys) ≡ done ys
unfolding next_parse
next_parse-append [] ys h = refl
next_parse-append (x ∷ xs) ys (hx, h) = ground (arith, next_parse-append xs ys h)

pub length-zeros : (n : ℕ) → length (zeros n) ≡ n
unfolding zeros
length-zeros n = length-replicate {A = ℕ} n 0

pub drop-zeros : (n m : ℕ) → drop n (zeros m) ≡ zeros (m - n)
unfolding zeros
drop-zeros zero m = let same : m - 0 ≡ m = omega arith in rw same
drop-zeros (suc n) zero = let none : 0 - suc n ≡ 0 = omega arith in rw none
drop-zeros (suc n) (suc m) =
    let same : suc m - suc n ≡ m - n = omega arith in rw same (drop-zeros n m)

pub zeros-add : (a b c : ℕ) → a + b ≡ c → zeros c ≡ zeros a ++ zeros b
unfolding zeros
zeros-add zero b c h = let e : c ≡ b = omega arith in rw e
zeros-add (suc a) b zero h = absurd (omega arith)
zeros-add (suc a) b (suc c) h = ap (◌∷◌ 0) (zeros-add a b c (omega arith))

pub zeros-suc : (n : ℕ) → zeros (suc n) ≡ 0 ∷ zeros n
unfolding zeros
zeros-suc n = refl

pub poke-zeros :
    (xs bs : Bytes) (at k : ℕ)
    → length xs ≡ at
    → length bs ≤ k
    → poke (xs ++ zeros k) at bs ≡ xs ++ (bs ++ zeros (k - length bs))
poke-zeros xs bs at k e h =
    rw (zeros-add (length bs) (k - length bs) k (omega arith)) (
      poke-append xs (zeros (length bs)) (zeros (k - length bs)) bs at e (length-zeros (length bs)))

-- A write right behind what a zeroed buffer holds so far.
pub put-zeros :
    (xs bs : Bytes) (at k : ℕ)
    → length xs ≡ at
    → length bs ≤ k
    → put (xs ++ zeros k) at bs ≡ done (xs ++ (bs ++ zeros (k - length bs)))
unfolding put
put-zeros xs bs at k e h =
    rw
      (le→leb (at + length bs) (length (xs ++ zeros k))
        (omega (arith, length-append xs (zeros k), length-zeros k)))
      (ap done (poke-zeros xs bs at k e h))

-- The same behind a text with its terminator.
pub put_payload :
    (text payload : Bytes) (k : ℕ)
    → length payload ≤ k
    → put (text ++ 0 ∷ zeros k) (length text + 1) payload
      ≡ done (text ++ 0 ∷ (payload ++ zeros (k - length payload)))
put_payload text payload k fits =
    simp append_assoc at
      (put-zeros (text ++ 0 ∷ []) payload (length text + 1) k (length-append text (0 ∷ [])) fits)

pub split_string-ne : (s : Bytes) → split_string s ≢ fails bad_key
unfolding split_string
split_string-ne [] e = absurd (ground arith)
split_string-ne (c ∷ s) e = let rest = split_string-ne s in absurd (ground arith)
