-- ===== src/Base/Blocks.antt =====
-- Raw memory: a block of bytes, read and written at an offset.
use mathlib.Core.Bool.{◌&&◌}
use greencloud.Base.Bools.{ltb, leb, if◌then◌else◌}
use Prim.Native.Char.{code}
use Prim.Native.String.{String}
use Prim.Native.Nat.{ℕ, zero, suc, ◌+◌, ◌≤◌, ◌-◌}
use mathlib.Core.Path.{◌≡◌, refl, ap}
use mathlib.Core.List.{List, [], ◌∷◌, ◌++◌}
use native.Mathlib.Omega.{arith}
use greencloud.Base.Lists.{length, take, drop, length-take, length-drop, get_elem?}

abbrev pub Bytes : Type 0
Bytes = List ℕ

-- The code points of a text, which are its bytes if it is ASCII.
abbrev pub codes : String → Bytes
codes String.[] = []
codes (String.◌∷◌ c s) = code c ∷ codes s

-- `n` bytes from an offset; fewer if the block ends before.
abbrev pub peek : Bytes → ℕ → ℕ → Bytes
peek block off n = take n (drop off block)

-- Copies bytes over a block from an offset on; what would lie behind its end is dropped, so a
-- caller tests the bound first.
abbrev pub poke : Bytes → ℕ → Bytes → Bytes
poke [] off bs = []
poke (b ∷ block) (suc off) bs = b ∷ poke block off bs
poke (b ∷ block) zero [] = b ∷ block
poke (b ∷ block) zero (x ∷ bs) = x ∷ poke block zero bs

pub length-poke : (block : Bytes) (off : ℕ) (bs : Bytes) → length (poke block off bs) ≡ length block
length-poke [] off bs = refl
length-poke (b ∷ block) (suc off) bs = ap suc (length-poke block off bs)
length-poke (b ∷ block) zero [] = refl
length-poke (b ∷ block) zero (x ∷ bs) = ap suc (length-poke block zero bs)

pub length-peek :
    (block : Bytes) (off n : ℕ) → off + n ≤ length block → length (peek block off n) ≡ n
length-peek block off n h = omega (arith, length-take n (drop off block), length-drop off block)

-- What was written is read back.
pub peek-poke_self :
    (block : Bytes) (off n : ℕ) (bs : Bytes)
    → length bs ≡ n
    → off + n ≤ length block
    → peek (poke block off bs) off n ≡ bs
peek-poke_self [] off zero [] e h = refl
peek-poke_self [] off zero (x ∷ bs) e h = absurd (omega arith)
peek-poke_self [] off (suc n) bs e h = absurd (omega arith)
peek-poke_self (b ∷ block) (suc off) n bs e h = peek-poke_self block off n bs e (omega arith)
peek-poke_self (b ∷ block) zero zero [] e h = refl
peek-poke_self (b ∷ block) zero (suc n) [] e h = absurd (omega arith)
peek-poke_self (b ∷ block) zero zero (x ∷ bs) e h = absurd (omega arith)
peek-poke_self (b ∷ block) zero (suc n) (x ∷ bs) e h =
    ap (◌∷◌ x) (peek-poke_self block zero n bs (omega arith) (omega arith))

-- A write leaves what lies before it and behind it alone.
pub peek-poke_before :
    (block : Bytes) (off from n : ℕ) (bs : Bytes)
    → from + n ≤ off
    → peek (poke block off bs) from n ≡ peek block from n
peek-poke_before [] off from n bs h = refl
peek-poke_before (b ∷ block) zero zero zero bs h = refl
peek-poke_before (b ∷ block) zero zero (suc n) bs h = absurd (omega arith)
peek-poke_before (b ∷ block) zero (suc from) n bs h = absurd (omega arith)
peek-poke_before (b ∷ block) (suc off) zero zero bs h = refl
peek-poke_before (b ∷ block) (suc off) zero (suc n) bs h =
    ap (◌∷◌ b) (peek-poke_before block off zero n bs (omega arith))
peek-poke_before (b ∷ block) (suc off) (suc from) n bs h =
    peek-poke_before block off from n bs (omega arith)

pub peek-poke_after :
    (block : Bytes) (off from n : ℕ) (bs : Bytes)
    → off + length bs ≤ from
    → peek (poke block off bs) from n ≡ peek block from n
peek-poke_after [] off from n bs h = refl
peek-poke_after (b ∷ block) zero from n [] h = refl
peek-poke_after (b ∷ block) zero zero n (x ∷ bs) h = absurd (omega arith)
peek-poke_after (b ∷ block) zero (suc from) n (x ∷ bs) h =
    peek-poke_after block zero from n bs (omega arith)
peek-poke_after (b ∷ block) (suc off) zero n bs h = absurd (omega arith)
peek-poke_after (b ∷ block) (suc off) (suc from) n bs h =
    peek-poke_after block off from n bs (omega arith)

pub poke-append :
    (xs old ys bs : Bytes) (off : ℕ)
    → length xs ≡ off
    → length old ≡ length bs
    → poke (xs ++ (old ++ ys)) off bs ≡ xs ++ (bs ++ ys)
poke-append [] [] [] [] zero e h = refl
poke-append [] [] (y ∷ ys) [] zero e h = refl
poke-append [] [] ys (b ∷ bs) zero e h = absurd (omega arith)
poke-append [] (o ∷ old) ys [] zero e h = absurd (omega arith)
poke-append [] (o ∷ old) ys (b ∷ bs) zero e h =
    ap (◌∷◌ b) (poke-append [] old ys bs zero e (omega arith))
poke-append [] old ys bs (suc off) e h = absurd (omega arith)
poke-append (x ∷ xs) old ys bs zero e h = absurd (omega arith)
poke-append (x ∷ xs) old ys bs (suc off) e h =
    ap (◌∷◌ x) (poke-append xs old ys bs off (omega arith) h)

pub poke-nil : (block : Bytes) (off : ℕ) → poke block off [] ≡ block
poke-nil [] off = refl
poke-nil (b ∷ block) zero = refl
poke-nil (b ∷ block) (suc off) = ap (◌∷◌ b) (poke-nil block off)

-- A byte after a write: the new one where the write reaches, else the old one.
pub get_elem?-poke :
    (block : Bytes) (off : ℕ) (bs : Bytes) (i : ℕ)
    → off + length bs ≤ length block
    → get_elem? (poke block off bs) i
      ≡ (if leb off i && ltb i (off + length bs) then get_elem? bs (i - off) else get_elem? block i)
get_elem?-poke [] off [] i h = ground arith
get_elem?-poke [] off (x ∷ bs) i h = absurd (omega arith)
get_elem?-poke (b ∷ block) (suc off) bs zero h = ground arith
get_elem?-poke (b ∷ block) (suc off) bs (suc i) h =
    ground (arith, get_elem?-poke block off bs i (omega arith))
get_elem?-poke (b ∷ block) zero [] i h = ground arith
get_elem?-poke (b ∷ block) zero (x ∷ bs) zero h = ground arith
get_elem?-poke (b ∷ block) zero (x ∷ bs) (suc i) h =
    ground (arith, get_elem?-poke block zero bs i (omega arith))

pub poke_start :
    (block bs : Bytes) → length bs ≤ length block → poke block 0 bs ≡ bs ++ drop (length bs) block
poke_start [] [] h = refl
poke_start [] (x ∷ bs) h = absurd (omega arith)
poke_start (b ∷ block) [] h = refl
poke_start (b ∷ block) (x ∷ bs) h = ap (◌∷◌ x) (poke_start block bs (omega arith))
