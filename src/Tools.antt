-- ===== src/Tools.antt =====
-- create_h_file.cpp: the tool that writes a header file for the name of a class, up to the file's
-- name.
use greencloud.Base.{
  ℕ, zero, suc, ◌+◌, ◌-◌, ◌≡◌, refl, List, [], ◌∷◌, ◌++◌, Bytes, codes, Outcome, done, fails, ◌>>=◌,
  or_fail, undefined, length, get_elem?, arith,
}

-- `sizeof` of the two pointers.
abbrev file_len : ℕ
file_len = 16

-- The string and the zero behind it.
abbrev name_ending : Bytes
name_ending = codes ".hpp" ++ 0 ∷ []

-- The loop that copies from `NAME_ENDING[a]` on, as long as `i` is below the buffer's size.
unfoldable pub copy_ending : ℕ → ℕ → Outcome Bytes
copy_ending zero a = done []
copy_ending (suc left) a = do
  c ← or_fail (get_elem? name_ending a) undefined
  rest ← copy_ending left (a + 1)
  done (c ∷ rest)

-- `g_file_name`, of `len + FILE_LEN` bytes.
unfoldable pub file_name : Bytes → Outcome Bytes
unfolding copy_ending
file_name name = do
  let size = length name + file_len
  ending ← copy_ending (size - (2 + length name)) 0
  done (codes "./" ++ name ++ ending)

-- `main` up to the opening of the file: the status where it returns, or the file's name.
pub data Start : Type 0 where
  returns : ℕ → Start
  opens : Bytes → Start

unfoldable pub main : List Bytes → Outcome Start
unfolding file_name
main (program ∷ name ∷ []) = file_name name >>= λ path. done (opens path)
main _ = done (returns 1)

-- The size of a pointer is taken for that of a string: with the one argument that the tool wants it
-- always reads behind the end of the ending.
pub main-undefined : (program name : Bytes) → main (program ∷ name ∷ []) ≡ fails undefined
unfolding main file_name copy_ending
main-undefined program name =
    let left : length name + 16 - (2 + length name) ≡ 14 = omega arith in rw left refl
