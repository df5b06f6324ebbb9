-- ===== src/Logger.antt =====
-- The layout of a line, src/logger.cpp.
pub mod Journal
mod Tests
use greencloud.Base.{
  ℕ, ◌+◌, ◌-◌, ◌^◌, ◌≤◌, ◌<◌, ◌≡◌, refl, Bool, true, false, [], ◌∷◌, ◌++◌, Bytes, Outcome, done,
  fails, ◌>>=◌, ◌>>◌, guard, undefined, length, leb, replicate, if◌then◌else◌, ◌==◌, arith, le→leb,
  lt→leb, length-replicate, length-append, append-nil, Bool-cases, inl, inr, leb→le, All,
}

-- `DATE_LEN`, `ID_LEN`, `FILENAME_LEN`, `LINE_LEN`, `TYPE_LEN`, and the buffer of a line.
abbrev pub date_len : ℕ
date_len = 27

abbrev pub id_len : ℕ
id_len = 8

abbrev pub filename_len : ℕ
filename_len = 29

abbrev pub line_len : ℕ
line_len = 6

abbrev pub type_len : ℕ
type_len = 7

abbrev pub basic_line_len : ℕ
basic_line_len = date_len + id_len + filename_len + line_len + type_len + 1

-- `GetFileNameFromFullName`: what stands behind the first `/`, or else the whole name.
behind_slash : Bytes → Bytes → Bytes
behind_slash full [] = full
behind_slash full (c ∷ cs) = let rest = behind_slash full cs in if c == 47 then cs else rest

unfoldable pub get_file_name : Bytes → Bytes
unfolding behind_slash
get_file_name full = behind_slash full full

-- A name behind the first `/`, and one without.
abbrev pub Without : ℕ → Bytes → Type 0
Without b bs = All (λ c. (c == b) ≡ false) bs

behind_slash-first :
    (full dir name : Bytes) → Without 47 dir → behind_slash full (dir ++ 47 ∷ name) ≡ name
unfolding behind_slash
behind_slash-first full [] name plain = refl
behind_slash-first full (c ∷ dir) name (here, others) =
    rw here (behind_slash-first full dir name others)

behind_slash-none : (full name : Bytes) → Without 47 name → behind_slash full name ≡ full
unfolding behind_slash
behind_slash-none full [] plain = refl
behind_slash-none full (c ∷ name) (here, others) = rw here (behind_slash-none full name others)

pub get_file_name-first :
    (dir name : Bytes) → Without 47 dir → get_file_name (dir ++ 47 ∷ name) ≡ name
unfolding get_file_name
get_file_name-first dir name plain = behind_slash-first (dir ++ 47 ∷ name) dir name plain

pub get_file_name-none : (name : Bytes) → Without 47 name → get_file_name name ≡ name
unfolding get_file_name
get_file_name-none name plain = behind_slash-none name name plain

-- What `AddStr` fills in by its own loop, and what it asks of `FillSpace`: `max - i` is a `size_t`,
-- and `i` is the length of a text that is longer than its column.
abbrev pub spaces : ℕ → ℕ → ℕ
spaces len max = if leb len max then 0 else 2 ^ 64 - (len - max)

abbrev pub padded : Bytes → ℕ → Bytes
padded src max = src ++ replicate (max - length src) 32

-- `AddStr` behind what stands in the buffer.
unfoldable pub add_str : Bytes → Bytes → ℕ → Outcome Bytes
add_str line src max = do
  guard (leb (length line + length (padded src max) + spaces (length src) max) basic_line_len)
      undefined
  done (line ++ padded src max ++ replicate (spaces (length src) max) 32)

-- `EditLine`, on the texts of the time, the process, the line's number and the level.
unfoldable pub edit_line : Bytes → Bytes → Bytes → Bytes → Bytes → Outcome Bytes
edit_line time id file line lvl = do
  l₁ ← add_str [] time date_len
  l₂ ← add_str l₁ id id_len
  l₃ ← add_str l₂ file filename_len
  l₄ ← add_str l₃ line line_len
  add_str l₄ lvl type_len

length-padded : (src : Bytes) (max : ℕ) → length src ≤ max → length (padded src max) ≡ max
length-padded src max fits = omega (
  arith,
  length-append src (replicate {A = ℕ} (max - length src) 32),
  length-replicate {A = ℕ} (max - length src) 32,
)

add_str-fits :
    (line src : Bytes) (max : ℕ)
    → length src ≤ max
    → length line + max ≤ basic_line_len
    → add_str line src max ≡ done (line ++ padded src max)
unfolding add_str
add_str-fits line src max fits room =
    let wide = length-padded src max fits in
    let none_left : spaces (length src) max ≡ 0 = rw (le→leb (length src) max fits) refl in
    rw
      (
        none_left,
        le→leb (length line + length (padded src max) + 0) basic_line_len (omega arith),
        append-nil (line ++ padded src max),
      )
      refl

add_str-long :
    (line src : Bytes) (max : ℕ)
    → max < length src
    → length src < 2 ^ 63
    → add_str line src max ≡ fails undefined
unfolding add_str
add_str-long line src max long real =
    let far : basic_line_len < length line + length (padded src max) + spaces (length src) max =
      rw (lt→leb (length src) max long) (omega arith) in
    rw (lt→leb (length line + length (padded src max) + spaces (length src) max) basic_line_len far)
      refl

-- A line whose other texts fit their columns is laid out in its columns, each filled with spaces,
-- when the file's name has at most 29 bytes; a longer name (of less than 2^63 bytes) is written
-- past the buffer, since the count of spaces wraps.
pub edit_line_lem :
    (time id file line lvl : Bytes)
    → length time ≤ date_len
    → length id ≤ id_len
    → length line ≤ line_len
    → length lvl ≤ type_len
    → length file < 2 ^ 63
    → edit_line time id file line lvl ≡ (
        if leb (length file) filename_len
        then done (
            padded time date_len
            ++ padded id id_len
            ++ padded file filename_len
            ++ padded line line_len
            ++ padded lvl type_len)
        else fails undefined)
unfolding edit_line
edit_line_lem time id file line lvl a b c d real =
    let l₁ : Bytes = padded time date_len in
    let l₂ : Bytes = l₁ ++ padded id id_len in
    let w₁ : length l₁ ≡ date_len = length-padded time date_len a in
    let w₂ : length l₂ ≡ date_len + id_len =
      omega (arith, length-append l₁ (padded id id_len), length-padded id id_len b) in
    let first = add_str-fits [] time date_len a (omega arith) in
    let second = add_str-fits l₁ id id_len b (omega arith) in
    elim (Bool-cases (leb (length file) filename_len)) [
      | inl fits ↦
          let small = leb→le (length file) filename_len fits in
          let l₃ : Bytes = l₂ ++ padded file filename_len in
          let l₄ : Bytes = l₃ ++ padded line line_len in
          let w₃ : length l₃ ≡ date_len + id_len + filename_len = omega (
            arith,
            length-append l₂ (padded file filename_len),
            length-padded file filename_len small,
          ) in
          let w₄ : length l₄ ≡ date_len + id_len + filename_len + line_len =
            omega (arith, length-append l₃ (padded line line_len), length-padded line line_len c) in
          rw
            (
              fits,
              first,
              second,
              add_str-fits l₂ file filename_len small (omega arith),
              add_str-fits l₃ line line_len c (omega arith),
              add_str-fits l₄ lvl type_len d (omega arith),
            )
            refl
      | inr long ↦
          rw (long, first, second, add_str-long l₂ file filename_len (ground arith) real) refl
    ]
