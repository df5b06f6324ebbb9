-- ===== src/Logger/Journal.antt =====
-- The logger's file: the constructor, and `Write`, src/logger.cpp and include/logger.hpp.
use greencloud.Base.{
  ℕ, zero, suc, ◌+◌, ◌%◌, ◌^◌, ◌≤◌, ◌<◌, ◌≡◌, ◌⊎◌, refl, ap, ◌∙◌, map, Bool, true, false, List, [],
  ◌∷◌, ◌++◌, append_assoc, append-nil, Bytes, codes, Outcome, done, fails, ◌>>=◌, ◌>>◌, guard,
  runtime_error, hangs, length, leb, if◌then◌else◌, ◌==◌, arith, All, Bool-cases, inl, inr, le→leb,
  leb→le,
}
use greencloud.Base.Int.{ℤ}
use greencloud.Wire.Decimal.{show, show_int}
use greencloud.Logger.{
  date_len, id_len, filename_len, line_len, type_len, padded, get_file_name, edit_line,
  edit_line_lem, Without, get_file_name-first, get_file_name-none,
}

-- `Loglvl`, whose values are 0, 1 and 2.
pub data Loglvl : Type 0 where
  log_error : Loglvl
  log_info : Loglvl
  log_debug : Loglvl

abbrev pub level : Loglvl → ℕ
level log_error = 0
level log_info = 1
level log_debug = 2

-- The level's name.
abbrev pub lvl_str : Loglvl → Bytes
lvl_str log_error = codes "Error"
lvl_str log_info = codes "Info"
lvl_str log_debug = codes "Debug"

-- The level that filters, the name of the file that is open, and what stands in it.
pub record Logger : Type 0 where
  pub lvl : Loglvl
  pub name : Bytes
  pub file : Bytes

-- The line at the top of the file.
abbrev tab_len : Bytes
tab_len = codes "      "

abbrev pub title : Bytes
title =
    codes "Data & Time                "
    ++ codes "ID"
    ++ tab_len
    ++ codes "Source File"
    ++ tab_len
    ++ tab_len
    ++ tab_len
    ++ codes "Line"
    ++ codes "  "
    ++ codes "Type"
    ++ codes "   "
    ++ codes "ThreadId"
    ++ tab_len
    ++ codes "   "
    ++ codes "Massage"
    ++ codes "\n"

-- What `stat` finds, and which files can be opened.
module _ (exists : Bytes → Bool) (opens : Bytes → Bool) (path : Bytes) where
  abbrev pub file_name : ℕ → Bytes
  file_name num = path ++ show num

  -- The loop that counts `num`, a `size_t`, up to a name that there is no file of.
  unfoldable pub free_number : ℕ → ℕ → Outcome ℕ
  free_number zero num = fails hangs
  free_number (suc fuel) num =
      let rest = free_number fuel ((num + 1) % 2 ^ 64) in
      if exists (file_name num) then rest else done num

  -- The constructor, at most `fuel` rounds of its loop.
  unfoldable pub create : ℕ → Loglvl → Bool → Outcome Logger
  unfolding free_number
  create fuel lvl overwrite_file = do
    num ← if overwrite_file then done 1 else free_number fuel 1
    guard (opens (file_name num)) runtime_error
    done (record { lvl = lvl; name = file_name num; file = title })

  -- The numbers from one on whose files are there.
  abbrev pub Taken : ℕ → ℕ → Type 0
  Taken from n = (j : ℕ) → from ≤ j → j < n → exists (file_name j) ≡ true

  Taken-suc : (from n : ℕ) → exists (file_name from) ≡ true → Taken (from + 1) n → Taken from n
  Taken-suc from n there taken j a b = elim (Bool-cases (leb (from + 1) j)) [
    | inl above ↦ taken j (leb→le (from + 1) j above) b
    | inr below ↦ let same : j ≡ from = ground arith in rw same there
  ]

  free_number-first :
      (gap num : ℕ)
      → num + gap < 2 ^ 64
      → exists (file_name (num + gap)) ≡ false
      → (n : ℕ) × (num ≤ n)
        × (n ≤ num + gap)
        × (exists (file_name n) ≡ false)
        × Taken num n
        × (free_number (suc gap) num ≡ done n)
  unfolding free_number
  free_number-first zero num small free =
      let same : num + 0 ≡ num = omega arith in
      let here : exists (file_name num) ≡ false = rw same at free in
      (num, omega arith, omega arith, here, λ j a b. absurd (omega arith), rw here refl)
  free_number-first (suc gap) num small free = elim (Bool-cases (exists (file_name num))) [
    | inl there ↦
        let onward : num + suc gap ≡ num + 1 + gap = omega arith in
        let (n, above, below, new, taken, found) =
          free_number-first gap (num + 1) (omega arith) (rw onward at free) in
        let whole : (num + 1) % 2 ^ 64 ≡ num + 1 = omega arith in
        (n, omega arith, omega arith, new, Taken-suc num n there taken, rw (there, whole) found)
    | inr new ↦ (num, omega arith, omega arith, new, λ j a b. absurd (omega arith), rw new refl)
  ]

  -- The constructor that keeps old files comes to an end if some number from 1 below 2^64 has no
  -- file: in at most as many rounds as that number it finds the first such number, and the file of
  -- that name is opened, or the exception thrown if it cannot be.
  pub create-first :
      (m : ℕ) (lvl : Loglvl)
      → 1 ≤ m
      → m < 2 ^ 64
      → exists (file_name m) ≡ false
      → (n : ℕ) × (1 ≤ n)
        × (n ≤ m)
        × (exists (file_name n) ≡ false)
        × Taken 1 n
        × (create m lvl false ≡ (
            if opens (file_name n)
            then done (record { lvl = lvl; name = file_name n; file = title })
            else fails runtime_error))
  unfolding create
  create-first zero lvl least small free = absurd (omega arith)
  create-first (suc gap) lvl least small free =
      let onward : 1 + gap ≡ suc gap = omega arith in
      let (n, above, below, new, taken, found) =
        free_number-first gap 1 (omega arith) (rw onward free) in
      elim (Bool-cases (opens (file_name n))) [
        | inl can ↦ (n, above, omega arith, new, taken, rw (found, can) refl)
        | inr cannot ↦ (n, above, omega arith, new, taken, rw (found, cannot) refl)
      ]

-- A call of `Write`: what the clock, the process and the thread bring, and the arguments.
pub record Entry : Type 0 where
  pub lvl : Loglvl
  pub msg : Bytes
  pub src_file : Bytes
  pub line : ℤ
  pub now : Bytes
  pub pid : ℤ
  pub thread : Bytes

-- The loop of `EditLine` that ends the text of the time at its line break.
abbrev pub up_to_break : Bytes → Bytes
up_to_break [] = []
up_to_break (c ∷ cs) = let rest = up_to_break cs in if c == 10 then [] else c ∷ rest

-- `Write`, in one piece under the mutex.
unfoldable pub write : Entry → Logger → Outcome Logger
write e log =
    if leb (level e.lvl) (level log.lvl)
    then (do
      full_line ←
          edit_line (up_to_break e.now) (show_int e.pid) (get_file_name e.src_file)
            (show_int e.line) (lvl_str e.lvl)
      done (record log {
        file = log.file ++ (full_line ++ e.thread ++ codes "  " ++ e.msg ++ codes "\n");
      }))
    else done log

unfoldable pub write_all : List Entry → Logger → Outcome Logger
unfolding write
write_all [] log = done log
write_all (e ∷ es) log = write e log >>= write_all es

-- A call, with the text of its time and the name of its file.
pub record Noted : Type 0 where
  pub entry : Entry
  pub time : Bytes
  pub name : Bytes

-- What a level is called, and which levels a logger of a level shows.
abbrev pub name_of : Loglvl → Bytes
name_of log_error = codes "Error"
name_of log_info = codes "Info"
name_of log_debug = codes "Debug"

abbrev pub shows : Loglvl → Loglvl → Bool
shows log_debug _ = true
shows log_info log_debug = false
shows log_info _ = true
shows log_error log_error = true
shows log_error _ = false

-- The line of a call, in its columns.
abbrev pub line_of : Noted → Bytes
line_of x =
    (padded x.time date_len
      ++ padded (show_int x.entry.pid) id_len
      ++ padded x.name filename_len
      ++ padded (show_int x.entry.line) line_len
      ++ padded (name_of x.entry.lvl) type_len)
    ++ x.entry.thread
    ++ codes "  "
    ++ x.entry.msg
    ++ codes "\n"

-- The specification of the file: the lines of the calls that are shown, in their order.
abbrev pub journal : Loglvl → List Noted → Bytes
journal lvl [] = []
journal lvl (x ∷ xs) =
    let rest = journal lvl xs in if shows lvl x.entry.lvl then line_of x ++ rest else rest

-- The text of the time stands before the first line break, the name of the file behind the first
-- `/`, or is all of it where there is none; the texts fit their columns.
pub record Fits (x : Noted) : Type 0 where
  pub dated : (rest : Bytes) × (x.entry.now ≡ x.time ++ 10 ∷ rest) × Without 10 x.time
  pub named :
      ((dir : Bytes) × (x.entry.src_file ≡ dir ++ 47 ∷ x.name) × Without 47 dir)
      ⊎ ((x.entry.src_file ≡ x.name) × Without 47 x.name)
  pub time_fits : length x.time ≤ date_len
  pub pid_fits : length (show_int x.entry.pid) ≤ id_len
  pub name_fits : length x.name ≤ filename_len
  pub line_fits : length (show_int x.entry.line) ≤ line_len

lvl_str_lem : (l : Loglvl) → (lvl_str l ≡ name_of l) × (length (lvl_str l) ≤ type_len)
lvl_str_lem log_error = (refl, omega arith)
lvl_str_lem log_info = (refl, omega arith)
lvl_str_lem log_debug = (refl, omega arith)

level_lem : (a b : Loglvl) → leb (level a) (level b) ≡ shows b a
level_lem log_error log_error = refl
level_lem log_error log_info = refl
level_lem log_error log_debug = refl
level_lem log_info log_error = refl
level_lem log_info log_info = refl
level_lem log_info log_debug = refl
level_lem log_debug log_error = refl
level_lem log_debug log_info = refl
level_lem log_debug log_debug = refl

up_to_break-first : (time rest : Bytes) → Without 10 time → up_to_break (time ++ 10 ∷ rest) ≡ time
up_to_break-first [] rest plain = refl
up_to_break-first (c ∷ time) rest (here, others) =
    rw here (ap (◌∷◌ c) (up_to_break-first time rest others))

time_lem : (x : Noted) → Fits x → up_to_break x.entry.now ≡ x.time
time_lem x fits =
    let (rest, shape, plain) = fits.dated in
    ap up_to_break shape ∙ up_to_break-first x.time rest plain

name_lem : (x : Noted) → Fits x → get_file_name x.entry.src_file ≡ x.name
name_lem x fits = elim fits.named [
  | inl (dir, shape, plain) ↦ ap get_file_name shape ∙ get_file_name-first dir x.name plain
  | inr (whole, plain) ↦ ap get_file_name whole ∙ get_file_name-none x.name plain
]

write-kept :
    (x : Noted) (log : Logger)
    → shows log.lvl x.entry.lvl ≡ true
    → Fits x
    → write x.entry log ≡ done (record log { file = log.file ++ line_of x })
unfolding write
write-kept x log kept fits =
    let (called, short) = lvl_str_lem x.entry.lvl in
    let laid =
      edit_line_lem x.time (show_int x.entry.pid) x.name (show_int x.entry.line)
        (lvl_str x.entry.lvl) fits.time_fits fits.pid_fits fits.line_fits short (omega arith) in
    rw
      (
        level_lem x.entry.lvl log.lvl,
        kept,
        time_lem x fits,
        name_lem x fits,
        laid,
        le→leb _ _ fits.name_fits,
        called,
      )
      refl

write-filtered : (e : Entry) (log : Logger) → shows log.lvl e.lvl ≡ false → write e log ≡ done log
unfolding write
write-filtered e log filtered = rw (level_lem e.lvl log.lvl, filtered) refl

-- Whatever is written, if the text of its time ends at a line break and its time, process, file
-- name and line fit their columns, all calls succeed, and the file goes on with exactly the lines of
-- the calls that a logger of its level shows, in their order: of errors always, of infos but for a
-- logger of errors, and of debugs only for a logger of debugs. A file's name begins behind the
-- first slash.
pub write_all-journal :
    (xs : List Noted) (log : Logger)
    → All Fits xs
    → write_all (map (λ x. x.entry) xs) log
      ≡ done (record log { file = log.file ++ journal log.lvl xs })
unfolding write_all
write_all-journal [] log fit = rw (append-nil log.file) refl
write_all-journal (x ∷ xs) log (fits, fit) = elim (Bool-cases (shows log.lvl x.entry.lvl)) [
  | inl kept ↦
      let longer : Logger = record log { file = log.file ++ line_of x } in
      rw
        (
          write-kept x log kept fits,
          write_all-journal xs longer fit,
          append_assoc log.file (line_of x) (journal log.lvl xs),
          kept,
        )
        refl
  | inr filtered ↦
      rw (write-filtered x.entry log filtered, write_all-journal xs log fit, filtered) refl
]
