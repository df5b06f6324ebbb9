-- ===== src/Logger/Tests.antt =====
-- A line with a name that fits, one with a name of 30 bytes; two old files, and three calls.
use greencloud.Base.{
  ◌≡◌, refl, ◌++◌, Bytes, codes, done, fails, undefined, length, leb, replicate, if◌then◌else◌,
  arith, inl, ℕ, ◌≤◌, Bool, true, false, List, [], ◌∷◌, ltb,
}
use greencloud.Base.Int.{pos}
use greencloud.Logger.{
  date_len, id_len, filename_len, line_len, type_len, get_file_name, padded, edit_line,
  edit_line_lem,
}
use greencloud.Wire.Decimal.{show, show_int}
use greencloud.Logger.Journal.{
  Loglvl, log_error, log_info, log_debug, Logger, title, create, create-first, Taken, file_name,
  Entry, Noted, Fits, line_of, write_all, write_all-journal,
}

abbrev long_name : Bytes
long_name = replicate 30 97

edit_line_lem_example :
    edit_line (codes "Thu Nov 26") (codes "42") long_name (codes "7") (codes "Info") ≡ (
      if leb (length long_name) filename_len
      then done (
          padded (codes "Thu Nov 26") date_len
          ++ padded (codes "42") id_len
          ++ padded long_name filename_len
          ++ padded (codes "7") line_len
          ++ padded (codes "Info") type_len)
      else fails undefined)
edit_line_lem_example =
    edit_line_lem (codes "Thu Nov 26") (codes "42") long_name (codes "7") (codes "Info")
      (omega arith) (omega arith) (omega arith) (omega arith) (omega arith)

get_file_name_runs : get_file_name (codes "src/a.cpp") ≡ codes "a.cpp"
unfolding get_file_name
get_file_name_runs = refl

-- All names of less than six bytes are taken: `logs1` to `logs9`.
abbrev exists : Bytes → Bool
exists name = ltb (length name) 6

create-first_example :
    (n : ℕ) × (1 ≤ n)
    × (n ≤ 10)
    × (exists (file_name exists (λ name. true) (codes "logs") n) ≡ false)
    × Taken exists (λ name. true) (codes "logs") 1 n
    × (create exists (λ name. true) (codes "logs") 10 log_info false
        ≡ done (record {
          lvl = log_info;
          name = file_name exists (λ name. true) (codes "logs") n;
          file = title;
        }))
unfolding show
create-first_example =
    create-first exists (λ name. true) (codes "logs") 10 log_info (omega arith) (omega arith) refl

abbrev entry : Loglvl → Entry
entry lvl = record {
  lvl = lvl;
  msg = codes "epoll";
  src_file = codes "src/epoll.cpp";
  line = pos 25;
  now = codes "Thu Nov 26 23:45:00 2026\n";
  pid = pos 42;
  thread = codes "7";
}

abbrev logger : Logger
logger = record { lvl = log_info; name = codes "log1"; file = title }

abbrev noted : Loglvl → Noted
noted lvl = record {
  entry = entry lvl;
  time = codes "Thu Nov 26 23:45:00 2026";
  name = codes "epoll.cpp";
}

abbrev entries : List Noted
entries = noted log_info ∷ noted log_debug ∷ noted log_error ∷ []

noted-Fits : (lvl : Loglvl) → Fits (noted lvl)
unfolding show_int show
noted-Fits lvl = record {
  dated = ([], refl, ground arith);
  named = inl (codes "src", refl, ground arith);
  time_fits = omega arith;
  pid_fits = omega arith;
  name_fits = omega arith;
  line_fits = omega arith;
}

write_all-journal_example :
    write_all (entry log_info ∷ entry log_debug ∷ entry log_error ∷ []) logger
    ≡ done (record logger {
      file = title ++ (line_of (noted log_info) ++ line_of (noted log_error) ++ []);
    })
unfolding show_int
write_all-journal_example =
    write_all-journal entries logger
      (noted-Fits log_info, (noted-Fits log_debug, (noted-Fits log_error, tt)))
