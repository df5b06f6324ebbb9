-- ===== src/Plugins.antt =====
-- `DirMonitor` and `DL_Loader` of src/plug_and_play.cpp: a thread that watches a directory for new
-- files, the loader that opens them as libraries, and the destructor that ends the thread.
pub mod Messages
pub mod Ending
pub mod Race
mod Tests
use greencloud.Base.{
  ℕ, Bool, true, false, List, [], ◌∷◌, ◌++◌, Bytes, Option, none, some, Outcome, done, fails, ◌>>=◌,
  epoll_error, undefined, if◌then◌else◌,
}

-- `ThreadStatus`.
pub data ThreadStatus : Type 0 where
  runing : ThreadStatus
  init : ThreadStatus
  error : ThreadStatus
  end_thread : ThreadStatus
  success : ThreadStatus

abbrev pub is_runing : ThreadStatus → Bool
is_runing runing = true
is_runing _ = false

abbrev pub is_init : ThreadStatus → Bool
is_init init = true
is_init _ = false

-- Where the thread is in `Monitor`: before the start of the watch, before each of its next steps,
-- at the test of the loop, in the wait, behind the loop, and at its end.
pub data Place : Type 0 where
  starting : Place
  opened : Place
  watched : Place
  added : Place
  testing : Place
  waiting : Place
  leaving : Place
  ended : Place

-- Where the owner is: before `~DirMonitor`, in the loop at its start, behind that loop, at `join`,
-- and behind the destructor.
pub data Owner : Type 0 where
  alive : Owner
  spinning : Owner
  ending : Owner
  joining : Owner
  gone : Owner

-- What one wait and the `read` behind it give: the end of the time, an error of `epoll_wait`, or
-- the names of files created; with none the `read` failed.
pub data Wait : Type 0 where
  time_out : Wait
  failed : ℕ → Wait
  came : List Bytes → Wait

-- The directory's path; whether `inotify_init1` and `inotify_add_watch` succeed; the error of
-- `epoll_ctl`, 0 for none; the handle that `dlopen` gives for a path.
pub record Setting : Type 0 where
  pub dir_path : Bytes
  pub inits : Bool
  pub watches : Bool
  pub adds : Option ℕ
  pub dlopen : Bytes → Option ℕ

-- `name` is the name that the first event in the buffer has; `notified` are the messages so far,
-- the latest first, `fds` the loader's handles in their order.
pub record DirMonitor : Type 0 where
  pub stt : ThreadStatus
  pub place : Place
  pub owner : Owner
  pub name : Bytes
  pub full_name : Bytes
  pub notified : List Bytes
  pub fds : List (Option ℕ)

abbrev pub slash : Bytes → Bytes → Bytes
slash dir name = dir ++ b'/' ∷ name

-- The buffer is not initialised.
unfoldable pub create : Bytes → DirMonitor
create junk = record {
  stt = init;
  place = starting;
  owner = alive;
  name = junk;
  full_name = [];
  notified = [];
  fds = [];
}

-- `LoadLib`; the handle of a failure is kept too.
unfoldable pub load_lib : Setting → Bytes → List (Option ℕ) → List (Option ℕ)
load_lib setting path fds = fds ++ setting.dlopen path ∷ []

-- `~DL_Loader`: `dlclose` on each handle, which is no call on a null pointer.
unfoldable pub close_all : List (Option ℕ) → Outcome (List ℕ)
close_all [] = done []
close_all (none ∷ fds) = fails undefined
close_all (some fd ∷ fds) = close_all fds >>= λ rest. done (fd ∷ rest)

-- A step of the thread, or of its owner.
pub data Move : Type 0 where
  monitor : Wait → Move
  owner : Move

abbrev pub first_name : List Bytes → Bytes → Bytes
first_name [] old = old
first_name (n ∷ ns) old = n

-- The body of the loop on an event: only the first name in the buffer is looked at, and `full_name`
-- grows.
unfoldable pub notify : Setting → List Bytes → DirMonitor → DirMonitor
unfolding load_lib
notify setting names d =
    let name = first_name names d.name in
    let path = d.full_name ++ slash setting.dir_path name in
    record d {
      place = testing;
      name = name;
      full_name = path;
      notified = path ∷ d.notified;
      fds = load_lib setting path d.fds;
    }

-- The next step of the thread; an exception of `Epoll` ends the process.
unfoldable pub monitor_step : Setting → Wait → Place → DirMonitor → Outcome DirMonitor
unfolding notify
monitor_step setting v starting d =
    done (record d { place = opened; stt = if setting.inits then d.stt else error })
monitor_step setting v opened d =
    done (record d { place = watched; stt = if setting.watches then d.stt else error })
monitor_step setting v watched d = elim setting.adds [
  | none ↦ done (record d { place = added })
  | some errno ↦ fails (epoll_error errno)
]
monitor_step setting v added d = done (record d { place = testing; stt = runing })
monitor_step setting v testing d =
    done (record d { place = if is_runing d.stt then waiting else leaving })
monitor_step setting time_out waiting d = done (record d { place = testing })
monitor_step setting (failed errno) waiting d = fails (epoll_error errno)
monitor_step setting (came names) waiting d = done (notify setting names d)
monitor_step setting v leaving d = done (record d { place = ended; stt = success })
monitor_step setting v ended d = done d

abbrev pub is_ended : Place → Bool
is_ended ended = true
is_ended _ = false

-- The next step of the owner, who calls the destructor at any time.
unfoldable pub owner_step : Owner → DirMonitor → DirMonitor
owner_step alive d = record d { owner = spinning }
owner_step spinning d = record d { owner = if is_init d.stt then spinning else ending }
owner_step ending d = record d { owner = joining; stt = end_thread }
owner_step joining d = record d { owner = if is_ended d.place then gone else joining }
owner_step gone d = d

unfoldable pub step : Setting → DirMonitor → Move → Outcome DirMonitor
unfolding monitor_step owner_step
step setting d (monitor v) = monitor_step setting v d.place d
step setting d owner = done (owner_step d.owner d)

unfoldable pub run : Setting → DirMonitor → List Move → Outcome DirMonitor
run setting d [] = done d
run setting d (m ∷ ms) = step setting d m >>= λ d'. run setting d' ms
