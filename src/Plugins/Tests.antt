-- ===== src/Plugins/Tests.antt =====
-- The monitor of a directory to which two files come, and of one that cannot be watched.
use greencloud.Base.{
  ◌≡◌, refl, true, false, List, [], ◌∷◌, ◌++◌, codes, none, some, done, ◌==◌, if◌then◌else◌, length,
  All,
}
use greencloud.Plugins.{
  ThreadStatus, Setting, DirMonitor, Place, Owner, Wait, came, time_out, Move, monitor, owner,
  create, notify, load_lib, step, monitor_step, owner_step, run,
}
use greencloud.Plugins.Messages.{Told, run-Told}
use greencloud.Plugins.Ending.{Watches, steps, run-joins}
use greencloud.Plugins.Race.{IsFine, Hangs, run-endless}

abbrev setting : Setting
setting = record {
  dir_path = codes "p";
  inits = true;
  watches = true;
  adds = none;
  dlopen = λ path. if length path == 3 then some 9 else none;
}

abbrev round : Wait → List Move
round v = monitor v ∷ monitor v ∷ []

abbrev moves : List Move
moves =
    round time_out
    ++ round time_out
    ++ round (came (codes "a" ∷ []))
    ++ round (came (codes "b" ∷ codes "c" ∷ []))
    ++ owner ∷ owner ∷ owner ∷ []

abbrev after : DirMonitor
after = record {
  stt = ThreadStatus.end_thread;
  place = Place.testing;
  owner = Owner.joining;
  name = codes "b";
  full_name = codes "p/ap/b";
  notified = codes "p/ap/b" ∷ codes "p/a" ∷ [];
  fds = some 9 ∷ none ∷ [];
}

moves_done : run setting (create (codes "?")) moves ≡ done after
unfolding run step monitor_step owner_step notify load_lib create
moves_done = refl

watches : Watches setting
watches = record { inits = refl; watches = refl; adds = refl }

run-Told_example : Told setting (codes "?") (codes "b" ∷ codes "a" ∷ []) after
unfolding step monitor_step owner_step notify load_lib create
run-Told_example = run-Told setting (codes "?") moves after moves_done

run-joins_example :
    (d : DirMonitor) × (run setting after (steps time_out time_out time_out) ≡ done d)
    × (d.owner ≡ Owner.gone)
run-joins_example =
    run-joins setting (codes "?") moves after time_out time_out time_out watches moves_done refl
      refl

abbrev unwatched : Setting
unwatched = record setting { watches = false }

run-endless_example :
    (before : List Move) × ((ms : List Move)
      → All IsFine ms
      → (d : DirMonitor) × (run unwatched (create (codes "?")) (before ++ ms) ≡ done d) × Hangs d)
run-endless_example = run-endless unwatched (codes "?") refl refl
