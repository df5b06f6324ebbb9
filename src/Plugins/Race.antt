-- ===== src/Plugins/Race.antt =====
-- How the destructor of the monitor may wait for ever.
use greencloud.Base.{
  ◌≡◌, refl, Bool, true, false, ◌&&◌, List, [], ◌∷◌, ◌++◌, Bytes, none, done, All, arith,
}
use greencloud.Plugins.{
  runing, is_runing, Setting, DirMonitor, Place, Owner, joining, Wait, time_out, failed, came, Move,
  monitor, owner, create, notify, step, monitor_step, owner_step, run,
}

abbrev loops : Place → Bool
loops Place.testing = true
loops Place.waiting = true
loops _ = false

-- The thread goes round its loop although the destructor waits for its end.
abbrev pub Hangs : DirMonitor → Type 0
Hangs d = (is_runing d.stt && loops d.place ≡ true) × (d.owner ≡ joining)

-- A step that does not fail.
abbrev pub IsFine : Move → Type 0
IsFine (monitor (failed n)) = ⊥
IsFine _ = Unit

monitor_step-Hangs :
    (setting : Setting) (v : Wait) (p : Place) (d : DirMonitor)
    → d.place ≡ p
    → IsFine (monitor v)
    → Hangs d
    → (d' : DirMonitor) × (monitor_step setting v p d ≡ done d') × Hangs d'
unfolding monitor_step notify
monitor_step-Hangs setting v Place.starting d at fine h = absurd (ground arith)
monitor_step-Hangs setting v Place.opened d at fine h = absurd (ground arith)
monitor_step-Hangs setting v Place.watched d at fine h = absurd (ground arith)
monitor_step-Hangs setting v Place.added d at fine h = absurd (ground arith)
monitor_step-Hangs setting v Place.testing d at fine h =
    let on : is_runing d.stt ≡ true = ground arith in
    (record d { place = Place.waiting }, rw on refl, ground arith)
monitor_step-Hangs setting time_out Place.waiting d at fine h =
    (record d { place = Place.testing }, refl, ground arith)
monitor_step-Hangs setting (failed n) Place.waiting d at fine h = absurd fine
monitor_step-Hangs setting (came names) Place.waiting d at fine h =
    (notify setting names d, refl, ground arith)
monitor_step-Hangs setting v Place.leaving d at fine h = absurd (ground arith)
monitor_step-Hangs setting v Place.ended d at fine h = absurd (ground arith)

owner_step-Hangs : (o : Owner) (d : DirMonitor) → d.owner ≡ o → Hangs d → Hangs (owner_step o d)
unfolding owner_step
owner_step-Hangs Owner.alive d at h = absurd (ground arith)
owner_step-Hangs Owner.spinning d at h = absurd (ground arith)
owner_step-Hangs Owner.ending d at h = absurd (ground arith)
owner_step-Hangs joining d at h = ground arith
owner_step-Hangs Owner.gone d at h = absurd (ground arith)

run-Hangs :
    (setting : Setting) (ms : List Move) (d : DirMonitor)
    → All IsFine ms
    → Hangs d
    → (d' : DirMonitor) × (run setting d ms ≡ done d') × Hangs d'
unfolding run step owner_step
run-Hangs setting [] d fine h = (d, refl, h)
run-Hangs setting (monitor v ∷ ms) d (now, later) h =
    let (m, here, still) = monitor_step-Hangs setting v d.place d refl now h in
    let (d', rest, end) = run-Hangs setting ms m later still in (d', rw here rest, end)
run-Hangs setting (owner ∷ ms) d (now, later) h =
    run-Hangs setting ms (owner_step d.owner d) later (owner_step-Hangs d.owner d refl h)

-- The owner is past its loop before the thread overwrites the status.
abbrev race : List Move
race =
    monitor time_out
    ∷ monitor time_out
    ∷ owner
    ∷ owner
    ∷ owner
    ∷ monitor time_out
    ∷ monitor time_out
    ∷ []

abbrev stuck : Bytes → DirMonitor
stuck junk = record {
  stt = runing;
  place = Place.testing;
  owner = joining;
  name = junk;
  full_name = [];
  notified = [];
  fds = [];
}

-- If the directory cannot be watched, while its descriptor can be added, there is an order of
-- steps behind which the destructor waits in `join` for a thread that goes round its loop, whatever
-- steps follow that do not fail.
pub run-endless :
    (setting : Setting) (junk : Bytes)
    → setting.watches ≡ false
    → setting.adds ≡ none
    → (before : List Move) × ((ms : List Move)
        → All IsFine ms
        → (d : DirMonitor) × (run setting (create junk) (before ++ ms) ≡ done d) × Hangs d)
unfolding run step monitor_step owner_step create
run-endless setting junk unwatched adds =
    (race, λ ms fine. rw (unwatched, adds) (run-Hangs setting ms (stuck junk) fine (refl, refl)))
