-- ===== src/Plugins/Ending.antt =====
-- How the destructor of the monitor ends.
use greencloud.Base.{
  ◌≡◌, refl, subst, Bool, true, false, ◌&&◌, not, List, [], ◌∷◌, Bytes, none, done, Outcome-cases,
  inl, inr, arith, if◌then◌else◌,
}
use greencloud.Plugins.{
  ThreadStatus, is_runing, is_init, Setting, DirMonitor, Place, Owner, joining, gone, Wait,
  time_out, failed, came, Move, monitor, owner, create, notify, step, monitor_step, owner_step, run,
}

-- The watch can be set up.
pub record Watches (setting : Setting) : Type 0 where
  pub inits : setting.inits ≡ true
  pub watches : setting.watches ≡ true
  pub adds : setting.adds ≡ none

abbrev before_loop : Place → Bool
before_loop Place.starting = true
before_loop Place.opened = true
before_loop Place.watched = true
before_loop Place.added = true
before_loop _ = false

abbrev waits : Owner → Bool
waits Owner.alive = true
waits Owner.spinning = true
waits _ = false

abbrev has_set : Owner → Bool
has_set joining = true
has_set gone = true
has_set _ = false

-- Before the loop the status is still the first, so that the owner cannot be past its own loop;
-- once the owner has asked for the end, the status never says that the loop is to go on.
abbrev sound : ThreadStatus → Place → Owner → Bool
sound stt place o =
    if before_loop place
    then is_init stt && waits o
    else not (is_init stt) && not (is_runing stt && has_set o)

abbrev IsSound : DirMonitor → Type 0
IsSound d = sound d.stt d.place d.owner ≡ true

monitor_step-IsSound :
    (setting : Setting) (v : Wait) (p : Place) (d d' : DirMonitor)
    → Watches setting
    → monitor_step setting v p d ≡ done d'
    → d.place ≡ p
    → IsSound d
    → IsSound d'
unfolding monitor_step notify
monitor_step-IsSound setting v Place.starting d d' w eq at s = let i = w.inits in ground arith
monitor_step-IsSound setting v Place.opened d d' w eq at s = let i = w.watches in ground arith
monitor_step-IsSound setting v Place.watched d d' w eq at s = let i = w.adds in ground arith
monitor_step-IsSound setting v Place.added d d' w eq at s = ground arith
monitor_step-IsSound setting v Place.testing d d' w eq at s = ground arith
monitor_step-IsSound setting time_out Place.waiting d d' w eq at s = ground arith
monitor_step-IsSound setting (failed n) Place.waiting d d' w eq at s = absurd (ground arith)
monitor_step-IsSound setting (came names) Place.waiting d d' w eq at s = ground arith
monitor_step-IsSound setting v Place.leaving d d' w eq at s = ground arith
monitor_step-IsSound setting v Place.ended d d' w eq at s = ground arith

owner_step-IsSound :
    (o : Owner) (d : DirMonitor) → d.owner ≡ o → IsSound d → IsSound (owner_step o d)
unfolding owner_step
owner_step-IsSound Owner.alive d at s = ground arith
owner_step-IsSound Owner.spinning d at s = ground arith
owner_step-IsSound Owner.ending d at s = ground arith
owner_step-IsSound joining d at s = ground arith
owner_step-IsSound gone d at s = ground arith

step-IsSound :
    (setting : Setting) (m : Move) (d d' : DirMonitor)
    → Watches setting
    → step setting d m ≡ done d'
    → IsSound d
    → IsSound d'
unfolding step
step-IsSound setting (monitor v) d d' w eq s =
    monitor_step-IsSound setting v d.place d d' w eq refl s
step-IsSound setting owner d d' w eq s =
    let shape : owner_step d.owner d ≡ d' = ground arith in
    subst IsSound shape (owner_step-IsSound d.owner d refl s)

run-IsSound :
    (setting : Setting) (ms : List Move) (d d' : DirMonitor)
    → Watches setting
    → run setting d ms ≡ done d'
    → IsSound d
    → IsSound d'
unfolding run
run-IsSound setting [] d d' w eq s = let same : d ≡ d' = ground arith in subst IsSound same s
run-IsSound setting (m ∷ ms) d d' w eq s = elim (Outcome-cases (step setting d m)) [
  | inl (n, now) ↦ run-IsSound setting ms n d' w (rw now at eq) (step-IsSound setting m d n w now s)
  | inr (x, bad) ↦ absurd (ground arith)
]

-- A wait that `epoll_wait` does not fail.
abbrev pub is_fine : Wait → Bool
is_fine (failed n) = false
is_fine _ = true

abbrev pub steps : Wait → Wait → Wait → List Move
steps v₁ v₂ v₃ = monitor v₁ ∷ monitor v₂ ∷ monitor v₃ ∷ owner ∷ []

-- The end of the thread and of the destructor.
abbrev over : DirMonitor → DirMonitor
over d = record d { stt = ThreadStatus.success; place = Place.ended; owner = gone }

joins :
    (setting : Setting) (p : Place) (d : DirMonitor) (v₁ v₂ v₃ : Wait)
    → d.place ≡ p
    → d.owner ≡ joining
    → is_fine v₁ ≡ true
    → IsSound d
    → (d' : DirMonitor) × (run setting d (steps v₁ v₂ v₃) ≡ done d') × (d'.owner ≡ gone)
unfolding run step monitor_step owner_step notify
joins setting Place.starting d v₁ v₂ v₃ at o fine s = absurd (ground arith)
joins setting Place.opened d v₁ v₂ v₃ at o fine s = absurd (ground arith)
joins setting Place.watched d v₁ v₂ v₃ at o fine s = absurd (ground arith)
joins setting Place.added d v₁ v₂ v₃ at o fine s = absurd (ground arith)
joins setting Place.testing d v₁ v₂ v₃ at o fine s =
    let off : is_runing d.stt ≡ false = ground arith in (over d, rw (at, off, o) refl, refl)
joins setting Place.waiting d time_out v₂ v₃ at o fine s =
    let off : is_runing d.stt ≡ false = ground arith in (over d, rw (at, off, o) refl, refl)
joins setting Place.waiting d (failed n) v₂ v₃ at o fine s = absurd (ground arith)
joins setting Place.waiting d (came names) v₂ v₃ at o fine s =
    let off : is_runing d.stt ≡ false = ground arith in
    (over (notify setting names d), rw (at, off, o) refl, refl)
joins setting Place.leaving d v₁ v₂ v₃ at o fine s = (over d, rw (at, o) refl, refl)
joins setting Place.ended d v₁ v₂ v₃ at o fine s =
    (record d { owner = gone }, rw (at, o) refl, refl)

-- If the watch can be set up, then whenever the destructor has come to its `join`, in any order of
-- the two threads' steps until then, at most three more steps end the thread, and the
-- destructor returns; a wait among them ends by its time or by an event.
pub run-joins :
    (setting : Setting) (junk : Bytes) (ms : List Move) (d : DirMonitor) (v₁ v₂ v₃ : Wait)
    → Watches setting
    → run setting (create junk) ms ≡ done d
    → d.owner ≡ joining
    → is_fine v₁ ≡ true
    → (d' : DirMonitor) × (run setting d (steps v₁ v₂ v₃) ≡ done d') × (d'.owner ≡ gone)
unfolding create
run-joins setting junk ms d v₁ v₂ v₃ w eq at fine =
    joins setting d.place d v₁ v₂ v₃ refl at fine (run-IsSound setting ms (create junk) d w eq refl)
