-- ===== src/Plugins/Messages.antt =====
-- The messages of the monitor and the libraries of the loader.
use greencloud.Base.{
  ℕ, ◌≡◌, ◌↔◌, ◌≢◌, All, All-append, append-All, refl, ap, ◌∙◌, sym, subst, List, [], ◌∷◌, ◌++◌,
  map, Bytes, Option, none, some, done, fails, Outcome-cases, inl, inr, arith,
}
use greencloud.Plugins.{
  Setting, DirMonitor, Place, Owner, Wait, came, Move, monitor, owner, create, notify, step,
  monitor_step, owner_step, load_lib, close_all, run, slash,
}

-- The paths of the files that were looked at, one behind the other, and the messages of which the
-- paths, in the order in which the files came, are made.
abbrev pub joined : List Bytes → Bytes
joined [] = []
joined (path ∷ earlier) = joined earlier ++ path

abbrev pub messages : List Bytes → List Bytes
messages [] = []
messages (path ∷ earlier) = joined (path ∷ earlier) ∷ messages earlier

abbrev pub opens : Setting → List Bytes → List (Option ℕ)
opens setting [] = []
opens setting (m ∷ earlier) = opens setting earlier ++ setting.dlopen m ∷ []

-- The name that an event brings to a thread that waits for one: the first in the buffer; where the
-- `read` failed the buffer still has the name before, or what it had at the start.
abbrev latest : Bytes → List Bytes → Bytes
latest junk [] = junk
latest junk (n ∷ names) = n

abbrev came_at : Bytes → Place → Wait → List Bytes → List Bytes
came_at junk Place.waiting (came (n ∷ others)) names = n ∷ names
came_at junk Place.waiting (came []) names = latest junk names ∷ names
came_at junk _ _ names = names

abbrev announced : Bytes → Place → Move → List Bytes → List Bytes
announced junk p (monitor v) names = came_at junk p v names
announced junk p owner names = names

-- The names that have come in the course of some moves, the latest first.
abbrev pub names_of : Setting → Bytes → DirMonitor → List Move → List Bytes → List Bytes
names_of setting junk d [] names = names
names_of setting junk d (m ∷ ms) names = elim (step setting d m) [
  | done d' ↦ names_of setting junk d' ms (announced junk d.place m names)
  | fails x ↦ names
]

-- The monitor has looked at some files, the latest first, and its messages are made of their paths.
pub record Told (setting : Setting) (junk : Bytes) (names : List Bytes) (d : DirMonitor)
    : Type 0 where
  pub name : d.name ≡ latest junk names
  pub text : d.full_name ≡ joined (map (slash setting.dir_path) names)
  pub told : d.notified ≡ messages (map (slash setting.dir_path) names)
  pub loaded : d.fds ≡ opens setting d.notified

-- A step leaves what was told as it is.
abbrev Quiet : DirMonitor → DirMonitor → Type 0
Quiet d d' =
    (d'.name ≡ d.name)
    × (d'.full_name ≡ d.full_name)
    × (d'.notified ≡ d.notified)
    × (d'.fds ≡ d.fds)

module _ (setting : Setting) (junk : Bytes) where
  Quiet-Told :
      (names : List Bytes) (d d' : DirMonitor)
      → Quiet d d'
      → Told setting junk names d
      → Told setting junk names d'
  Quiet-Told names d d' (n, a, b, c) told = record {
    name = n ∙ told.name;
    text = a ∙ told.text;
    told = b ∙ told.told;
    loaded = c ∙ told.loaded ∙ ap (opens setting) (sym b);
  }

  notify-Told :
      (new : List Bytes) (names : List Bytes) (d : DirMonitor)
      → Told setting junk names d
      → Told setting junk (came_at junk Place.waiting (came new) names) (notify setting new d)
  unfolding notify load_lib
  notify-Told [] names d told = record {
    name = told.name;
    text = rw (told.name, told.text) refl;
    told = rw (told.text, told.told, told.name) refl;
    loaded =
        ap (λ l. l ++ setting.dlopen (d.full_name ++ slash setting.dir_path d.name) ∷ [])
          told.loaded;
  }
  notify-Told (n ∷ others) names d told = record {
    name = refl;
    text = ap (λ t. t ++ slash setting.dir_path n) told.text;
    told = rw (told.text, told.told) refl;
    loaded =
        ap (λ l. l ++ setting.dlopen (d.full_name ++ slash setting.dir_path n) ∷ []) told.loaded;
  }

  monitor_step-Told :
      (v : Wait) (p : Place) (names : List Bytes) (d d' : DirMonitor)
      → monitor_step setting v p d ≡ done d'
      → Told setting junk names d
      → Told setting junk (came_at junk p v names) d'
  unfolding monitor_step
  monitor_step-Told v Place.starting names d d' eq = Quiet-Told names d d' (ground arith)
  monitor_step-Told v Place.opened names d d' eq = Quiet-Told names d d' (ground arith)
  monitor_step-Told v Place.watched names d d' eq = Quiet-Told names d d' (ground arith)
  monitor_step-Told v Place.added names d d' eq = Quiet-Told names d d' (ground arith)
  monitor_step-Told v Place.testing names d d' eq = Quiet-Told names d d' (ground arith)
  monitor_step-Told Wait.time_out Place.waiting names d d' eq = Quiet-Told names d d' (ground arith)
  monitor_step-Told (Wait.failed n) Place.waiting names d d' eq = absurd (ground arith)
  monitor_step-Told (came new) Place.waiting names d d' eq =
      let shape : notify setting new d ≡ d' = ground arith in
      λ told.
        subst (Told setting junk (came_at junk Place.waiting (came new) names)) shape
          (notify-Told new names d told)
  monitor_step-Told v Place.leaving names d d' eq = Quiet-Told names d d' (ground arith)
  monitor_step-Told v Place.ended names d d' eq = Quiet-Told names d d' (ground arith)

  owner_step-Quiet : (o : Owner) (d : DirMonitor) → Quiet d (owner_step o d)
  unfolding owner_step
  owner_step-Quiet Owner.alive d = (refl, refl, refl, refl)
  owner_step-Quiet Owner.spinning d = (refl, refl, refl, refl)
  owner_step-Quiet Owner.ending d = (refl, refl, refl, refl)
  owner_step-Quiet Owner.joining d = (refl, refl, refl, refl)
  owner_step-Quiet Owner.gone d = (refl, refl, refl, refl)

  step-Told :
      (m : Move) (names : List Bytes) (d d' : DirMonitor)
      → step setting d m ≡ done d'
      → Told setting junk names d
      → Told setting junk (announced junk d.place m names) d'
  unfolding step
  step-Told (monitor v) names d d' eq told = monitor_step-Told v d.place names d d' eq told
  step-Told owner names d d' eq told =
      let shape : owner_step d.owner d ≡ d' = ground arith in
      subst (Told setting junk names) shape
        (Quiet-Told names d (owner_step d.owner d) (owner_step-Quiet d.owner d) told)

  run-Told_from :
      (ms : List Move) (names : List Bytes) (d d' : DirMonitor)
      → run setting d ms ≡ done d'
      → Told setting junk names d
      → Told setting junk (names_of setting junk d ms names) d'
  unfolding run
  run-Told_from [] names d d' eq told =
      let same : d ≡ d' = ground arith in subst (Told setting junk names) same told
  run-Told_from (m ∷ ms) names d d' eq told = elim (Outcome-cases (step setting d m)) [
    | inl (n, now) ↦
        rw (names_of, now)
          (run-Told_from ms (announced junk d.place m names) n d' (rw now at eq)
            (step-Told m names d n now told))
    | inr (x, failed) ↦ absurd (ground arith)
  ]

  -- Whatever the two threads do in any order, let the names be those of the events that come while
  -- the monitor waits, the first of each event and no other; where `read` fails, the name before
  -- again, and at first what the buffer has. Then the messages are made of them in this way: each is
  -- the paths of all files so far, one behind the other; and each is handed to `dlopen`, whose
  -- result is kept.
  pub run-Told :
      (ms : List Move) (d : DirMonitor)
      → run setting (create junk) ms ≡ done d
      → Told setting junk (names_of setting junk (create junk) ms []) d
  unfolding create
  run-Told ms d eq =
      run-Told_from ms [] (create junk) d eq
        (record { name = refl; text = refl; told = refl; loaded = refl })

close_all-All :
    (fds : List (Option ℕ))
    → ((closed : List ℕ) × (close_all fds ≡ done closed)) ↔ All (λ h. h ≢ none) fds
unfolding close_all
close_all-All [] = ((λ x. tt), (λ x. ([], refl)))
close_all-All (none ∷ fds) = ((λ x. absurd (ground arith)), (λ x. absurd (x.0 refl)))
close_all-All (some fd ∷ fds) =
    let (there, back) = close_all-All fds in
    (
      (λ (closed, e). elim (Outcome-cases (close_all fds)) [
        | inl (rest, ends) ↦ ((λ same. absurd (ground arith)), there (rest, ends))
        | inr (x, failed) ↦ absurd (ground arith)
      ]),
      (λ (here, others). let (rest, ends) = back others in (fd ∷ rest, ground arith)),
    )

opens-All :
    (setting : Setting) (ms : List Bytes)
    → All (λ h. h ≢ none) (opens setting ms) ↔ All (λ m. setting.dlopen m ≢ none) ms
opens-All setting [] = ((λ x. tt), (λ x. tt))
opens-All setting (m ∷ ms) =
    let (there, back) = opens-All setting ms in
    (
      (λ h.
          let (earlier, (last, _)) =
            append-All (λ h. h ≢ none) (opens setting ms) (setting.dlopen m ∷ []) h in
          (last, there earlier)),
      (λ (last, earlier).
          All-append (λ h. h ≢ none) (opens setting ms) (setting.dlopen m ∷ []) (back earlier)
            (last, tt)),
    )

-- Whatever the two threads did, the loader's destructor is defined exactly if `dlopen` gave a
-- handle for each message; where one was no path of a library, `dlclose` is called on a null
-- pointer.
pub run-close_all :
    (setting : Setting) (junk : Bytes) (ms : List Move) (d : DirMonitor)
    → run setting (create junk) ms ≡ done d
    → ((closed : List ℕ) × (close_all d.fds ≡ done closed))
      ↔ All (λ m. setting.dlopen m ≢ none) d.notified
run-close_all setting junk ms d eq =
    let told = run-Told setting junk ms d eq in
    let (there, back) = close_all-All d.fds in
    let (out, into) = opens-All setting d.notified in
    (
      (λ closed. out (subst (All (λ h. h ≢ none)) told.loaded (there closed))),
      (λ each. back (subst (All (λ h. h ≢ none)) (sym told.loaded) (into each))),
    )
