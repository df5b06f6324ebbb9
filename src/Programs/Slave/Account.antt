-- ===== src/Programs/Slave/Account.antt =====
-- The account of a slave's requests, over all that it does.
use greencloud.Base.{
  ℕ, zero, suc, ◌+◌, ◌≡◌, ◌↔◌, ◌⊎◌, refl, subst, List, [], ◌∷◌, ◌++◌, none, some, done, fails,
  bad_key, get_elem?, length, arith, ap, Bool, Bytes, Bool-cases, Outcome-cases, Option-cases,
  List-cases, inl, inr, if◌then◌else◌,
}
use greencloud.Data.{DriverData, FactoryKey, FactoryKey-discrete}
use greencloud.Data.Keys
use greencloud.Storage.Iface.{BlockStore}
use greencloud.Slave.Proxy.{receive_request}
use greencloud.Slave.Tasks.{execute_read, execute_write, execute_disconnect}
use greencloud.Engine.Factory.{creator}
use greencloud.Engine.Gateways.{TaskInfo, null, info, read_driver}
use greencloud.Engine.Loop.{Status, runs, ready, serve, on_event, on_event-ready}
use greencloud.Engine.Keeps.{Keeps, on_event-Keeps}
use greencloud.Pool.Threads.{remove_at}
use greencloud.Programs.Slave.{
  SlaveTask, slave_read, slave_write, slave_disconnect, Setting, Move, event, work, World, Engine,
  receive, slave_gateway, transmit, execute, work_on, step, run,
}

abbrev pub task_table : List (FactoryKey × (TaskInfo → SlaveTask))
task_table =
    (Keys.read, slave_read) ∷ (Keys.write, slave_write) ∷ (Keys.disconnect, slave_disconnect) ∷ []

-- The keys of the slave's tasks.
abbrev pub IsServed : FactoryKey → Type 0
IsServed k = (k ≡ Keys.read) ⊎ ((k ≡ Keys.write) ⊎ (k ≡ Keys.disconnect))

creator-IsServed :
    (k : FactoryKey) → (creator FactoryKey-discrete task_table k ≡ fails bad_key) ↔ (¬ IsServed k)
unfolding creator
creator-IsServed k = ground arith

-- The sum of a weight over the requests received, over the data of tasks that wait, and over the data
-- of tasks executed.
abbrev pub requests : (TaskInfo → ℕ) → List DriverData → ℕ
requests f [] = 0
requests f (d ∷ ds) = f (info (some d)) + requests f ds

abbrev info_of : SlaveTask → TaskInfo
info_of (slave_read i) = i
info_of (slave_write i) = i
info_of (slave_disconnect i) = i

abbrev pub waiting : (TaskInfo → ℕ) → List SlaveTask → ℕ
waiting f [] = 0
waiting f (t ∷ ts) = f (info_of t) + waiting f ts

abbrev pub executed : (TaskInfo → ℕ) → List TaskInfo → ℕ
executed f [] = 0
executed f (i ∷ is) = f i + executed f is

waiting-append :
    (f : TaskInfo → ℕ) (ts : List SlaveTask) (t : SlaveTask)
    → waiting f (ts ++ t ∷ []) ≡ waiting f ts + f (info_of t)
waiting-append f [] t = omega arith
waiting-append f (x ∷ ts) t = let rest = waiting-append f ts t in ground arith

waiting-remove_at :
    (f : TaskInfo → ℕ) (k : ℕ) (ts : List SlaveTask) (t : SlaveTask)
    → get_elem? ts k ≡ some t
    → waiting f ts ≡ f (info_of t) + waiting f (remove_at k ts)
waiting-remove_at f k [] t e = absurd (ground arith)
waiting-remove_at f zero (x ∷ ts) t e = ground arith
waiting-remove_at f (suc k) (x ∷ ts) t e = let rest = waiting-remove_at f k ts t in ground arith

-- What the factory makes of a request has the request's data.
creator-info_of :
    (k : FactoryKey) (make : TaskInfo → SlaveTask) (i : TaskInfo)
    → creator FactoryKey-discrete task_table k ≡ done make
    → info_of (make i) ≡ i
unfolding creator
creator-info_of k make i e = ground arith

module _ (store : BlockStore) (setting : Setting) where
  -- The slave's gateway on a descriptor, its table, and the account of its requests: each is a task
  -- that waits, a disconnect executed, or one for which a datagram was made. The datagrams are sent
  -- or lost; the first answers no request.
  pub record Balanced (fd : ℕ) (e : Engine store) : Type 0 where
    pub gate : e.gateways ≡ slave_gateway store setting fd ∷ []
    pub factory : e.factory ≡ task_table
    pub sum :
        (f : TaskInfo → ℕ)
        → requests f e.world.received
          ≡ waiting f e.tasks + executed f e.world.dropped + executed f e.world.answered
    pub told : length e.world.answered + 1 ≡ length e.world.sent + length e.world.lost

  -- When the gateway of a slave is ready, its factory throws exactly if the key of the request is
  -- none of the three.
  pub on_event-bad_key :
      (fd : ℕ) (e : Engine store) (w : World store) (d : DriverData)
      → Balanced fd e
      → receive store setting e.world ≡ done (w, d)
      → (on_event (World store) FactoryKey TaskInfo SlaveTask FactoryKey-discrete (ready fd) e
          ≡ fails bad_key)
        ↔ (¬ IsServed d.key)
  unfolding slave_gateway read_driver serve
  on_event-bad_key fd e w d b came =
      let alone =
        on_event-ready (World store) FactoryKey TaskInfo SlaveTask FactoryKey-discrete [] []
          (slave_gateway store setting fd) e b.gate refl refl in
      let (throws, stays) = creator-IsServed d.key in
      elim (Outcome-cases (creator FactoryKey-discrete task_table d.key)) [
        | inl (make, found) ↦
            rw (alone, came, b.factory, found)
              (
                (λ bad. absurd (ground arith)),
                (λ other. absurd (let bad = stays other in ground arith)),
              )
        | inr (x, missing) ↦ rw (alone, came, b.factory, missing) (ground arith)
      ]

  -- A request that came in.
  receive_lem :
      (w w' : World store) (d : DriverData)
      → receive store setting w ≡ done (w', d)
      → (w'.received ≡ d ∷ w.received)
        × (w'.sent ≡ w.sent)
        × (w'.dropped ≡ w.dropped)
        × (w'.answered ≡ w.answered)
        × (w'.lost ≡ w.lost)
  unfolding receive
  receive_lem w w' d eq = elim (List-cases w.arrivals) [
    | inl nothing ↦ absurd (ground arith)
    | inr (came, rest, shape) ↦
        elim (Outcome-cases (receive_request setting.junk setting.blank w.proxy came)) [
          | inl ((p, d'), parsed) ↦ ground arith
          | inr (x, failed) ↦ absurd (ground arith)
        ]
  ]

  serve-Balanced :
      (fd : ℕ)
      → Keeps
          (World store)
          FactoryKey
          TaskInfo
          SlaveTask
          FactoryKey-discrete
          (Balanced fd)
          (slave_gateway store setting fd)
  unfolding slave_gateway read_driver serve
  serve-Balanced fd e e' eq b = elim (Outcome-cases (receive store setting e.world)) [
    | inl ((w, d), came) ↦ elim (Outcome-cases (creator FactoryKey-discrete e.factory d.key)) [
      | inl (make, found) ↦
          let (received, sent, dropped, answered, lost) = receive_lem e.world w d came in
          let t = make (info (some d)) in
          let shape : record e {
            world = w;
            status = if Keys.is_disconnect d.key then Status.stop else e.status;
            tasks = e.tasks ++ t ∷ [];
          }
              ≡ e' =
            ground arith in
          let same = creator-info_of d.key make (info (some d)) (rw b.factory at found) in
          subst (Balanced fd) shape (record {
            gate = b.gate;
            factory = b.factory;
            sum = λ f.
                let old = b.sum f in
                let more = waiting-append f e.tasks t in
                let his : f (info_of t) ≡ f (info (some d)) = ap f same in
                rw (received, dropped, answered) (omega arith);
            told = rw (answered, sent, lost) b.told;
          })
      | inr (x, failed) ↦ absurd (ground arith)
    ]
    | inr (x, failed) ↦ absurd (ground arith)
  ]

  -- What a task leaves as it is, where its request goes, and its datagram.
  record Executed (t : SlaveTask) (w w' : World store) : Type 0 where
    received : w'.received ≡ w.received
    moved :
        (f : TaskInfo → ℕ)
        → executed f w'.dropped + executed f w'.answered
          ≡ f (info_of t) + executed f w.dropped + executed f w.answered
    told :
        length w'.sent + length w'.lost + length w.answered
        ≡ length w.sent + length w.lost + length w'.answered

  -- A task whose datagram was made.
  transmit-Executed :
      (sends : Bool) (t : SlaveTask) (text : Bytes) (s : store.State) (w : World store)
      → Executed t w (
          transmit store setting sends text
            (record w { state = s; answered = info_of t ∷ w.answered }))
  unfolding transmit
  transmit-Executed sends t text s w = elim (Option-cases w.proxy.socket) [
    | inl closed ↦
        rw closed (record { received = refl; moved = λ f. omega arith; told = omega arith })
    | inr (fd, bound) ↦ elim (Bool-cases sends) [
      | inl can ↦
          rw (bound, can) (record { received = refl; moved = λ f. omega arith; told = omega arith })
      | inr cannot ↦
          rw (bound, cannot)
            (record { received = refl; moved = λ f. omega arith; told = omega arith })
    ]
  ]

  execute-Executed :
      (sends : Bool) (t : SlaveTask) (w w' : World store)
      → execute store setting sends t w ≡ done w'
      → Executed t w w'
  unfolding execute
  execute-Executed sends (slave_read null) w w' eq = absurd (ground arith)
  execute-Executed sends (slave_read (info none)) w w' eq = absurd (ground arith)
  execute-Executed sends (slave_read (info (some d))) w w' eq =
      elim (Outcome-cases (execute_read store setting.junk w.state d)) [
        | inl ((s, text), ran) ↦
            let i = info (some d) in
            let shape : transmit store setting sends text
                  (record w { state = s; answered = i ∷ w.answered })
                ≡ w' =
              ground arith in
            subst (Executed (slave_read i) w) shape
              (transmit-Executed sends (slave_read i) text s w)
        | inr (x, failed) ↦ absurd (ground arith)
      ]
  execute-Executed sends (slave_write null) w w' eq = absurd (ground arith)
  execute-Executed sends (slave_write (info none)) w w' eq = absurd (ground arith)
  execute-Executed sends (slave_write (info (some d))) w w' eq =
      elim (Outcome-cases (execute_write store w.state d)) [
        | inl ((s, text), ran) ↦
            let i = info (some d) in
            let shape : transmit store setting sends text
                  (record w { state = s; answered = i ∷ w.answered })
                ≡ w' =
              ground arith in
            subst (Executed (slave_write i) w) shape
              (transmit-Executed sends (slave_write i) text s w)
        | inr (x, failed) ↦ absurd (ground arith)
      ]
  execute-Executed sends (slave_disconnect i) w w' eq =
      let shape : record w { proxy = execute_disconnect w.proxy; dropped = i ∷ w.dropped } ≡ w' =
        ground arith in
      subst (Executed (slave_disconnect i) w) shape
        (record { received = refl; moved = λ f. omega arith; told = omega arith })

  step-Balanced :
      (fd : ℕ) (m : Move) (e e' : Engine store)
      → step store setting e m ≡ done e'
      → Balanced fd e
      → Balanced fd e'
  unfolding step work_on
  step-Balanced fd (event v) e e' eq b = elim (Bool-cases (runs e.status)) [
    | inl on ↦
        on_event-Keeps (World store) FactoryKey TaskInfo SlaveTask FactoryKey-discrete (Balanced fd)
          v e e' (rw b.gate (serve-Balanced fd, tt)) (rw on at eq) b
    | inr over ↦ let same : e ≡ e' = ground arith in subst (Balanced fd) same b
  ]
  step-Balanced fd (work k sends) e e' eq b = elim (Option-cases (get_elem? e.tasks k)) [
    | inl nobody ↦ let same : e ≡ e' = ground arith in subst (Balanced fd) same b
    | inr (t, there) ↦ elim (Outcome-cases (execute store setting sends t e.world)) [
      | inl (w, ran) ↦
          let x = execute-Executed sends t e.world w ran in
          let shape : record e { world = w; tasks = remove_at k e.tasks } ≡ e' = ground arith in
          let old = b.told in
          let new = x.told in
          subst (Balanced fd) shape (record {
            gate = b.gate;
            factory = b.factory;
            sum = λ f.
                let before = b.sum f in
                let fewer = waiting-remove_at f k e.tasks t there in
                let moved = x.moved f in rw (x.received) (omega arith);
            told = omega arith;
          })
      | inr (x, failed) ↦ absurd (ground arith)
    ]
  ]

  pub run-Balanced :
      (fd : ℕ) (ms : List Move) (e e' : Engine store)
      → run store setting e ms ≡ done e'
      → Balanced fd e
      → Balanced fd e'
  unfolding run
  run-Balanced fd [] e e' eq b = let same : e ≡ e' = ground arith in subst (Balanced fd) same b
  run-Balanced fd (m ∷ ms) e e' eq b = elim (Outcome-cases (step store setting e m)) [
    | inl (n, now) ↦ run-Balanced fd ms n e' (rw now at eq) (step-Balanced fd m e n now b)
    | inr (x, failed) ↦ absurd (ground arith)
  ]
