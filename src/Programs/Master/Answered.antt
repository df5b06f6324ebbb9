-- ===== src/Programs/Master/Answered.antt =====
-- The account of the kernel's requests, over all that the master does.
use greencloud.Base.{
  ℕ, ◌≡◌, ap, sym, subst, Bool, List, [], ◌∷◌, Bytes, some, done, get_elem?, arith, Outcome-cases,
  Option-cases, inl, inr, All,
}
use greencloud.Data.{FactoryKey, FactoryKey-discrete, is_disconnect}
use greencloud.Engine.Gateways.{TaskInfo, info, read_driver}
use greencloud.Engine.Keeps.{Keeps, on_event-Keeps}
use greencloud.Nbd.Driver.{receive_request}
use greencloud.Pool.Threads.{remove_at}
use greencloud.Programs.Master.{
  ReTask, nbd_replay, World, Gate, Engine, Setting, execute, receive, stdin_gateway, nbd_gateway,
  slave_gateway,
}
use greencloud.Programs.Master.Creators.{receive_request-KernelKey, Made, kernel-Made, replay-Made}
use greencloud.Programs.Master.System.{Move, event, work, work_on, step, run}
use greencloud.Programs.Master.Conserved.{
  requests, info_of, task_of, tasks-remove_at, execute-Moves,
}
use greencloud.Programs.Master.Account.{
  Ours, our_stdin, our_nbd, our_slave, Accounted, serve-Accounted, serve_failed, task_of-Holds,
  stdin_read_lem, slave_read_lem,
}

module _ (setting : Setting) where
  stdin_Keeps :
      (f : Bytes → ℕ)
      → Keeps World FactoryKey TaskInfo ReTask FactoryKey-discrete
          (Accounted setting f)
          (stdin_gateway setting)
  unfolding stdin_gateway
  stdin_Keeps f e e' eq a =
      let (w, stops, k, i, came) = serve_failed (stdin_gateway setting) e e' eq in
      let (make, made, none_held, received, kept) =
        stdin_read_lem setting f e.world w stops k i came in
      let same : requests f w.received ≡ requests f e.world.received = ap (requests f) received in
      serve-Accounted setting f (stdin_gateway setting) e e' w stops k i make came made
        (omega arith) eq a

  nbd_Keeps :
      (f : Bytes → ℕ) (fd : ℕ)
      → Keeps World FactoryKey TaskInfo ReTask FactoryKey-discrete
          (Accounted setting f)
          (nbd_gateway setting fd)
  unfolding nbd_gateway read_driver receive
  nbd_Keeps f fd e e' eq a =
      elim (Outcome-cases
        (receive_request setting.nbd setting.junk setting.blank e.world.requests)) [
          | inl ((d, rest), came) ↦
              let (make, made, holds) = kernel-Made d.key (
                receive_request-KernelKey setting.nbd setting.junk setting.blank d e.world.requests
                  rest came) in
              let w : World = record (e.world) {
                requests = rest;
                received = d ∷ e.world.received;
              } in
              let read : (nbd_gateway setting fd).read e.world
                  ≡ done (w, is_disconnect d.key, d.key, info (some d)) =
                ground arith in
              let held_here = task_of-Holds f make holds (info (some d)) in
              serve-Accounted setting f (nbd_gateway setting fd) e e' w (is_disconnect d.key) d.key
                (info (some d)) make read made (omega arith) eq a
          | inr (x, failed) ↦
              let (w, stops, k, i, read) = serve_failed (nbd_gateway setting fd) e e' eq in
              absurd (ground arith)
        ]

  slave_Keeps :
      (f : Bytes → ℕ) (fd : ℕ)
      → Keeps World FactoryKey TaskInfo ReTask FactoryKey-discrete
          (Accounted setting f)
          (slave_gateway setting fd)
  unfolding slave_gateway
  slave_Keeps f fd e e' eq a =
      let (w, stops, k, i, came) = serve_failed (slave_gateway setting fd) e e' eq in
      let (d, replay, given, received, moved) = slave_read_lem setting f e.world w stops k i came in
      let same : requests f w.received ≡ requests f e.world.received = ap (requests f) received in
      let weight : task_of f (nbd_replay i) ≡ f d.handler = ap (info_of f) given in
      serve-Accounted setting f (slave_gateway setting fd) e e' w stops k i nbd_replay came
        (subst (λ x. Made x nbd_replay) (sym replay) replay-Made) (omega arith) eq a

  pub Ours-Keeps :
      (f : Bytes → ℕ) (g : Gate)
      → Ours setting g
      → Keeps World FactoryKey TaskInfo ReTask FactoryKey-discrete (Accounted setting f) g
  Ours-Keeps f _ our_stdin = stdin_Keeps f
  Ours-Keeps f _ (our_nbd fd) = nbd_Keeps f fd
  Ours-Keeps f _ (our_slave fd) = slave_Keeps f fd

  All-Keeps :
      (f : Bytes → ℕ) (gs : List Gate)
      → All (Ours setting) gs
      → All (Keeps World FactoryKey TaskInfo ReTask FactoryKey-discrete (Accounted setting f)) gs
  All-Keeps f [] ours = tt
  All-Keeps f (g ∷ gs) (our, ours) = (Ours-Keeps f g our, All-Keeps f gs ours)

  work-Accounted :
      (f : Bytes → ℕ) (k : ℕ) (sends : Bool) (e e' : Engine)
      → step setting e (work k sends) ≡ done e'
      → Accounted setting f e
      → Accounted setting f e'
  unfolding step work_on
  work-Accounted f k sends e e' eq a = elim (Option-cases (get_elem? e.tasks k)) [
    | inl nothing ↦ let same : e ≡ e' = ground arith in subst (Accounted setting f) same a
    | inr (t, here) ↦ elim (Outcome-cases (execute setting sends t e.world)) [
      | inl (w, ran) ↦
          let moved = execute-Moves setting f sends t e.world w ran in
          let taken = tasks-remove_at f k e.tasks t here in
          let same : requests f w.received ≡ requests f e.world.received =
            ap (requests f) moved.1 in
          let weight = moved.0 in
          let old = a.balance in
          let shape : record e { world = w; tasks = remove_at k e.tasks } ≡ e' = ground arith in
          subst (Accounted setting f) shape
            (record { balance = omega arith; factory = a.factory; gates = a.gates })
      | inr (x, failed) ↦ absurd (ground arith)
    ]
  ]

  step-Accounted :
      (f : Bytes → ℕ) (m : Move) (e e' : Engine)
      → step setting e m ≡ done e'
      → Accounted setting f e
      → Accounted setting f e'
  unfolding step
  step-Accounted f (event v) e e' eq a =
      on_event-Keeps World FactoryKey TaskInfo ReTask FactoryKey-discrete (Accounted setting f) v e
        e' (All-Keeps f e.gateways a.gates) eq a
  step-Accounted f (work k sends) e e' eq a = work-Accounted f k sends e e' eq a

  pub run-Accounted :
      (f : Bytes → ℕ) (ms : List Move) (e e' : Engine)
      → run setting e ms ≡ done e'
      → Accounted setting f e
      → Accounted setting f e'
  unfolding run
  run-Accounted f [] e e' eq a =
      let same : e ≡ e' = ground arith in subst (Accounted setting f) same a
  run-Accounted f (m ∷ ms) e e' eq a = elim (Outcome-cases (step setting e m)) [
    | inl (v, now) ↦
        let later : run setting v ms ≡ done e' = rw now at eq in
        run-Accounted f ms v e' later (step-Accounted f m e v now a)
    | inr (x, failed) ↦ absurd (ground arith)
  ]
