-- ===== src/Programs/Master/Stops.antt =====
-- How the main thread of the master comes to leave its loop.
use greencloud.Base.{
  ℕ, ◌≡◌, ◌≢◌, refl, ap, ◌∙◌, sym, true, false, List, [], ◌∷◌, ◌++◌, map, append_assoc, append-nil,
  Bytes, Option, some, done, get_elem?, arith, Outcome-cases, Option-cases, Bool-cases, inl, inr,
  All, ◌==◌,
}
use greencloud.Data.{DriverData, FactoryKey, FactoryKey-discrete}
use greencloud.Data.Keys
use greencloud.Cloud.Slaves.{get_all_fds}
use greencloud.Engine.Factory.{creator}
use greencloud.Engine.Gateways.{TaskInfo, info, read_driver}
use greencloud.Engine.Loop.{
  Status, Event, ready, runs, count, loop, serve, event-Grows, on_event-ready, add_gate_way,
  add_task,
}
use greencloud.Nbd.Driver.{receive_request}
use greencloud.Programs.Master.{
  ReTask, nbd_disconnect, World, Gate, Engine, Setting, set_up, add_slave_gateways, add_tasks,
  new_engine, stdin_gateway, nbd_gateway, slave_gateway, receive, execute,
}
use greencloud.Programs.Master.Creators.{task_table}
use greencloud.Programs.Master.Answered.{run-Accounted}
use greencloud.Programs.Master.Started.{Fresh, begun-Accounted}
use greencloud.Programs.Master.System.{Move, event, work, step, work_on, run, begun}

module _ (setting : Setting) where
  -- The gateways that `RunGreenCloude` adds.
  abbrev gates : ℕ → List ℕ → List Gate
  gates fd fds = stdin_gateway setting ∷ nbd_gateway setting fd ∷ map (slave_gateway setting) fds

  add_slave_gateways_lem :
      (errors : ℕ → ℕ) (fds : List ℕ) (e e' : Engine)
      → add_slave_gateways setting errors fds e ≡ done e'
      → e'.gateways ≡ e.gateways ++ map (slave_gateway setting) fds
  unfolding add_slave_gateways add_gate_way
  add_slave_gateways_lem errors [] e e' eq =
      let same : e ≡ e' = ground arith in
      ap (λ x. x.gateways) (sym same) ∙ sym (append-nil e.gateways)
  add_slave_gateways_lem errors (fd ∷ fds) e e' eq = elim (Bool-cases (errors fd == 0)) [
    | inl fine ↦
        add_slave_gateways_lem errors fds
          (record e { gateways = e.gateways ++ slave_gateway setting fd ∷ [] }) e' (rw fine at eq)
        ∙ append_assoc e.gateways (slave_gateway setting fd ∷ []) (map (slave_gateway setting) fds)
    | inr bad ↦ absurd (ground arith)
  ]

  set_up-gates :
      (errors : ℕ → ℕ) (w : World) (e : Engine) (fds : List ℕ)
      → get_all_fds w.cloud ≡ done fds
      → set_up setting errors w ≡ done e
      → e.gateways ≡ gates w.device.req_fd fds
  unfolding set_up add_gate_way add_tasks new_engine add_task
  set_up-gates errors w e fds listed eq = elim (Bool-cases (errors 0 == 0)) [
    | inr bad ↦ absurd (ground arith)
    | inl fine ↦ elim (Bool-cases (errors w.device.req_fd == 0)) [
      | inr bad ↦ absurd (ground arith)
      | inl good ↦ add_slave_gateways_lem errors fds _ e (rw (fine, good, listed) at eq)
    ]
  ]

  step-gates : (m : Move) (e e' : Engine) → step setting e m ≡ done e' → e'.gateways ≡ e.gateways
  unfolding step work_on
  step-gates (event v) e e' eq =
      let (_, kept, _, _) =
        event-Grows World FactoryKey TaskInfo ReTask FactoryKey-discrete v e e' eq in
      kept
  step-gates (work k sends) e e' eq = elim (Option-cases (get_elem? e.tasks k)) [
    | inl nobody ↦ let same : e ≡ e' = ground arith in ap (λ x. x.gateways) (sym same)
    | inr (t, there) ↦ elim (Outcome-cases (execute setting sends t e.world)) [
      | inl (w, ran) ↦ ground arith
      | inr (x, failed) ↦ absurd (ground arith)
    ]
  ]

  run-gates :
      (ms : List Move) (e e' : Engine) → run setting e ms ≡ done e' → e'.gateways ≡ e.gateways
  unfolding run
  run-gates [] e e' eq = let same : e ≡ e' = ground arith in ap (λ x. x.gateways) (sym same)
  run-gates (m ∷ ms) e e' eq = elim (Outcome-cases (step setting e m)) [
    | inl (n, first) ↦ run-gates ms n e' (rw first at eq) ∙ step-gates m e n first
    | inr (x, failed) ↦ absurd (ground arith)
  ]

  count_none :
      (fd : ℕ) (fds : List ℕ)
      → All (λ x. x ≢ fd) fds
      → count World FactoryKey TaskInfo ReTask FactoryKey-discrete
          (map (slave_gateway setting) fds)
          fd
        ≡ 0
  unfolding slave_gateway
  count_none fd [] others = refl
  count_none fd (x ∷ fds) (other, others) = let rest = count_none fd fds others in ground arith

  -- What the last event leaves: the task that tells the slaves waits behind the others, and the
  -- engine is stopped.
  abbrev pub parting : Engine → DriverData → List (Option Bytes) → Engine
  parting e d left = record e {
    status = Status.stop;
    tasks = e.tasks ++ nbd_disconnect (info (some d)) ∷ [];
    world = record e.world { requests = left; received = d ∷ e.world.received };
  }

  serve-disconnect :
      (fd : ℕ) (e : Engine) (d : DriverData) (left : List (Option Bytes))
      → e.factory ≡ task_table
      → receive_request setting.nbd setting.junk setting.blank e.world.requests ≡ done (d, left)
      → d.key ≡ Keys.disconnect
      → serve World FactoryKey TaskInfo ReTask FactoryKey-discrete (nbd_gateway setting fd) e
        ≡ done (parting e d left)
  unfolding serve nbd_gateway read_driver receive creator Keys.FactoryKey-discrete
  serve-disconnect fd e d left table came key = rw (came, table, key) refl

  loop_stopped :
      (e : Engine)
      → runs e.status ≡ false
      → (vs : List Event)
      → loop World FactoryKey TaskInfo ReTask FactoryKey-discrete vs e ≡ done (e, vs)
  unfolding loop
  loop_stopped e off [] = rw off refl
  loop_stopped e off (v ∷ vs) = rw off refl

  -- In every state that the master reaches from its start while its engine runs, if the kernel then
  -- sends a disconnect and its socket is the next that is ready, the loop ends: the task of the
  -- disconnect is handed to the pool behind those that wait, and the later events are left. The
  -- socket is to differ from standard input and from the sockets of the slaves.
  pub loop-disconnect :
      (errors : ℕ → ℕ) (w : World) (fds : List ℕ) (ms : List Move) (e e' : Engine) (d : DriverData)
      (left : List (Option Bytes)) (vs : List Event)
      → Fresh w
      → get_all_fds w.cloud ≡ done fds
      → w.device.req_fd ≢ 0
      → All (λ x. x ≢ w.device.req_fd) fds
      → set_up setting errors w ≡ done e
      → run setting (begun e) ms ≡ done e'
      → runs e'.status ≡ true
      → receive_request setting.nbd setting.junk setting.blank e'.world.requests ≡ done (d, left)
      → d.key ≡ Keys.disconnect
      → loop World FactoryKey TaskInfo ReTask FactoryKey-discrete (ready w.device.req_fd ∷ vs) e'
        ≡ done (parting e' d left, vs)
  unfolding loop nbd_gateway stdin_gateway
  loop-disconnect errors w fds ms e e' d left vs fresh listed apart others up ran on came key =
      let fd = w.device.req_fd in
      let shape = run-gates ms (begun e) e' ran ∙ set_up-gates errors w e fds listed up in
      let a' =
        run-Accounted setting (λ h. 0) ms (begun e) e' ran
          (begun-Accounted setting (λ h. 0) errors w e fresh up) in
      let event =
        on_event-ready World FactoryKey TaskInfo ReTask FactoryKey-discrete
          (stdin_gateway setting ∷ []) (map (slave_gateway setting) fds) (nbd_gateway setting fd) e'
          shape (ground arith) (count_none fd fds others) in
      rw (on, event, serve-disconnect fd e' d left a'.factory came key)
        (loop_stopped (parting e' d left) refl vs)
