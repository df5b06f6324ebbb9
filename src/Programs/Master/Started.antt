-- ===== src/Programs/Master/Started.antt =====
-- The master from `RunGreenCloude` on.
use greencloud.Base.{
  ℕ, ◌≡◌, ap, subst, List, [], ◌∷◌, ◌++◌, Bytes, Outcome, done, arith, Outcome-cases, inl, inr,
  All-append,
}
use greencloud.Data.{FactoryKey, FactoryKey-discrete}
use greencloud.Cloud.Slaves.{get_all_fds}
use greencloud.Engine.Gateways.{TaskInfo}
use greencloud.Engine.Loop.{add_task, add_gate_way}
use greencloud.Programs.Master.{
  ReTask, World, Gate, Engine, Setting, add_tasks, new_engine, stdin_gateway, nbd_gateway,
  slave_gateway, add_slave_gateways, set_up,
}
use greencloud.Programs.Master.Creators.{add_tasks-factory}
use greencloud.Programs.Master.System.{Move, run, begun}
use greencloud.Programs.Master.Conserved.{requests, table, held}
use greencloud.Programs.Master.Account.{Ours, our_stdin, our_nbd, our_slave, Accounted}
use greencloud.Programs.Master.Answered.{run-Accounted}

-- Nothing has been received yet, and nothing waits.
pub record Fresh (w : World) : Type 0 where
  pub no_table : w.cloud.ids.table ≡ []
  pub none_received : w.received ≡ []
  pub none_answered : w.answered ≡ []
  pub none_dropped : w.dropped ≡ []

module _ (setting : Setting) where
  abbrev Add : ℕ → Engine → Gate → Outcome Engine
  Add errno e g = add_gate_way World FactoryKey TaskInfo ReTask FactoryKey-discrete errno e g

  add-Accounted :
      (f : Bytes → ℕ) (errno : ℕ) (e e' : Engine) (g : Gate)
      → Add errno e g ≡ done e'
      → Ours setting g
      → Accounted setting f e
      → Accounted setting f e'
  unfolding add_gate_way
  add-Accounted f errno e e' g eq our a =
      let shape : record e { gateways = e.gateways ++ g ∷ [] } ≡ e' = ground arith in
      subst (Accounted setting f) shape (record {
        balance = a.balance;
        factory = a.factory;
        gates = All-append (Ours setting) e.gateways (g ∷ []) a.gates (our, tt);
      })

  slaves-Accounted :
      (f : Bytes → ℕ) (errors : ℕ → ℕ) (fds : List ℕ) (e e' : Engine)
      → add_slave_gateways setting errors fds e ≡ done e'
      → Accounted setting f e
      → Accounted setting f e'
  unfolding add_slave_gateways
  slaves-Accounted f errors [] e e' eq a =
      let same : e ≡ e' = ground arith in subst (Accounted setting f) same a
  slaves-Accounted f errors (fd ∷ fds) e e' eq a =
      elim (Outcome-cases (Add (errors fd) e (slave_gateway setting fd))) [
        | inl (m, added) ↦
            slaves-Accounted f errors fds m e' (rw added at eq)
              (add-Accounted f (errors fd) e m (slave_gateway setting fd) added (our_slave fd) a)
        | inr (x, failed) ↦ absurd (ground arith)
      ]

  new-Accounted :
      (f : Bytes → ℕ) (w : World) → Fresh w → Accounted setting f (add_tasks (new_engine w))
  unfolding add_tasks new_engine add_task
  new-Accounted f w fresh = record {
    balance =
        let a = ap (requests f) fresh.none_received in
        let b = ap (table f) fresh.no_table in
        let c = ap (requests f) fresh.none_answered in
        let d = ap (requests f) fresh.none_dropped in omega arith;
    factory = add_tasks-factory w;
    gates = tt;
  }

  set_up-Accounted :
      (f : Bytes → ℕ) (errors : ℕ → ℕ) (w : World) (e : Engine)
      → Fresh w
      → set_up setting errors w ≡ done e
      → Accounted setting f e
  unfolding set_up
  set_up-Accounted f errors w e fresh eq =
      elim (Outcome-cases (Add (errors 0) (add_tasks (new_engine w)) (stdin_gateway setting))) [
        | inr (x, failed) ↦ absurd (ground arith)
        | inl (e₁, first) ↦
            elim (Outcome-cases
              (Add (errors w.device.req_fd) e₁ (nbd_gateway setting w.device.req_fd))) [
                | inr (x, failed) ↦ absurd (ground arith)
                | inl (e₂, second) ↦ elim (Outcome-cases (get_all_fds w.cloud)) [
                  | inr (x, failed) ↦ absurd (ground arith)
                  | inl (fds, listed) ↦
                      let a₁ =
                        add-Accounted f (errors 0) (add_tasks (new_engine w)) e₁
                          (stdin_gateway setting) first our_stdin (new-Accounted f w fresh) in
                      let a₂ =
                        add-Accounted f (errors w.device.req_fd) e₁ e₂
                          (nbd_gateway setting w.device.req_fd) second (our_nbd w.device.req_fd)
                          a₁ in
                      slaves-Accounted f errors fds e₂ e (rw (first, second, listed) at eq) a₂
                ]
              ]
      ]

  pub begun-Accounted :
      (f : Bytes → ℕ) (errors : ℕ → ℕ) (w : World) (e : Engine)
      → Fresh w
      → set_up setting errors w ≡ done e
      → Accounted setting f (begun e)
  begun-Accounted f errors w e fresh up =
      let a = set_up-Accounted f errors w e fresh up in
      record { balance = a.balance; factory = a.factory; gates = a.gates }

  -- From a start with no request, in any order of events and of tasks that the pool executes, the
  -- requests received from the kernel are those that wait in a task or for a slave, those answered
  -- and the disconnects executed, by any weight of their handles: none is lost, and none is
  -- answered more often than it was received.
  pub run-requests :
      (errors : ℕ → ℕ) (w : World) (ms : List Move) (e e' : Engine) (f : Bytes → ℕ)
      → Fresh w
      → set_up setting errors w ≡ done e
      → run setting (begun e) ms ≡ done e'
      → requests f e'.world.received ≡ held f e'.tasks e'.world
  run-requests errors w ms e e' f fresh up ran =
      (run-Accounted setting f ms (begun e) e' ran (begun-Accounted f errors w e fresh up)).balance
