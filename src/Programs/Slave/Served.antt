-- ===== src/Programs/Slave/Served.antt =====
-- What a slave answers, and which datagrams end it.
use greencloud.Base.{
  ℕ, ◌+◌, ◌≡◌, ◌↔◌, refl, sym, ap, subst, if◌then◌else◌, List, [], ◌∷◌, Bytes, some, done, fails,
  bad_key, length, arith, Outcome-cases, Bool-cases, inl, inr, ◌==◌,
}
use greencloud.Data.{DriverData, FactoryKey, FactoryKey-discrete}
use greencloud.Data.Keys
use greencloud.Storage.Iface.{BlockStore}
use greencloud.Slave.Proxy.{send_reply}
use greencloud.Engine.Factory
use greencloud.Engine.Factory.{creator}
use greencloud.Engine.Gateways.{TaskInfo}
use greencloud.Engine.Loop.{Status, runs, ready, on_event, add_task, add_gate_way}
use greencloud.Programs.Slave.{
  SlaveTask, Setting, Move, event, World, Engine, hello, add_tasks, new_engine, receive,
  slave_gateway, set_up, step, run, begun,
}
use greencloud.Programs.Slave.Account.{
  task_table, requests, waiting, executed, IsServed, Balanced, on_event-bad_key, run-Balanced,
}

module _ (store : BlockStore) (setting : Setting) where
  -- Nothing has been received or sent.
  pub record Fresh (w : World store) : Type 0 where
    pub none_received : w.received ≡ []
    pub none_sent : w.sent ≡ []
    pub none_dropped : w.dropped ≡ []
    pub none_answered : w.answered ≡ []
    pub none_lost : w.lost ≡ []

  -- The engine of a slave that has sent its first datagram.
  abbrev pub set_out : ℕ → World store → Bytes → Engine store
  set_out fd w text = record {
    status = Status.init;
    gateways = slave_gateway store setting fd ∷ [];
    factory = task_table;
    tasks = [];
    world = record w { sent = text ∷ w.sent };
  }

  set_up-Balanced :
      (errno fd : ℕ) (w : World store) (e : Engine store)
      → Fresh w
      → w.proxy.socket ≡ some fd
      → set_up store setting errno w ≡ done e
      → Balanced store setting fd e
  unfolding set_up add_gate_way add_tasks new_engine add_task Factory.add Keys.FactoryKey-discrete
  set_up-Balanced errno fd w e fresh bound up = elim (Bool-cases (errno == 0)) [
    | inr bad ↦ absurd (ground arith)
    | inl fine ↦ elim (Outcome-cases (hello setting.junk setting.blank)) [
      | inr (x, failed) ↦ absurd (ground arith)
      | inl (first, made) ↦ elim (Outcome-cases (send_reply first)) [
        | inr (x, failed) ↦ absurd (ground arith)
        | inl (text, sent) ↦
            let shape : set_out fd w text ≡ e =
              ground (arith, rw (bound, fine, made, sent) at up) in
            subst (Balanced store setting fd) shape (record {
              gate = refl;
              factory = refl;
              sum = λ f. rw (fresh.none_received, fresh.none_dropped, fresh.none_answered) refl;
              told = rw (fresh.none_sent, fresh.none_answered, fresh.none_lost) refl;
            })
      ]
    ]
  ]

  -- `Run` changes the status alone.
  begun-Balanced :
      (fd : ℕ) (e : Engine store)
      → Balanced store setting fd e
      → Balanced store setting fd (begun store setting e)
  begun-Balanced fd e b = record { gate = b.gate; factory = b.factory; sum = b.sum; told = b.told }

  -- However events and the pool's tasks follow each other from the `Run` of a slave that had not
  -- received or sent anything before it was set up, each request that it received waits in a task,
  -- or was executed, once: as a disconnect, or as one for which a datagram was made, by any weight
  -- of the requests. Each datagram made was sent or was not taken by `sendto`; there is one more than
  -- the requests executed so, which presents the slave.
  pub run-sent :
      (errno fd : ℕ) (w : World store) (ms : List Move) (e e' : Engine store)
      → Fresh w
      → w.proxy.socket ≡ some fd
      → set_up store setting errno w ≡ done e
      → run store setting (begun store setting e) ms ≡ done e'
      → ((f : TaskInfo → ℕ)
          → requests f e'.world.received
            ≡ waiting f e'.tasks + executed f e'.world.dropped + executed f e'.world.answered)
        × (length e'.world.answered + 1 ≡ length e'.world.sent + length e'.world.lost)
  run-sent errno fd w ms e e' fresh bound up ran =
      let b =
        run-Balanced store setting fd ms (begun store setting e) e' ran
          (begun-Balanced fd e (set_up-Balanced errno fd w e fresh bound up)) in
      (b.sum, b.told)

  -- In every state that a slave reaches from its start and in which its engine runs, if a request is
  -- there and the slave's socket is ready, the factory throws `Badkey` exactly if the key of the
  -- request is none of read, write and disconnect.
  pub run-bad_key :
      (errno fd : ℕ) (w w' : World store) (ms : List Move) (e e' : Engine store) (d : DriverData)
      → Fresh w
      → w.proxy.socket ≡ some fd
      → set_up store setting errno w ≡ done e
      → run store setting (begun store setting e) ms ≡ done e'
      → e'.status ≡ Status.run
      → receive store setting e'.world ≡ done (w', d)
      → (step store setting e' (event (ready fd)) ≡ fails bad_key) ↔ (¬ IsServed d.key)
  unfolding step
  run-bad_key errno fd w w' ms e e' d fresh bound up ran on came =
      let heard =
        on_event (World store) FactoryKey TaskInfo SlaveTask FactoryKey-discrete (ready fd) e' in
      let turned : step store setting e' (event (ready fd)) ≡ heard =
        ap (λ r. if runs r then heard else done e') on in
      subst (λ o. (o ≡ fails bad_key) ↔ (¬ IsServed d.key)) (sym turned)
        (on_event-bad_key store setting fd e' w' d
          (run-Balanced store setting fd ms (begun store setting e) e' ran
            (begun-Balanced fd e (set_up-Balanced errno fd w e fresh bound up)))
          came)
