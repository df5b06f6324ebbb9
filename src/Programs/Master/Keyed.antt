-- ===== src/Programs/Master/Keyed.antt =====
-- The master's factory knows every key that its gateways read.
use greencloud.Base.{
  ℕ, ◌≡◌, ◌≢◌, ap, ◌∙◌, sym, subst, Bool, List, [], ◌∷◌, none, some, done, fails, bad_key, arith,
  Outcome-cases, List-cases, inl, inr, All,
}
use greencloud.Data.{FactoryKey, FactoryKey-discrete}
use greencloud.Cloud.Reply.{create_data_from_buff, gateway_read}
use greencloud.Cloud.Reply as Reply
use greencloud.Nbd.Driver.{receive_request}
use greencloud.Engine.Factory.{creator}
use greencloud.Programs.Master.Creators.{
  task_table, Made, kernel-Made, replay-Made, receive_request-KernelKey,
}
use greencloud.Engine.Gateways.{TaskInfo, read_driver, read_stdin}
use greencloud.Engine.Loop.{Event, on_event, serve}
use greencloud.Engine.Keeps.{Keeps, NeverBadKey, on_event-NeverBadKey}
use greencloud.Programs.Master.{
  ReTask, nbd_replay, World, Gate, Engine, Setting, set_up, stdin_gateway, nbd_gateway,
  slave_gateway, stdin_read, receive, slave_read,
}
use greencloud.Programs.Master.Account.{
  Ours, our_stdin, our_nbd, our_slave, Accounted, stdin_read_lem, slave_read_lem,
}
use greencloud.Programs.Master.Answered.{run-Accounted, Ours-Keeps}
use greencloud.Programs.Master.Started.{Fresh, begun-Accounted}
use greencloud.Programs.Master.System.{Move, run, begun}
use greencloud.Programs.Master.Never.{create_data-ne, receive_request-ne}

-- If what a gateway reads is no bad key, and the factory has its key, it is served.
serve-NeverBadKey :
    (g : Gate) (e : Engine)
    → (g.read e.world ≢ fails bad_key)
    → ((w : World) (stops : Bool) (k : FactoryKey) (i : TaskInfo)
        → g.read e.world ≡ done (w, stops, k, i)
        → (make : TaskInfo → ReTask) × Made k make)
    → e.factory ≡ task_table
    → serve World FactoryKey TaskInfo ReTask FactoryKey-discrete g e ≢ fails bad_key
unfolding serve
serve-NeverBadKey g e reads known factory eq = elim (Outcome-cases (g.read e.world)) [
  | inl ((w, stops, k, i), came) ↦
      let (make, made) = known w stops k i came in
      let found : creator FactoryKey-discrete e.factory k ≡ done make =
        ap (λ t. creator FactoryKey-discrete t k) factory ∙ made in
      absurd (ground arith)
  | inr (x, failed) ↦ absurd (ground arith)
]

module _ (setting : Setting) where
  -- The property that the engine's loop keeps, with no weight.
  abbrev Ready : Engine → Type 0
  Ready = Accounted setting (λ h. 0)

  stdin_read-ne : (w : World) → stdin_read setting w ≢ fails bad_key
  unfolding stdin_read read_stdin
  stdin_read-ne w e = elim (List-cases w.stdin) [
    | inl nothing ↦ absurd (ground arith)
    | inr ((byte, none), rest, shape) ↦ absurd (ground arith)
    | inr ((byte, some []), rest, shape) ↦ absurd (ground arith)
    | inr ((byte, some (c ∷ cs)), rest, shape) ↦ absurd (ground arith)
  ]

  slave_read-ne : (w : World) → slave_read setting w ≢ fails bad_key
  unfolding slave_read gateway_read
  slave_read-ne w e = elim (List-cases w.replies) [
    | inl nothing ↦ absurd (ground arith)
    | inr (none, rest, shape) ↦ absurd (ground arith)
    | inr (some datagram, rest, shape) ↦
        let made = create_data-ne setting.junk setting.blank w.cloud (Reply.received datagram) in
        absurd (ground arith)
  ]

  read_driver-Made :
      (fd : ℕ) (v w : World) (stops : Bool) (k : FactoryKey) (i : TaskInfo)
      → (nbd_gateway setting fd).read v ≡ done (w, stops, k, i)
      → (make : TaskInfo → ReTask) × Made k make
  unfolding nbd_gateway read_driver receive
  read_driver-Made fd v w stops k i came =
      elim (Outcome-cases (receive_request setting.nbd setting.junk setting.blank v.requests)) [
        | inl ((d, rest), got) ↦
            let (make, made, _) = kernel-Made d.key (
              receive_request-KernelKey setting.nbd setting.junk setting.blank d v.requests rest
                got) in
            let same : d.key ≡ k = ground arith in (make, subst (λ x. Made x make) same made)
        | inr (x, failed) ↦ absurd (ground arith)
      ]

  stdin_NeverBadKey :
      NeverBadKey World FactoryKey TaskInfo ReTask FactoryKey-discrete Ready (stdin_gateway setting)
  unfolding stdin_gateway
  stdin_NeverBadKey e a =
      serve-NeverBadKey (stdin_gateway setting) e (stdin_read-ne e.world)
        (λ w stops k i came.
          let (make, made, _, _, _) = stdin_read_lem setting (λ h. 0) e.world w stops k i came in
          (make, made))
        a.factory

  nbd_NeverBadKey :
      (fd : ℕ)
      → NeverBadKey World FactoryKey TaskInfo ReTask FactoryKey-discrete Ready
          (nbd_gateway setting fd)
  unfolding nbd_gateway read_driver receive
  nbd_NeverBadKey fd e a =
      serve-NeverBadKey (nbd_gateway setting fd) e
        (λ bad.
          let never = receive_request-ne setting.nbd setting.junk setting.blank e.world.requests in
          absurd (ground arith))
        (λ w stops k i came. read_driver-Made fd e.world w stops k i came) a.factory

  slave_NeverBadKey :
      (fd : ℕ)
      → NeverBadKey World FactoryKey TaskInfo ReTask FactoryKey-discrete Ready
          (slave_gateway setting fd)
  unfolding slave_gateway
  slave_NeverBadKey fd e a =
      serve-NeverBadKey (slave_gateway setting fd) e (slave_read-ne e.world)
        (λ w stops k i came.
          let (d, replay, _, _, _) = slave_read_lem setting (λ h. 0) e.world w stops k i came in
          (nbd_replay, subst (λ x. Made x nbd_replay) (sym replay) replay-Made))
        a.factory

  Ours-Safe :
      (g : Gate)
      → Ours setting g
      → Keeps World FactoryKey TaskInfo ReTask FactoryKey-discrete Ready g
        × NeverBadKey World FactoryKey TaskInfo ReTask FactoryKey-discrete Ready g
  Ours-Safe _ our_stdin = (Ours-Keeps setting (λ h. 0) _ our_stdin, stdin_NeverBadKey)
  Ours-Safe _ (our_nbd fd) = (Ours-Keeps setting (λ h. 0) _ (our_nbd fd), nbd_NeverBadKey fd)
  Ours-Safe _ (our_slave fd) = (Ours-Keeps setting (λ h. 0) _ (our_slave fd), slave_NeverBadKey fd)

  All-Safe :
      (gs : List Gate)
      → All (Ours setting) gs
      → All
          (λ g.
            Keeps World FactoryKey TaskInfo ReTask FactoryKey-discrete Ready g
            × NeverBadKey World FactoryKey TaskInfo ReTask FactoryKey-discrete Ready g)
          gs
  All-Safe [] ours = tt
  All-Safe (g ∷ gs) (our, ours) = (Ours-Safe g our, All-Safe gs ours)

  -- In every state that the master can reach from its start no event makes its factory throw
  -- `Badkey`, which `main` does not catch.
  pub run-on_event :
      (errors : ℕ → ℕ) (w : World) (ms : List Move) (e e' : Engine) (v : Event)
      → Fresh w
      → set_up setting errors w ≡ done e
      → run setting (begun e) ms ≡ done e'
      → on_event World FactoryKey TaskInfo ReTask FactoryKey-discrete v e' ≢ fails bad_key
  run-on_event errors w ms e e' v fresh up ran =
      let a =
        run-Accounted setting (λ h. 0) ms (begun e) e' ran
          (begun-Accounted setting (λ h. 0) errors w e fresh up) in
      on_event-NeverBadKey World FactoryKey TaskInfo ReTask FactoryKey-discrete Ready v e'
        (All-Safe e'.gateways a.gates) a
