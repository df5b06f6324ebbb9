-- ===== src/Programs/Master.antt =====
-- `RunGreenCloude` and `AddTasksToReqEngine` of release/greencloud.0.5.cpp: the engine of the
-- master, its gateways, and the tasks that its threads execute.
pub mod System
pub mod Creators
pub mod Conserved
pub mod Account
pub mod Answered
pub mod Started
pub mod Never
pub mod Keyed
pub mod Stops
use greencloud.Base.{
  ℕ, zero, suc, Bool, true, false, List, [], ◌∷◌, ◌++◌, Bytes, Option, none, some, Outcome, done,
  fails, ◌>>=◌, hangs, undefined, get_elem?,
}
use greencloud.Data.{DriverData, FactoryKey, FactoryKey-discrete}
use greencloud.Data.Keys
use greencloud.Cloud.Slaves.{CloudStorage, get_all_fds}
use greencloud.Cloud.Slaves.Handshake.{SlaveData}
use greencloud.Cloud.Send.{Packet}
use greencloud.Cloud.Reply.{gateway_read}
use greencloud.Engine.Loop.{
  GateWay, RequestEngine, Status, Event, add_task, add_gate_way, on_event, run_engine,
}
use greencloud.Engine.Gateways.{TaskInfo, null, info, read_driver, read_stdin}
use greencloud.Nbd.Stream.{Arrivals, Accepts}
use greencloud.Nbd.Driver.{Protocol, receive_request}
use greencloud.Nbd.Device.{Kernel, NbdDriverProxy}
use greencloud.Nbd.Tasks.{
  execute_read, execute_write, execute_reply, execute_disconnect, execute_exit,
}

-- The tasks that the factory makes, by their classes.
pub data ReTask : Type 0 where
  nbd_read : TaskInfo → ReTask
  nbd_write : TaskInfo → ReTask
  nbd_disconnect : TaskInfo → ReTask
  nbd_flush : TaskInfo → ReTask
  nbd_trim : TaskInfo → ReTask
  nbd_bad_request : TaskInfo → ReTask
  nbd_replay : TaskInfo → ReTask
  stdin_exit : TaskInfo → ReTask
  stdin_ignore : TaskInfo → ReTask

-- What the process shares: what will come from standard input (with the byte that an empty read
-- finds), from the kernel and from the slaves, the master's storage, the device, what the kernel's
-- socket takes and what stands on it; and a record of the requests received, of those answered, of
-- the disconnects executed, and of the datagrams sent.
pub record World : Type 0 where
  pub stdin : List (ℕ × Option Bytes)
  pub requests : Arrivals
  pub replies : List (Option Bytes)
  pub cloud : CloudStorage
  pub device : NbdDriverProxy
  pub socket : Accepts
  pub wire : Bytes
  pub received : List DriverData
  pub answered : List DriverData
  pub dropped : List DriverData
  pub packets : List Packet

abbrev pub Gate : Type 0
Gate = GateWay World FactoryKey TaskInfo ReTask FactoryKey-discrete

abbrev pub Engine : Type 0
Engine = RequestEngine World FactoryKey TaskInfo ReTask FactoryKey-discrete

-- The outside: linux/nbd.h, the kernel's ioctls, and the memory that allocations hand out.
pub record Setting : Type 0 where
  pub nbd : Protocol
  pub kernel : Kernel
  pub junk : ℕ → ℕ
  pub blank : DriverData
  pub default : SlaveData

-- `AddTasksToReqEngine`.
unfoldable pub add_tasks : Engine → Engine
add_tasks e =
    let add = add_task World FactoryKey TaskInfo ReTask FactoryKey-discrete in
    let e₁ = add e Keys.q_exit stdin_exit in
    let e₂ = add e₁ Keys.ignore stdin_ignore in
    let e₃ = add e₂ Keys.read nbd_read in
    let e₄ = add e₃ Keys.write nbd_write in
    let e₅ = add e₄ Keys.disconnect nbd_disconnect in
    let e₆ = add e₅ Keys.flush nbd_flush in
    let e₇ = add e₆ Keys.trim nbd_trim in
    let e₈ = add e₇ Keys.bad_request nbd_bad_request in add e₈ Keys.replay nbd_replay

-- A new `RequestEngine` over what is shared.
unfoldable pub new_engine : World → Engine
new_engine w = record { status = Status.init; gateways = []; factory = []; tasks = []; world = w }

module _ (setting : Setting) where
  -- `Read` of the three gateways on what is shared.
  unfoldable pub stdin_read : World → Outcome (World × Bool × FactoryKey × TaskInfo)
  stdin_read w = elim w.stdin [
    | [] ↦ fails hangs
    | (byte, came) ∷ rest ↦
        read_stdin byte came >>= λ r. done (record w { stdin = rest }, r.0, r.1, r.2)
  ]

  unfoldable pub receive : World → Outcome (World × DriverData)
  receive w = receive_request setting.nbd setting.junk setting.blank w.requests >>= λ r.
      done (record w { requests = r.1; received = r.0 ∷ w.received }, r.0)

  unfoldable pub slave_read : World → Outcome (World × Bool × FactoryKey × TaskInfo)
  slave_read w = elim w.replies [
    | [] ↦ fails hangs
    | came ∷ rest ↦ gateway_read setting.junk setting.blank w.cloud came >>= λ r.
        done (record w { cloud = r.0; replies = rest }, false, r.1.0, info (some r.1.1))
  ]

  unfoldable pub stdin_gateway : Gate
  stdin_gateway = record { fd = 0; read = stdin_read }

  unfoldable pub nbd_gateway : ℕ → Gate
  nbd_gateway fd = record { fd = fd; read = read_driver receive }

  unfoldable pub slave_gateway : ℕ → Gate
  slave_gateway fd = record { fd = fd; read = slave_read }

  -- The loop over the sockets of the slaves; the errors are those of `epoll_ctl`, 0 for none.
  unfoldable pub add_slave_gateways : (ℕ → ℕ) → List ℕ → Engine → Outcome Engine
  add_slave_gateways errors [] e = done e
  add_slave_gateways errors (fd ∷ fds) e =
      add_gate_way World FactoryKey TaskInfo ReTask FactoryKey-discrete (errors fd) e
        (slave_gateway fd)
      >>= add_slave_gateways errors fds

  -- `RunGreenCloude` up to `Run`.
  unfoldable pub set_up : (ℕ → ℕ) → World → Outcome Engine
  set_up errors w = do
    let add = add_gate_way World FactoryKey TaskInfo ReTask FactoryKey-discrete
    e₁ ← add (errors 0) (add_tasks (new_engine w)) stdin_gateway
    e₂ ← add (errors w.device.req_fd) e₁ (nbd_gateway w.device.req_fd)
    fds ← get_all_fds w.cloud
    add_slave_gateways errors fds e₂

  -- The data of a task; a task without is called with a null pointer.
  abbrev pub data_of : TaskInfo → Outcome DriverData
  data_of null = fails undefined
  data_of (info none) = fails undefined
  data_of (info (some d)) = done d

  -- The four tasks that answer the kernel.
  unfoldable pub answer : TaskInfo → World → Outcome World
  answer i w = data_of i >>= λ d. execute_reply setting.nbd w.socket d >>= λ r.
      done (record w { socket = r.1; wire = w.wire ++ r.0; answered = d ∷ w.answered })

  -- The two that send a request to a slave; whether `sendto` succeeds is an argument.
  unfoldable pub ask_read : Bool → TaskInfo → World → Outcome World
  ask_read sends i w = data_of i >>= λ d. execute_read sends setting.default w.cloud d >>= λ r.
      done (record w { cloud = r.0; packets = r.1 ∷ w.packets })

  unfoldable pub ask_write : Bool → TaskInfo → World → Outcome World
  ask_write sends i w = data_of i >>= λ d. execute_write sends setting.default w.cloud d >>= λ r.
      done (record w { cloud = r.0; packets = r.1 ∷ w.packets })

  -- A disconnect, whose data is not looked at.
  abbrev pub data_in : TaskInfo → List DriverData
  data_in (info (some d)) = d ∷ []
  data_in _ = []

  unfoldable pub hang_up : Bool → TaskInfo → World → Outcome World
  hang_up sends i w = execute_disconnect (λ s. sends) setting.kernel w.cloud w.device >>= λ r.
      done (record w { device = r.1; packets = r.0 ++ w.packets; dropped = data_in i ++ w.dropped })

  unfoldable pub leave : World → Outcome World
  leave w = execute_exit setting.kernel w.device >>= λ r. done (record w { device = r.0 })

  -- `Execute` of each class.
  unfoldable pub execute : Bool → ReTask → World → Outcome World
  execute sends (nbd_read i) w = ask_read sends i w
  execute sends (nbd_write i) w = ask_write sends i w
  execute sends (nbd_disconnect i) w = hang_up sends i w
  execute sends (nbd_flush i) w = answer i w
  execute sends (nbd_trim i) w = answer i w
  execute sends (nbd_bad_request i) w = answer i w
  execute sends (nbd_replay i) w = answer i w
  execute sends (stdin_exit i) w = leave w
  execute sends (stdin_ignore i) w = done w
