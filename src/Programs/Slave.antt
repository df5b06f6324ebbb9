-- ===== src/Programs/Slave.antt =====
-- `RunSlave` and `AddTasksToReqEngine` of release/slave.cpp: the engine of a slave over any
-- storage, its one gateway, and the tasks that its threads execute.
pub mod Hello
pub mod Account
pub mod Served
pub mod Main
mod Tests
use greencloud.Base.{
  ℕ, ◌+◌, ◌≡◌, List, [], ◌∷◌, ◌++◌, Bytes, Bool, Option, none, some, Outcome, done, fails, ◌>>=◌,
  hangs, undefined, epoll_error, or_fail, length, get_elem?, if◌then◌else◌,
}
use greencloud.Base.Int.{pos}
use greencloud.Data.{DriverData, FactoryKey, FactoryKey-discrete, reserve, empty}
use greencloud.Data.Keys
use greencloud.Wire.Text.{put}
use greencloud.Cloud.Slaves.Handshake.{magic}
use greencloud.Storage.Iface.{BlockStore}
use greencloud.Slave.Proxy.{SlaveDriverProxy, receive_request, send_reply}
use greencloud.Slave.Tasks.{execute_read, execute_write, execute_disconnect}
use greencloud.Engine.Loop.{
  GateWay, RequestEngine, Status, Event, add_task, add_gate_way, on_event, runs,
}
use greencloud.Engine.Gateways.{TaskInfo, null, info, read_driver}
use greencloud.Pool.Threads.{remove_at}

pub data SlaveTask : Type 0 where
  slave_read : TaskInfo → SlaveTask
  slave_write : TaskInfo → SlaveTask
  slave_disconnect : TaskInfo → SlaveTask

-- The memory that allocations hand out, and the number that `epoll_ctl` gives for -1 as a
-- descriptor.
pub record Setting : Type 0 where
  pub junk : ℕ → ℕ
  pub blank : DriverData
  pub bad_descriptor : ℕ

-- Which task a thread of the pool takes is its queue's choice; here it may be any. The Boolean says
-- whether `sendto` succeeds on an open socket.
pub data Move : Type 0 where
  event : Event → Move
  work : ℕ → Bool → Move

-- What `RunSlave` sends first: a reply to a read of nothing, with the magic string for its data.
unfoldable pub hello : (ℕ → ℕ) → DriverData → Outcome DriverData
hello junk blank = do
  cells ← put (reserve junk (length magic + 1) empty).cells 0 (magic ++ 0 ∷ [])
  done (record blank {
    buff = record { size = 0; cells = cells };
    len = 0;
    req_id = pos 0;
    key = Keys.read;
  })

module _ (store : BlockStore) where
  open store use {State}

  -- What the process shares, and what will arrive from the network; a record of the requests
  -- received, of the disconnects executed, of the requests for which a datagram was made, and of the
  -- datagrams sent and of those that `sendto` did not take, the latest first.
  pub record World : Type 0 where
    pub arrivals : List (Option (Bytes × ℕ))
    pub proxy : SlaveDriverProxy
    pub state : State
    pub sent : List Bytes
    pub received : List DriverData
    pub dropped : List TaskInfo
    pub answered : List TaskInfo
    pub lost : List Bytes

  abbrev pub Engine : Type 0
  Engine = RequestEngine World FactoryKey TaskInfo SlaveTask FactoryKey-discrete

  abbrev pub Gate : Type 0
  Gate = GateWay World FactoryKey TaskInfo SlaveTask FactoryKey-discrete

  unfoldable pub add_tasks : Engine → Engine
  add_tasks e =
      let add = add_task World FactoryKey TaskInfo SlaveTask FactoryKey-discrete in
      let e₁ = add e Keys.read slave_read in
      let e₂ = add e₁ Keys.write slave_write in add e₂ Keys.disconnect slave_disconnect

  unfoldable pub new_engine : World → Engine
  new_engine w = record { status = Status.init; gateways = []; factory = []; tasks = []; world = w }

  module _ (setting : Setting) where
    unfoldable pub receive : World → Outcome (World × DriverData)
    receive w = elim w.arrivals [
      | [] ↦ fails hangs
      | came ∷ rest ↦ receive_request setting.junk setting.blank w.proxy came >>= λ r.
          done (record w { arrivals = rest; proxy = r.0; received = r.1 ∷ w.received }, r.1)
    ]

    unfoldable pub slave_gateway : ℕ → Gate
    slave_gateway fd = record { fd = fd; read = read_driver receive }

    -- `RunSlave` up to `Run`; the error is that of `epoll_ctl`, 0 for none.
    unfoldable pub set_up : ℕ → World → Outcome Engine
    set_up errno w = do
      fd ← or_fail w.proxy.socket (epoll_error setting.bad_descriptor)
      e ←
          add_gate_way World FactoryKey TaskInfo SlaveTask FactoryKey-discrete errno
            (add_tasks (new_engine w)) (slave_gateway fd)
      first ← hello setting.junk setting.blank
      text ← send_reply first
      done (record e { world = record (e.world) { sent = text ∷ e.world.sent } })

    -- The data of a task; a task without is called with a null pointer.
    abbrev pub data_of : TaskInfo → Outcome DriverData
    data_of null = fails undefined
    data_of (info none) = fails undefined
    data_of (info (some d)) = done d

    -- `sendto` fails on a socket that is closed, and may on one that is open; the failure is only
    -- printed.
    unfoldable pub transmit : Bool → Bytes → World → World
    transmit sends text w = elim w.proxy.socket [
      | none ↦ record w { lost = text ∷ w.lost }
      | some fd ↦
          if sends then record w { sent = text ∷ w.sent } else record w { lost = text ∷ w.lost }
    ]

    -- `Execute` of each class.
    unfoldable pub execute : Bool → SlaveTask → World → Outcome World
    unfolding transmit
    execute sends (slave_read i) w = data_of i >>= λ d.
        execute_read store setting.junk w.state d >>= λ r.
        done (transmit sends r.1 (record w { state = r.0; answered = i ∷ w.answered }))
    execute sends (slave_write i) w = data_of i >>= λ d. execute_write store w.state d >>= λ r.
        done (transmit sends r.1 (record w { state = r.0; answered = i ∷ w.answered }))
    execute sends (slave_disconnect i) w =
        done (record w { proxy = execute_disconnect w.proxy; dropped = i ∷ w.dropped })

    unfoldable pub work_on : Bool → ℕ → Option SlaveTask → Engine → Outcome Engine
    work_on sends k none e = done e
    work_on sends k (some t) e =
        execute sends t e.world >>= λ w. done (record e { world = w; tasks = remove_at k e.tasks })

    -- The loop takes an event only while the status says so; the pool works on behind it.
    unfoldable pub step : Engine → Move → Outcome Engine
    step e (event v) =
        if runs e.status
        then on_event World FactoryKey TaskInfo SlaveTask FactoryKey-discrete v e
        else done e
    step e (work k sends) = work_on sends k (get_elem? e.tasks k) e

    unfoldable pub run : Engine → List Move → Outcome Engine
    run e [] = done e
    run e (m ∷ ms) = step e m >>= λ e'. run e' ms

    -- `Run` sets the status first.
    abbrev pub begun : Engine → Engine
    begun e = record e { status = Status.run }
