-- ===== src/Programs/Slave/Tests.antt =====
-- A slave over the mapped storage at concrete inputs.
use greencloud.Base.{
  Failure, ℕ, ◌+◌, ◌≡◌, ◌↔◌, refl, true, List, [], ◌∷◌, ◌++◌, Bytes, codes, Option, none, some,
  done, fails, length,
}
use greencloud.Base.Int.{pos}
use greencloud.Data.{DriverData, FactoryKey-discrete, empty}
use greencloud.Data.Keys
use greencloud.Wire.Text.{zeros, next_parse}
use greencloud.Wire.Decimal.{strtoul}
use greencloud.Cloud.Slaves.Handshake.{slave_data, magic}
use greencloud.Storage.Instances.{mmap_store}
use greencloud.Engine.Factory
use greencloud.Engine.Gateways
use greencloud.Engine.Gateways.{TaskInfo, info}
use greencloud.Engine.Loop
use greencloud.Engine.Loop.{Status, Event, time_out, ready, on_event, add_task, add_gate_way}
use greencloud.Slave.Proxy
use greencloud.Slave.Tasks
use greencloud.Programs.Slave
use greencloud.Programs.Slave.{
  SlaveTask, slave_disconnect, Setting, Move, event, work, World, Engine, add_tasks, new_engine,
  receive, slave_gateway, set_up, step, run,
}
use greencloud.Programs.Slave.Hello.{greeting, hello_lem, greeting_lem, set_up-slave_data}
use greencloud.Programs.Slave.Account.{IsServed, requests, waiting, executed}
use greencloud.Programs.Slave.Served.{Fresh, set_out, run-sent}
use greencloud.Programs.Slave.Main.{Start, made, slave_ending, start, start-aborts}
use greencloud.Programs.Catches.{aborts}
use greencloud.Programs.Signals.{
  Signals, Action, exit_loop, Thread, main_thread_set_signals, set_sig_mask, sig_empty, sig_add,
  set_action,
}
use greencloud.Storage.Mmap
use greencloud.Storage.Mmap.{MmapStorage}

abbrev blank : DriverData
blank = record {
  offset = 0;
  req_id = pos 0;
  handler = [];
  len = 0;
  key = Keys.read;
  status = 7;
  buff = empty;
}

abbrev setting : Setting
setting = record { junk = λ n. 170; blank = blank; bad_descriptor = 9 }

-- A request to disconnect comes.
abbrev world : World mmap_store
world = record {
  arrivals = some (codes "0;0;0;2;" ++ 0 ∷ [], 50) ∷ [];
  proxy = record { socket = some 5; servaddr = 50 };
  state = record { size = 8; mapping = 1 ∷ 2 ∷ 3 ∷ 0 ∷ 5 ∷ 6 ∷ 7 ∷ 8 ∷ [] };
  sent = [];
  received = [];
  dropped = [];
  answered = [];
  lost = [];
}

world_Fresh : Fresh mmap_store setting world
world_Fresh = record {
  none_received = refl;
  none_sent = refl;
  none_dropped = refl;
  none_answered = refl;
  none_lost = refl;
}

abbrev first : Bytes
first = greeting ++ 0 ∷ (magic ++ zeros 4093)

set_up_done : set_up mmap_store setting 0 world ≡ done (set_out mmap_store setting 5 world first)
unfolding set_up add_gate_way add_tasks new_engine add_task Factory.add Keys.FactoryKey-discrete
set_up_done = rw (hello_lem setting.junk blank, greeting_lem blank) refl

abbrev farewell : DriverData
farewell = record blank { key = Keys.disconnect }

abbrev unknown : DriverData
unknown = record blank { key = Keys.trim }

abbrev moves : List Move
moves = event (ready 5) ∷ work 0 true ∷ event (ready 5) ∷ []

abbrev left : World mmap_store
left = record world {
  arrivals = [];
  proxy = record { socket = none; servaddr = 50 };
  sent = first ∷ [];
  received = farewell ∷ [];
  dropped = info (some farewell) ∷ [];
}

abbrev over : Engine mmap_store
over = record (set_out mmap_store setting 5 world first) { status = Status.stop; world = left }

moves_done :
    run mmap_store setting
      (Slave.begun mmap_store setting (set_out mmap_store setting 5 world first))
      moves
    ≡ done over
unfolding run step Slave.work_on Slave.execute on_event Loop.visit Loop.serve Gateways.read_driver
    receive slave_gateway Factory.creator Keys.FactoryKey-discrete Tasks.execute_disconnect
    Proxy.disconnect Proxy.receive_request Proxy.parse_request Proxy.received Proxy.get_size_t
    next_parse zeros Proxy.get_uint Proxy.get_int Proxy.get_req_key strtoul
moves_done = refl

set_up-slave_data_example :
    (text : Bytes) × (first ∷ [] ≡ text ∷ [])
    × ((fd from : ℕ) (rest : List (Option (Bytes × ℕ)))
        → slave_data
            (record { socket = some fd; binds = true; arrivals = some (text, from) ∷ rest })
          ≡ done (record { socket = fd; cliaddr = from }))
set_up-slave_data_example =
    set_up-slave_data mmap_store setting 0 world (set_out mmap_store setting 5 world first)
      set_up_done

run-sent_example :
    ((f : TaskInfo → ℕ)
      → requests f left.received ≡ waiting f over.tasks + executed f left.dropped + executed f [])
    × (length left.answered + 1 ≡ length left.sent + length left.lost)
run-sent_example =
    run-sent mmap_store setting 0 5 world moves (set_out mmap_store setting 5 world first) over
      world_Fresh refl set_up_done moves_done

-- The reply of a task behind the disconnect is lost.
replies_lost : (text : Bytes) → (Slave.transmit mmap_store setting true text left).lost ≡ text ∷ []
unfolding Slave.transmit
replies_lost text = refl

-- From `main` on, with a storage of 1 MB: a request to trim comes, which the master never sends.
abbrev signals : Signals (Unit {0})
signals = record {
  sigint = 2;
  sigterm = 15;
  fill_set = λ m. (true, m);
  empty_set = λ m. (true, m);
  add_set = λ m s. (true, m);
  del_set = λ m s. (true, m);
  sets_mask = true;
  sets_action = λ s. true;
}

abbrev act : Action (Unit {0})
act = record { handler = exit_loop; flags = 0; mask = tt }

abbrev thread : Thread (Unit {0})
thread = record { blocked = tt; actions = [] }

abbrev quiet : Thread (Unit {0})
quiet = record { blocked = tt; actions = (15, act) ∷ (2, act) ∷ [] }

abbrev origin : Start
origin = record {
  storage_size = 1;
  socket = some 5;
  address = 50;
  file = [];
  errno = 0;
  arrivals = some (codes "0;0;0;4;" ++ 0 ∷ [], 50) ∷ [];
}

abbrev big : MmapStorage
big = Mmap.create [] 1048576

abbrev shown : Engine mmap_store
shown =
    set_out mmap_store setting 5 (record world { arrivals = origin.arrivals; state = big }) first

abbrev running : Engine mmap_store
running = Slave.begun mmap_store setting shown

starts : start setting signals origin tt act thread ≡ done (quiet, shown)
unfolding start made Proxy.create set_up add_gate_way add_tasks new_engine add_task Factory.add
    Keys.FactoryKey-discrete main_thread_set_signals set_sig_mask sig_empty sig_add set_action
starts = rw (hello_lem setting.junk blank, greeting_lem blank) refl

waits_on : run mmap_store setting running (event time_out ∷ work 0 true ∷ []) ≡ done running
unfolding run step on_event Slave.work_on
waits_on = refl

arrives :
    receive mmap_store setting running.world
    ≡ done (record (running.world) { arrivals = []; received = unknown ∷ [] }, unknown)
unfolding receive Proxy.receive_request Proxy.parse_request Proxy.received Proxy.get_size_t
    next_parse zeros Proxy.get_uint Proxy.get_int Proxy.get_req_key strtoul
arrives = refl

start-aborts_example :
    ((x : Failure) × (step mmap_store setting running (event (ready 5)) ≡ fails x)
      × (slave_ending x ≡ aborts))
    ↔ (¬ IsServed Keys.trim)
start-aborts_example =
    start-aborts setting signals origin 5 tt act thread quiet
      (record (running.world) { arrivals = []; received = unknown ∷ [] })
      (event time_out ∷ work 0 true ∷ []) shown running unknown refl starts waits_on refl arrives
