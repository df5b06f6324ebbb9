-- ===== src/Programs/Tests.antt =====
-- The programs at concrete inputs.
use greencloud.Base.{
  ℕ, ◌≡◌, ◌≢◌, refl, true, List, [], ◌∷◌, ◌++◌, Bytes, some, done, fails, bad_key, arith, replicate,
  map, length,
}
use greencloud.Base.Int.{pos}
use greencloud.Data.{DriverData, FactoryKey, FactoryKey-discrete, empty}
use greencloud.Data.Keys
use greencloud.Nbd.Layout.{nbd, kernel}
use greencloud.Engine.Gateways.{TaskInfo}
use greencloud.Engine.Loop
use greencloud.Engine.Factory
use greencloud.Engine.Gateways
use greencloud.Nbd.Driver
use greencloud.Nbd.Order
use greencloud.Nbd.Stream
use greencloud.Nbd.Tasks.{execute_reply}
use greencloud.Programs.Master
use greencloud.Engine.Loop.{Status, Event, ready, on_event, loop}
use greencloud.Programs.Master.{
  ReTask, World, Engine, Setting, set_up, add_slave_gateways, add_tasks, new_engine, stdin_gateway,
  nbd_gateway, slave_gateway, nbd_read, execute,
}
use greencloud.Cloud.Slaves.{get_all_fds}
use greencloud.Engine.Loop.{add_task, add_gate_way}
use greencloud.Nbd.Driver.{init_reply}
use greencloud.Programs.Master.Creators.{task_table}
use greencloud.Programs.Master.Conserved.{requests, held}
use greencloud.Programs.Master.Started.{Fresh, run-requests}
use greencloud.Programs.Master.Keyed.{run-on_event}
use greencloud.Programs.Master.Stops.{parting, loop-disconnect}
use greencloud.Programs.Master.System.{Move, event, work, run, begun, step, work_on}

-- A request of the kernel of some type, and one that is read from it.
abbrev head : ℕ → Bytes
head type = 37 ∷ 96 ∷ 149 ∷ 19 ∷ 0 ∷ 0 ∷ 0 ∷ type ∷ replicate 8 type ++ replicate 11 0 ++ 3 ∷ []

abbrev blank : DriverData
blank = record {
  offset = 0;
  req_id = pos 0;
  handler = [];
  len = 0;
  key = Keys.read;
  status = 7;
  buff = empty;
}

abbrev setting : Setting
setting = record {
  nbd = nbd;
  kernel = kernel;
  junk = λ n. 170;
  blank = blank;
  default = record { socket = 0; cliaddr = 0 };
}

abbrev world : World
world = record {
  stdin = (10, some (113 ∷ 10 ∷ [])) ∷ [];
  requests = some (head 3) ∷ some (head 0) ∷ some (head 2) ∷ [];
  replies = [];
  cloud = record {
    slaves = (record { offset = 0 }, record { socket = 8; cliaddr = 50 }) ∷ [];
    ids = record { last = 0; table = [] };
    num_of_slaves = 1;
    storage_size = 4096;
  };
  device = record { connected = true; req_fd = 5; nbd_fd = 6; file_fd = 7 };
  socket = map some (replicate 40 3);
  wire = [];
  received = [];
  answered = [];
  dropped = [];
  packets = [];
}

abbrev moves : List Move
moves = event (ready 5) ∷ event (ready 5) ∷ work 0 true ∷ []

-- The flush was answered; the read waits in its task.
abbrev flush : DriverData
flush = record blank { handler = replicate 8 3; status = 0; key = Keys.flush }

abbrev read : DriverData
read = record blank { handler = replicate 8 0; status = 0; key = Keys.read; offset = 0; len = 3 }

abbrev started : Engine
started = record {
  status = Status.init;
  gateways = stdin_gateway setting ∷ nbd_gateway setting 5 ∷ slave_gateway setting 8 ∷ [];
  factory = task_table;
  tasks = [];
  world = world;
}

abbrev served : World
served = record world {
  requests = some (head 2) ∷ [];
  received = read ∷ flush ∷ [];
  answered = flush ∷ [];
  socket = map some (replicate 34 3);
  wire = init_reply nbd 0 (replicate 8 3);
}

abbrev later : Engine
later = record started { world = served; tasks = nbd_read (TaskInfo.info (some read)) ∷ [] }

listed : get_all_fds world.cloud ≡ done (8 ∷ [])
unfolding get_all_fds
listed = refl

set_up_done : set_up setting (λ fd. 0) world ≡ done started
unfolding set_up add_slave_gateways get_all_fds add_tasks new_engine add_task add_gate_way
    Factory.add Keys.FactoryKey-discrete
set_up_done = refl

world_Fresh : Fresh world
world_Fresh = record {
  no_table = refl;
  none_received = refl;
  none_answered = refl;
  none_dropped = refl;
}

abbrev by_length : Bytes → ℕ
by_length h = length h

-- The state behind the moves.
abbrev running : Engine
running = record later { status = Status.run }

running_done : run setting (begun started) moves ≡ done running
unfolding run step work_on execute on_event Loop.visit Loop.serve Gateways.read_driver
    Master.receive Driver.receive_request Driver.decode Stream.read_some Order.ntohl Order.ntohll
    Factory.creator Keys.FactoryKey-discrete Master.answer execute_reply Driver.send_reply
    Stream.write_all init_reply nbd_gateway stdin_gateway slave_gateway
running_done = refl

run-requests_example : requests by_length served.received ≡ held by_length later.tasks served
run-requests_example =
    run-requests setting (λ fd. 0) world moves started running by_length world_Fresh set_up_done
      running_done

run-on_event_example :
    on_event World FactoryKey TaskInfo ReTask FactoryKey-discrete (ready 5) running ≢ fails bad_key
run-on_event_example =
    run-on_event setting (λ fd. 0) world moves started running (ready 5) world_Fresh set_up_done
      running_done

-- The disconnect that comes then.
abbrev farewell : DriverData
farewell = record blank { handler = replicate 8 2; status = 0; key = Keys.disconnect }

farewell_came :
    Driver.receive_request nbd (λ n. 170) blank (some (head 2) ∷ []) ≡ done (farewell, [])
unfolding Driver.receive_request Driver.decode Stream.read_some Order.ntohl Order.ntohll
farewell_came = refl

loop-disconnect_example :
    loop World FactoryKey TaskInfo ReTask FactoryKey-discrete (ready 5 ∷ ready 0 ∷ []) running
    ≡ done (parting setting running farewell [], ready 0 ∷ [])
loop-disconnect_example =
    loop-disconnect setting (λ fd. 0) world (8 ∷ []) moves started running farewell []
      (ready 0 ∷ []) world_Fresh listed (λ e. omega arith) ((λ e. omega arith), tt) set_up_done
      running_done refl farewell_came refl
