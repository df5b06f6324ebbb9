-- ===== src/Programs/Main/Tests.antt =====
-- A master without slaves whose device does not disconnect.
use greencloud.Base.{true, false, [], ◌∷◌, none, if◌then◌else◌, ◌==◌}
use greencloud.Base.Int.{pos}
use greencloud.Data.{empty}
use greencloud.Data.Keys
use greencloud.Cloud.Slaves
use greencloud.Engine.Factory
use greencloud.Engine.Loop.{Status}
use greencloud.Nbd.Device
use greencloud.Nbd.Device.{NbdDriverProxy}
use greencloud.Nbd.Layout.{nbd, kernel}
use greencloud.Programs.Signals.{Signals, Action, exit_loop, Thread}
use greencloud.Programs.Master.{World, Engine, Setting, stdin_gateway, nbd_gateway}
use greencloud.Programs.Master.Creators.{task_table}
use greencloud.Programs.Main.{Config, Os}

abbrev signals : Signals (Unit {0})
signals = record {
  sigint = 2;
  sigterm = 15;
  fill_set = λ m. (true, m);
  empty_set = λ m. (true, m);
  add_set = λ m s. (true, m);
  del_set = λ m s. (true, m);
  sets_mask = true;
  sets_action = λ s. true;
}

abbrev os : Os (Unit {0})
os = record {
  net = λ port. record { socket = none; binds = false; arrivals = [] };
  signals = signals;
  errors = λ fd. 0;
  eintr = 4;
}

abbrev setting : Setting
setting = record {
  nbd = nbd;
  kernel = record kernel { ioctl = λ fd request flags. if request == 43784 then 5 else 0 };
  junk = λ n. 170;
  blank = record {
    offset = 0;
    req_id = pos 0;
    handler = [];
    len = 0;
    key = Keys.read;
    status = 7;
    buff = empty;
  };
  default = record { socket = 0; cliaddr = 0 };
}

abbrev device : NbdDriverProxy
device = record { connected = true; req_fd = 5; nbd_fd = 6; file_fd = 7 }

abbrev world : World
world = record {
  stdin = [];
  requests = [];
  replies = [];
  cloud = record {
    slaves = [];
    ids = record { last = 0; table = [] };
    num_of_slaves = 0;
    storage_size = 1048576;
  };
  device = device;
  socket = [];
  wire = [];
  received = [];
  answered = [];
  dropped = [];
  packets = [];
}

abbrev act : Action (Unit {0})
act = record { handler = exit_loop; flags = 0; mask = tt }

abbrev thread : Thread (Unit {0})
thread = record { blocked = tt; actions = (15, act) ∷ (2, act) ∷ [] }

abbrev engine : Engine
engine = record {
  status = Status.init;
  gateways = stdin_gateway setting ∷ nbd_gateway setting 5 ∷ [];
  factory = task_table;
  tasks = [];
  world = world;
}

abbrev config : Config
config = record { storage_size = 1; num_of_slaves = 0 }
