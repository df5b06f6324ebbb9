-- ===== src/Programs/Threaded/Tests.antt =====
-- On a file: two requests whose threads overtake each other, a write and a read of other bytes.
use greencloud.Base.{
  Option, none, some, codes, ◌-◌, ℕ, ◌≡◌, refl, true, false, List, [], ◌∷◌, Bytes, done, arith, inl,
}
use greencloud.Base.Int.{pos}
use mathlib.Core.List.{Perm}
use greencloud.Data.{DriverData, FactoryKey, reserve}
use greencloud.Data.Keys
use greencloud.Storage.Disk
use greencloud.Storage.Instances.{disk_store}
use greencloud.Nbd.Layout.{kernel}
use greencloud.Nbd.Device
use greencloud.Nbd.Device.{NbdDriverProxy}
use greencloud.Programs.Signals.{Action, Thread, exit_loop}
use greencloud.Programs.Threaded.Main.{Machine, setting_of}
use greencloud.Programs.Serial.{request, Setting}
use greencloud.Programs.Serial.Device.{device}
use greencloud.Programs.Threaded.{
  Move, event, serves, sends, World, operate, serve, send, turn, wake, step, run,
}
use greencloud.Programs.Threaded.Scheduled.{asked, run-device}
use greencloud.Programs.Threaded.Drained.{Ends, run-Ends}

abbrev asks : FactoryKey → ℕ → ℕ → Bytes → DriverData
asks key offset len cells = record {
  offset = offset;
  req_id = pos 0;
  handler = 1 ∷ [];
  len = len;
  key = key;
  status = 0;
  buff = record { size = 0; cells = cells };
}

abbrev setting : Setting
setting = record { junk = λ n. 170; disconnect = done tt; send_reply = λ d. done tt }

abbrev world : World disk_store setting
world = record {
  state = record { file = 1 ∷ 2 ∷ 3 ∷ 4 ∷ 5 ∷ 6 ∷ []; good = true };
  given = [];
  served = [];
  replies = [];
  disconnected = false;
  over = false;
}

abbrev moves : List Move
moves =
    event (request (done (asks Keys.write 1 2 (9 ∷ 8 ∷ []))))
    ∷ event (request (done (asks Keys.read 4 2 (0 ∷ 0 ∷ []))))
    ∷ serves 1
    ∷ sends 0
    ∷ serves 0
    ∷ sends 0
    ∷ []

abbrev later : World disk_store setting
later = record world {
  state = record { file = 1 ∷ 9 ∷ 8 ∷ 4 ∷ 5 ∷ 6 ∷ []; good = true };
  replies = asks Keys.write 1 2 (9 ∷ 8 ∷ []) ∷ asks Keys.read 4 2 (5 ∷ 6 ∷ []) ∷ [];
}

moves_done : run disk_store setting moves world ≡ done later
unfolding run step turn wake serve send operate Disk.read Disk.write Disk.put_at reserve
moves_done = refl

run-device_example :
    (later.state.file ≡ (device (λ n. 170) (asked moves) (1 ∷ 2 ∷ 3 ∷ 4 ∷ 5 ∷ 6 ∷ [], [])).0)
    × Perm later.replies (device (λ n. 170) (asked moves) (1 ∷ 2 ∷ 3 ∷ 4 ∷ 5 ∷ 6 ∷ [], [])).1
run-device_example =
    run-device disk_store setting moves world later (λ a. refl)
      (tt, (tt, (tt, (tt, (tt, (tt, tt)))))) ((omega arith, omega arith), (omega arith, tt))
      ((inl (omega arith), tt), (tt, tt)) refl refl refl moves_done refl refl

abbrev begun : List Move
begun =
    event (request (done (asks Keys.write 1 2 (9 ∷ 8 ∷ []))))
    ∷ event (request (done (asks Keys.read 4 2 (0 ∷ 0 ∷ []))))
    ∷ serves 1
    ∷ []

run-Ends_example :
    (w₁ : World disk_store setting) × (run disk_store setting begun world ≡ done w₁)
    × Ends disk_store setting w₁
run-Ends_example =
    run-Ends disk_store setting begun world (λ a. refl) (tt, (tt, (tt, tt)))
      (record {
        on = refl;
        fits = ((omega arith, omega arith), (omega arith, tt));
        apart = ((inl (omega arith), tt), (tt, tt));
      })

abbrev digit : Bytes → Option ℕ
digit [] = none
digit (c ∷ cs) = some (c - 48)

abbrev machine : Machine (Unit {0})
machine = record {
  kernel = kernel;
  signals = record {
    sigint = 2;
    sigterm = 15;
    fill_set = λ m. (true, m);
    empty_set = λ m. (true, m);
    add_set = λ m s. (true, m);
    del_set = λ m s. (true, m);
    sets_mask = true;
    sets_action = λ s. true;
  };
  eintr = 4;
  stoull = digit;
  junk = λ n. 170;
  send_reply = λ d. done tt;
  opens = true;
}

abbrev arguments : List Bytes
arguments = codes "green_cloud" ∷ codes "2" ∷ codes "3" ∷ codes "/dev/nbd0" ∷ []

abbrev driver : NbdDriverProxy
driver = record { connected = true; req_fd = 5; nbd_fd = 6; file_fd = 7 }

abbrev ended : World disk_store (setting_of machine driver)
ended = record {
  state = record { file = 0 ∷ 9 ∷ 8 ∷ 0 ∷ 0 ∷ 0 ∷ 0 ∷ []; good = true };
  given = [];
  served = [];
  replies = asks Keys.write 1 2 (9 ∷ 8 ∷ []) ∷ asks Keys.read 4 2 (0 ∷ 0 ∷ []) ∷ [];
  disconnected = false;
  over = false;
}

abbrev action : Action (Unit {0})
action = record { handler = exit_loop; flags = 0; mask = tt }

abbrev quiet : Thread (Unit {0})
quiet = record { blocked = tt; actions = [] }

abbrev after_all : List Move
after_all = event (request (done (asks Keys.disconnect 0 0 []))) ∷ serves 0 ∷ []
