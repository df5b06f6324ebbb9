-- ===== src/Programs/Threaded/Main.antt =====
-- `main` of release/greencloud.0.1.5.cpp, over the storage in a file.
use greencloud.Base.{
  ℕ, false, List, [], Bytes, Bool, Option, none, some, Outcome, done, fails, ◌>>=◌,
}
use greencloud.Data.{DriverData}
use greencloud.Data.Keys
use greencloud.Storage.Disk
use greencloud.Storage.Disk.{DiskStorage}
use greencloud.Storage.Instances.{disk_store, disk_bytes}
use greencloud.Nbd.Device.{Kernel, NbdDriverProxy, disconnect}
use greencloud.Programs.Signals.{Signals, Action, Thread, main_thread_set_signals}
use greencloud.Programs.Catches.{Ending, exits_with, aborts, early, ending}
use greencloud.Programs.Arguments.{Plan, asks, throws, usage, parse, make_driver, storage_size}
use greencloud.Programs.Serial.{Setting}
use greencloud.Programs.Threaded.{Move, World, run}

-- What the process stands on: the kernel, the signals, EINTR, `std::stoull`, what the allocator
-- hands out, what the driver's `SendReply` comes to, and whether the storage's file opens and
-- `seekp` reaches its end.
pub record Machine (Set : Type 0) : Type 0 where
  pub kernel : Kernel
  pub signals : Signals Set
  pub eintr : ℕ
  pub stoull : Bytes → Option ℕ
  pub junk : ℕ → ℕ
  pub send_reply : DriverData → Outcome (Unit {0})
  pub opens : Bool

module _ {Set : Type 0} (m : Machine Set) where
  -- The driver as the loop uses it.
  abbrev pub setting_of : NbdDriverProxy → Setting
  setting_of driver = record {
    junk = m.junk;
    disconnect = disconnect m.kernel driver >>= λ _. done tt;
    send_reply = m.send_reply;
  }

  -- The storage in its new file, and no thread.
  abbrev pub begin : (driver : NbdDriverProxy) → Plan → World disk_store (setting_of driver)
  begin driver plan = record {
    state = Disk.create m.opens (storage_size plan);
    given = [];
    served = [];
    replies = [];
    disconnected = false;
    over = false;
  }

  -- How the process ends, and, if no exception left its loop, the bytes that its storage serves and
  -- the replies sent, the latest first.
  pub record Finish : Type 0 where
    pub how : Ending
    pub block : Option Bytes
    pub replies : List DriverData

  unfoldable pub finish :
      (driver : NbdDriverProxy) → Outcome (World disk_store (setting_of driver)) → Finish
  finish driver (done w) = record {
    how = exits_with 0;
    block = some (disk_bytes w.state);
    replies = w.replies;
  }
  finish driver (fails x) = record {
    how = ending m.kernel m.eintr driver x;
    block = none;
    replies = [];
  }

  abbrev only : Ending → Finish
  only e = record { how = e; block = none; replies = [] }

  unfoldable pub main : List Bytes → Set → Action Set → Thread Set → List Move → Finish
  unfolding early finish
  main args junk act t ms = elim (main_thread_set_signals m.signals junk act t) [
    | fails x ↦ only (early m.eintr x)
    | done t' ↦ elim (parse m.stoull args) [
      | usage ↦ only (exits_with 1)
      | throws ↦ only aborts
      | asks plan ↦ elim (make_driver m.kernel plan) [
        | fails x ↦ only (early m.eintr x)
        | done (driver, calls) ↦
            finish driver (run disk_store (setting_of driver) ms (begin driver plan))
      ]
    ]
  ]
