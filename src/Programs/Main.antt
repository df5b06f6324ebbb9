-- ===== src/Programs/Main.antt =====
-- `main` of release/greencloud.0.5.cpp: what it sets up, and how each failure ends the process.
pub mod Never
pub mod Endings
mod Tests
use greencloud.Base.{
  ℕ, ◌*◌, ◌%◌, ◌^◌, ◌≡◌, not, List, Option, none, some, Outcome, Failure, done, fails, ◌>>=◌, ◌>>◌,
  guard, exits, ◌==◌,
}
use greencloud.Data.{FactoryKey, FactoryKey-discrete}
use greencloud.Cloud.Slaves
use greencloud.Cloud.Slaves.Handshake.{Peer}
use greencloud.Engine.Gateways.{TaskInfo}
use greencloud.Engine.Loop.{Status, Event, on_event}
use greencloud.Nbd.Device.{NbdDriverProxy, create_for}
use greencloud.Programs.Catches.{Ending, exits_with, aborts, early, ending}
use greencloud.Programs.Signals.{Signals, Action, Thread, main_thread_set_signals}
use greencloud.Programs.Master.{ReTask, World, Engine, Setting, set_up}
use greencloud.Programs.Master.System.{Move, run, begun}

-- The numbers of the file that `read_json` reads.
pub record Config : Type 0 where
  pub storage_size : ℕ
  pub num_of_slaves : ℕ

-- The storage's size in bytes, a `size_t`.
abbrev pub bytes_of : Config → ℕ
bytes_of config = (config.storage_size * 1048576) % 2 ^ 64

-- What the operating system does: the network's ports, the signals, the errors of `epoll_ctl`, and
-- the number EINTR.
pub record Os (Set : Type 0) : Type 0 where
  pub net : ℕ → Peer
  pub signals : Signals Set
  pub errors : ℕ → ℕ
  pub eintr : ℕ

module _ {Set : Type 0} (setting : Setting) (os : Os Set) where
  -- `main` behind its configuration up to its driver, on the number of its arguments.
  unfoldable pub driven : Config → ℕ → Outcome NbdDriverProxy
  driven config ac = do
    guard (not (ac == 1)) (exits 1)
    (device, calls) ← create_for setting.kernel (bytes_of config)
    done device

  -- From there up to `Run`, on a mask and an action that are not initialised, and what else the
  -- process shares.
  unfoldable pub start :
      Config
      → NbdDriverProxy
      → Set
      → Action Set
      → Thread Set
      → World
      → Outcome (Thread Set × Engine)
  start config device junk act t w = do
    cloud ← Slaves.create os.net config.num_of_slaves (bytes_of config)
    t' ← main_thread_set_signals os.signals junk act t
    e ← set_up setting os.errors (record w { device = device; cloud = cloud })
    done (t', e)

  -- What leaves the `try` of `main` when there is a driver, and the driver that its `catch` clauses
  -- find: a failure before `Run`, or one of an event in a state that the engine reaches while it
  -- runs, the tasks of the pool among its steps.
  pub data Leaves (config : Config) (device : NbdDriverProxy) (junk : Set) (act : Action Set)
      (t : Thread Set) (w : World) : NbdDriverProxy → Failure → Type 0 where
    before_run :
        {x : Failure}
        → start config device junk act t w ≡ fails x
        → Leaves config device junk act t w device x
    in_run :
        {x : Failure} (t' : Thread Set) (e e' : Engine) (ms : List Move) (v : Event)
        → start config device junk act t w ≡ done (t', e)
        → run setting (begun e) ms ≡ done e'
        → e'.status ≡ Status.run
        → on_event World FactoryKey TaskInfo ReTask FactoryKey-discrete v e' ≡ fails x
        → Leaves config device junk act t w e'.world.device x

  -- How `main` ends. The configuration is read outside the `try`: none where `read_json` or `get`
  -- throws, which nothing catches.
  pub data Finishes (json : Option Config) (ac : ℕ) (junk : Set) (act : Action Set) (t : Thread Set)
      (w : World) : Ending → Type 0 where
    unread : json ≡ none → Finishes json ac junk act t w aborts
    undriven :
        {x : Failure} (config : Config)
        → json ≡ some config
        → driven config ac ≡ fails x
        → Finishes json ac junk act t w (early os.eintr x)
    caught :
        {x : Failure} (config : Config) (device driver : NbdDriverProxy)
        → json ≡ some config
        → driven config ac ≡ done device
        → Leaves config device junk act t w driver x
        → Finishes json ac junk act t w (ending setting.kernel os.eintr driver x)
    returned :
        (config : Config) (device : NbdDriverProxy) (t' : Thread Set) (e e' : Engine)
        (ms : List Move)
        → json ≡ some config
        → driven config ac ≡ done device
        → start config device junk act t w ≡ done (t', e)
        → run setting (begun e) ms ≡ done e'
        → e'.status ≡ Status.stop
        → Finishes json ac junk act t w (exits_with 0)
