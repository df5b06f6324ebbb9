-- ===== src/Programs/Main/Endings.antt =====
-- Which failures of the master's main thread end its process without a status.
use greencloud.Base.{ℕ, ◌≡◌, Option, some, [], Failure, done, fails, epoll_error}
use greencloud.Cloud.Slaves
use greencloud.Cloud.Slaves.{Offset, get_all_fds, walk_fds}
use greencloud.Nbd.Device.{NbdDriverProxy, disconnect}
use greencloud.Programs.Signals.{Action, Thread}
use greencloud.Programs.Master.{World, Setting}
use greencloud.Programs.Main.{Config, Os, Leaves, driven}

module _ {Set : Type 0} (setting : Setting) (os : Os Set) where
  -- Nothing was received before.
  pub record Unused (w : World) : Type 0 where
    pub none_received : w.received ≡ []
    pub none_answered : w.answered ≡ []
    pub none_dropped : w.dropped ≡ []

  -- A signal wakes `epoll_wait`, or a call of `epoll_ctl`, and the driver of that moment does not
  -- disconnect.
  pub record Woken (json : Option Config) (ac : ℕ) (junk : Set) (act : Action Set) (t : Thread Set)
      (w : World) : Type 0 where
    pub config : Config
    pub device : NbdDriverProxy
    pub driver : NbdDriverProxy
    pub failure : Failure
    pub read : json ≡ some config
    pub drives : driven setting os config ac ≡ done device
    pub leaves : Leaves setting os config device junk act t w driver (epoll_error os.eintr)
    pub stays : disconnect setting.kernel driver ≡ fails failure
