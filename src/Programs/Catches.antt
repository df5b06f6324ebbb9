-- ===== src/Programs/Catches.antt =====
-- How a process of release/ ends: the `catch` clauses of `main`, which the releases 0.1 to 0.5 have
-- in common.
use greencloud.Base.{
  ℕ, Failure, done, fails, undefined, exits, bad_key, epoll_error, hangs, if◌then◌else◌, ◌==◌,
}
use greencloud.Nbd.Device.{Kernel, NbdDriverProxy, disconnect}

-- How a process ends: by a status, by an exception that nothing catches, by undefined behaviour, or
-- not.
pub data Ending : Type 0 where
  exits_with : ℕ → Ending
  aborts : Ending
  breaks : Ending
  waits : Ending

-- The `catch` clauses on what leaves the `try` before there is a driver, with the number EINTR: then
-- `Disconnect` is called on a null pointer.
unfoldable pub early : ℕ → Failure → Ending
early eintr (epoll_error errno) = if errno == eintr then breaks else exits_with 0
early eintr undefined = breaks
early eintr hangs = waits
early eintr (exits n) = exits_with n
early eintr bad_key = aborts
early eintr _ = exits_with 2

-- With what the kernel answers, and the number EINTR.
module _ (kernel : Kernel) (eintr : ℕ) where
  -- An exception that no clause catches, or that one throws.
  unfoldable pub uncaught : Failure → Ending
  uncaught undefined = breaks
  uncaught hangs = waits
  uncaught (exits n) = exits_with n
  uncaught _ = aborts

  -- The `catch` clauses on what leaves the `try`. `EpollError` is caught whatever its number; the
  -- classes below `std::runtime_error` are caught behind it, and `Badkey` is none of them.
  unfoldable pub ending : NbdDriverProxy → Failure → Ending
  ending driver (epoll_error errno) =
      if errno == eintr
      then (elim (disconnect kernel driver) [ done _ ↦ exits_with 0 | fails x ↦ uncaught x ])
      else exits_with 0
  ending driver undefined = breaks
  ending driver hangs = waits
  ending driver (exits n) = exits_with n
  ending driver bad_key = aborts
  ending driver _ = exits_with 2
