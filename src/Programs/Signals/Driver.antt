-- ===== src/Programs/Signals/Driver.antt =====
-- The signals in the driver's own thread, src/nbd_driver_proxy.cpp: `SubThreadSetSignals`, and
-- `ThreadFuncSetNBD` with the calls of Nbd/Device behind it.
use greencloud.Base.{ℕ, ◌&&◌, List, Outcome, done, ◌>>=◌, ◌>>◌, guard, runtime_error}
use greencloud.Nbd.Device.{Kernel, thread_func}
use greencloud.Programs.Signals.{Signals, Thread}

module _ {Set : Type 0} (signals : Signals Set) where
  -- Blocks all signals, on a set that is not initialised. The exception of a failure leaves the
  -- thread, outside the `try`.
  unfoldable pub sub_thread_set_signals : Set → Thread Set → Outcome (Thread Set)
  sub_thread_set_signals junk t =
      let (filled, sigset) = signals.fill_set junk in
      guard (filled && signals.sets_mask) runtime_error >> done (record t { blocked = sigset })

  -- `ThreadFuncSetNBD`, with its calls of `ioctl`. A thread starts with the mask of the one that
  -- starts it.
  unfoldable pub thread_func_set_nbd :
      Kernel → Set → Thread Set → ℕ → ℕ → Outcome (Thread Set × List (ℕ × ℕ))
  unfolding sub_thread_set_signals
  thread_func_set_nbd k junk t file_fd socket_fd = do
    t' ← sub_thread_set_signals junk t
    calls ← thread_func k file_fd socket_fd
    done (t', calls)
