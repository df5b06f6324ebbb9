-- ===== src/Slave/Tasks.antt =====
-- The tasks of a slave, include/slave_tasks.hpp, over any storage that keeps the interface. A task
-- ends with the reply that its driver sends.
use greencloud.Base.{ℕ, Bytes, Outcome, done, ◌>>=◌}
use greencloud.Data.{DriverData}
use greencloud.Storage.Iface.{BlockStore}
use greencloud.Slave.Proxy.{SlaveDriverProxy, send_reply, disconnect}

module _ (store : BlockStore) where
  open store use {State, write, read}

  -- `SlaveWrite::Execute`.
  unfoldable pub execute_write : State → DriverData → Outcome (State × Bytes)
  execute_write s d = do (s', d') ← write s d; reply ← send_reply d'; done (s', reply)

  -- `SlaveRead::Execute`.
  unfoldable pub execute_read : (ℕ → ℕ) → State → DriverData → Outcome (State × Bytes)
  execute_read junk s d = do (s', d') ← read junk s d; reply ← send_reply d'; done (s', reply)

-- `SlaveDisconnect::Execute`.
unfoldable pub execute_disconnect : SlaveDriverProxy → SlaveDriverProxy
execute_disconnect p = disconnect p
