-- ===== src/Engine/Gateways.antt =====
-- The gateways that stop the engine: src/driver_proxy_gateway.cpp and src/stdin_gateway.cpp.
use greencloud.Base.{
  ℕ, ◌≡◌, ◌↔◌, Bool, true, false, [], ◌∷◌, Bytes, Option, none, some, Outcome, done, fails, ◌>>=◌,
  runtime_error, Outcome-cases, inl, inr, if◌then◌else◌, ◌==◌, arith,
}
use greencloud.Data.{DriverData, FactoryKey, is_disconnect}
use greencloud.Data.Keys

-- What a gateway hands to a task: a null pointer, or a `TaskInfo`, whose data may be missing. The
-- driver and the storage in it are those of the gateway.
pub data TaskInfo : Type 0 where
  null : TaskInfo
  info : Option DriverData → TaskInfo

-- `DriverProxyGateWay::Read` over the `ReceiveRequest` of any driver.
unfoldable pub read_driver {ℓ} :
    {Driver : Type ℓ}
    → (Driver → Outcome (Driver × DriverData))
    → Driver
    → Outcome (Driver × Bool × FactoryKey × TaskInfo)
read_driver receive_request driver = do
  (driver', d) ← receive_request driver
  done (driver', is_disconnect d.key, d.key, TaskInfo.info (some d))

-- `StdinGateWay::Read` on what `read` brings: an error, or bytes. The buffer is not initialised:
-- when nothing comes its first byte is any.
unfoldable pub read_stdin : ℕ → Option Bytes → Outcome (Bool × FactoryKey × TaskInfo)
read_stdin junk none = fails runtime_error
read_stdin junk (some []) =
    if junk == 113
    then done (true, Keys.q_exit, TaskInfo.info none)
    else done (false, Keys.ignore, TaskInfo.null)
read_stdin junk (some (c ∷ cs)) =
    if c == 113
    then done (true, Keys.q_exit, TaskInfo.info none)
    else done (false, Keys.ignore, TaskInfo.null)

-- A request stops the engine exactly when it is a disconnect, and its task is the one of its key.
read_driver-stops :
    {Driver : Type 0} (receive_request : Driver → Outcome (Driver × DriverData))
    (driver driver' : Driver) (stops : Bool) (key : FactoryKey) (given : TaskInfo)
    → read_driver receive_request driver ≡ done (driver', stops, key, given)
    → (d : DriverData) × (receive_request driver ≡ done (driver', d))
      × (key ≡ d.key)
      × (given ≡ TaskInfo.info (some d))
      × ((stops ≡ true) ↔ (is_disconnect key ≡ true))
unfolding read_driver
read_driver-stops receive_request driver driver' stops key given eq =
    elim (Outcome-cases (receive_request driver)) [
      | inl ((next, d), came) ↦ (d, ground arith, ground arith, ground arith, ground arith)
      | inr (f, failed) ↦ absurd (ground arith)
    ]
