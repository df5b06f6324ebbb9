-- ===== src/Nbd/Tasks.antt =====
-- The tasks of the master, include/nbd_tasks.hpp and include/stdin_tasks.hpp. `NBDRead` and
-- `NBDWrite` only send the request to a slave: the reply comes back as a task of its own.
use greencloud.Base.{ℕ, Bool, List, Bytes, Outcome, done, ◌>>=◌}
use greencloud.Data.{DriverData}
use greencloud.Cloud.Slaves.{CloudStorage}
use greencloud.Cloud.Slaves.Handshake.{SlaveData}
use greencloud.Cloud.Send.{Packet}
use greencloud.Cloud.Send as Send
use greencloud.Nbd.Stream.{Accepts}
use greencloud.Nbd.Driver.{Protocol, send_reply}
use greencloud.Nbd.Device.{Kernel, NbdDriverProxy}
use greencloud.Nbd.Device as Device

-- `NBDRead::Execute` and `NBDWrite::Execute`.
unfoldable pub execute_read :
    Bool → SlaveData → CloudStorage → DriverData → Outcome (CloudStorage × Packet)
execute_read sent default c d = Send.read sent default c d

unfoldable pub execute_write :
    Bool → SlaveData → CloudStorage → DriverData → Outcome (CloudStorage × Packet)
execute_write sent default c d = Send.write sent default c d

-- `Execute` of `NBDFlush`, `NBDTrim`, `NBDReplay` and `NBDBadRequest`.
unfoldable pub execute_reply : Protocol → Accepts → DriverData → Outcome (Bytes × Accepts)
execute_reply nbd ws d = send_reply nbd ws d

-- `NBDDisconnect::Execute`: the slaves are told first.
unfoldable pub execute_disconnect :
    (SlaveData → Bool)
    → Kernel
    → CloudStorage
    → NbdDriverProxy
    → Outcome (List Packet × NbdDriverProxy × List ℕ)
execute_disconnect sent k c p = do
  packets ← Send.disconnect sent c
  (p', closed) ← Device.disconnect k p
  done (packets, p', closed)

-- `STDINExit::Execute`.
unfoldable pub execute_exit : Kernel → NbdDriverProxy → Outcome (NbdDriverProxy × List ℕ)
execute_exit k p = Device.disconnect k p
