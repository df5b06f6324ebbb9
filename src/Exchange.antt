-- ===== src/Exchange.antt =====
-- One request from the block device's side to the slave's storage and back, composed as the tasks
-- compose it: `NBDWrite` or `NBDRead` calls `CloudStorage::Write` or `Read`, the slave's
-- `DriverProxyGateWay` calls `SlaveDriverProxy::ReceiveRequest`, the factory makes a `SlaveWrite`
-- or `SlaveRead` of it, and the master's `SlaveGateway::Read` takes the reply.
pub mod Writes
pub mod Reads
pub mod Served
pub mod Device
mod Tests
use greencloud.Base.{ℕ, true, some, Outcome, done, ◌>>=◌}
use greencloud.Data.{DriverData, FactoryKey}
use greencloud.Storage.Iface.{BlockStore}
use greencloud.Slave.Proxy.{SlaveDriverProxy, receive_request}
use greencloud.Slave.Tasks.{execute_write, execute_read}
use greencloud.Cloud.Slaves.{CloudStorage}
use greencloud.Cloud.Slaves.Handshake.{SlaveData}
use greencloud.Cloud.Send.{write, read}
use greencloud.Cloud.Reply.{gateway_read}

-- What the two machines bring along: the memory that their allocators hand out, the contents of a
-- new `DriverData`, a default `SlaveData`, and the address from which the slave hears the master.
pub record Setting : Type 0 where
  pub slave_junk : ℕ → ℕ
  pub slave_blank : DriverData
  pub master_junk : ℕ → ℕ
  pub master_blank : DriverData
  pub default : SlaveData
  pub from : ℕ

-- What is left when the reply is in: the master's storage, the slave's driver, its storage, the key
-- and the data of the task that answers the block device.
pub record Answered (S : Type 0) : Type 0 where
  pub cloud : CloudStorage
  pub proxy : SlaveDriverProxy
  pub store : S
  pub key : FactoryKey
  pub reply : DriverData

module _ (store : BlockStore) (setting : Setting) where
  open store use {State}

  unfoldable pub write_exchange :
      CloudStorage → SlaveDriverProxy → State → DriverData → Outcome (Answered State)
  write_exchange c p s d = do
    (c₁, packet) ← write true setting.default c d
    (p₁, request) ←
        receive_request setting.slave_junk setting.slave_blank p
          (some (packet.datagram, setting.from))
    (s₁, datagram) ← execute_write store s request
    (c₂, (key, reply)) ← gateway_read setting.master_junk setting.master_blank c₁ (some datagram)
    done (record { cloud = c₂; proxy = p₁; store = s₁; key = key; reply = reply })

  unfoldable pub read_exchange :
      CloudStorage → SlaveDriverProxy → State → DriverData → Outcome (Answered State)
  read_exchange c p s d = do
    (c₁, packet) ← read true setting.default c d
    (p₁, request) ←
        receive_request setting.slave_junk setting.slave_blank p
          (some (packet.datagram, setting.from))
    (s₁, datagram) ← execute_read store setting.slave_junk s request
    (c₂, (key, reply)) ← gateway_read setting.master_junk setting.master_blank c₁ (some datagram)
    done (record { cloud = c₂; proxy = p₁; store = s₁; key = key; reply = reply })
