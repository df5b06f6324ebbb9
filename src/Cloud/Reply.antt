-- ===== src/Cloud/Reply.antt =====
-- `SlaveGateway` of src/slave_gateway.cpp: what the master makes of a slave's reply.
use greencloud.Base.{
  ℕ, ◌+◌, ◌%◌, ◌^◌, [], ◌∷◌, Bytes, Option, none, some, Outcome, done, fails, ◌>>=◌, undefined,
  exits, take, drop, poke, if◌then◌else◌,
}
use greencloud.Base.Int.{int32, bits32}
use greencloud.Data.{DriverData, FactoryKey, of_digit, is_read, reserve, empty}
use greencloud.Data.Keys.{replay}
use greencloud.Wire.Decimal.{strtoul, strtol}
use greencloud.Wire.Text.{zeros}
use greencloud.Slave.Proxy.{copy_string}
use greencloud.Cloud.Ids.{id_to_handler}
use greencloud.Cloud.Slaves.{CloudStorage}
use greencloud.Cloud.Slaves.Handshake.{buff_size}

-- `*p`.
abbrev pub first : Bytes → Outcome ℕ
first [] = fails undefined
first (c ∷ s) = done c

-- `CreateDataFromBuff`. The fields that it does not set, the status among them, keep what `new`
-- left there, `blank`.
unfoldable pub create_data_from_buff :
    (ℕ → ℕ) → DriverData → CloudStorage → Bytes → Outcome (CloudStorage × DriverData)
create_data_from_buff junk blank c src =
    let (len, r₁) = strtoul src in
    let (id, r₂) = strtol (drop 1 r₁) in
    do
      (ids, handler) ← id_to_handler c.ids (int32 (bits32 id))
      char ← first (drop 1 r₂)
      let key = of_digit char
      let ret = record blank {
        offset = 0;
        len = len % 2 ^ 32;
        handler = handler;
        key = key;
        buff = empty;
      }
      if is_read key
          then (do
            cells ← copy_string (reserve junk (buff_size + 1) empty).cells (drop 4 r₂)
            done (record c { ids = ids }, record ret { buff = record { size = 0; cells = cells } }))
          else done (record c { ids = ids }, ret)

-- What `recvfrom` leaves in the zeroed buffer.
unfoldable pub received : Bytes → Bytes
received datagram = poke (zeros buff_size) 0 (take buff_size datagram)

-- `SlaveGateway::Read`: a failed `recvfrom` ends the process; the key is `REPLAY` for every reply.
unfoldable pub gateway_read :
    (ℕ → ℕ)
    → DriverData
    → CloudStorage
    → Option Bytes
    → Outcome (CloudStorage × (FactoryKey × DriverData))
gateway_read junk blank c none = fails (exits 1)
gateway_read junk blank c (some datagram) = do
  (c', d) ← create_data_from_buff junk blank c (received datagram)
  done (c', (replay, d))
