-- ===== src/Cloud/Send.antt =====
-- `CloudStorage::Write`, `Read` and `Disconnect`: the datagram that a request becomes.
use greencloud.Base.{
  ℕ, ◌+◌, Bool, List, [], ◌∷◌, ◌++◌, Bytes, codes, Outcome, done, ◌>>=◌, ◌>>◌, guard, undefined,
  exits, length, take, leb, poke,
}
use greencloud.Base.Int.{ℤ}
use greencloud.Data.{DriverData}
use greencloud.Wire.Decimal.{show, show_int}
use greencloud.Wire.Text.{zeros, put, split_string}
use greencloud.Cloud.Ids.{handler_to_id}
use greencloud.Cloud.Slaves.{Offset, CloudStorage, get_slave_data}
use greencloud.Cloud.Slaves.Handshake.{SlaveData, buff_size}

pub record Packet : Type 0 where
  pub socket : ℕ
  pub to : ℕ
  pub datagram : Bytes

-- The text of `"%lu;%u;%d;%c;"`.
abbrev pub header : ℕ → ℕ → ℤ → ℕ → Bytes
header off len id type =
    show off ++ b';' ∷ (show len ++ b';' ∷ (show_int id ++ b';' ∷ type ∷ b';' ∷ []))

-- `sprintf` into the zeroed buffer, and for a write the payload behind the terminator.
unfoldable pub message : Bytes → Bytes → Outcome Bytes
message text payload = do
  buf ← put (zeros buff_size) 0 (text ++ 0 ∷ [])
  (text', _) ← split_string buf
  put buf (length text' + 1) payload

-- `sendto`, whose failure ends the process.
abbrev pub send : Bool → CloudStorage → SlaveData → Bytes → Outcome (CloudStorage × Packet)
send sent c s datagram = do
  guard sent (exits 1)
  done (c, record { socket = s.socket; to = s.cliaddr; datagram = datagram })

-- A fresh number for the handle of the request, with the storage that remembers it.
abbrev pub number_request : CloudStorage → Bytes → Outcome (CloudStorage × ℤ)
number_request c h = do (ids, id) ← handler_to_id c.ids h; done (record c { ids = ids }, id)

unfoldable pub write :
    Bool → SlaveData → CloudStorage → DriverData → Outcome (CloudStorage × Packet)
write sent default c d =
    let (c₁, s) = get_slave_data default c d.offset in
    do
      (c₂, id) ← number_request c₁ d.handler
      guard (leb d.len (length d.buff.cells)) undefined
      datagram ← message (header d.offset d.len id b'1') (take d.len d.buff.cells)
      send sent c₂ s datagram

unfoldable pub read : Bool → SlaveData → CloudStorage → DriverData → Outcome (CloudStorage × Packet)
read sent default c d =
    let (c₁, s) = get_slave_data default c d.offset in
    do
      (c₂, id) ← number_request c₁ d.handler
      datagram ← put (zeros buff_size) 0 (header d.offset d.len id b'0' ++ 0 ∷ [])
      send sent c₂ s datagram

-- `Disconnect` sends its text to every slave in the map, up to the first failure.
unfoldable pub farewells : (SlaveData → Bool) → List (Offset × SlaveData) → Outcome (List Packet)
farewells sent [] = done []
farewells sent ((k, s) ∷ m) = do
  guard (sent s) (exits 1)
  packets ← farewells sent m
  done (
      record {
        socket = s.socket;
        to = s.cliaddr;
        datagram = poke (zeros buff_size) 0 (codes "0;0;0;2;");
      }
      ∷ packets)

unfoldable pub disconnect : (SlaveData → Bool) → CloudStorage → Outcome (List Packet)
disconnect sent c = farewells sent c.slaves
