-- ===== src/Storage/Memory.antt =====
-- src/memory_storage.cpp: a storage on the heap.
use greencloud.Base.{
  ℕ, ◌+◌, Bytes, Outcome, done, ◌>>◌, guard, undefined, length, take, peek, poke, leb, replicate,
}
use greencloud.Data.{DriverData, deliver}

pub record MemoryStorage : Type 0 where
  pub disk : Bytes

-- `m_disk(size)`: all zeros.
unfoldable pub create : ℕ → MemoryStorage
create size = record { disk = replicate size 0 }

-- `std::copy` of the elements of the vector, `begin()` to `end()`: `m_size` of them, not `m_len`.
unfoldable pub write : MemoryStorage → DriverData → Outcome (MemoryStorage × DriverData)
write s d = do
  guard (leb (d.offset + d.buff.size) (length s.disk)) undefined
  done (record s { disk = poke s.disk d.offset (take d.buff.size d.buff.cells) }, d)

-- `std::copy` of the range to `begin()` of the vector, whose memory has been reserved.
unfoldable pub read : (ℕ → ℕ) → MemoryStorage → DriverData → Outcome (MemoryStorage × DriverData)
read junk s d = do
  guard (leb (d.len + d.offset) (length s.disk)) undefined
  done (s, deliver junk (peek s.disk d.offset d.len) d)
