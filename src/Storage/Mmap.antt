-- ===== src/Storage/Mmap.antt =====
-- src/mmap_storage.cpp: the storage of a slave, a file mapped into memory.
use greencloud.Base.{
  ℕ, ◌+◌, Bytes, Outcome, done, ◌>>◌, guard, undefined, length, take, peek, poke, leb, replicate,
  ◌-◌, ◌++◌, [], ◌∷◌,
}
use greencloud.Data.{DriverData, deliver}

-- `MmapStorage`: `mapping` is the memory behind `m_mmap`. The mapping is taken to end at `m_size`;
-- the rest of its last page is not counted.
pub record MmapStorage : Type 0 where
  pub size : ℕ
  pub mapping : Bytes

-- `InitMmap` on a file that holds the given bytes: the file grows to `size + 2` bytes, a hole reads
-- as zeros, and the first `size` bytes are mapped.
unfoldable pub init_mmap : Bytes → ℕ → Bytes
init_mmap file size =
    let grown = file ++ replicate (size + 2 - length file) 0 in
    take size (poke grown (size + 1) (0 ∷ []))

unfoldable pub create : Bytes → ℕ → MmapStorage
unfolding init_mmap
create file size = record { size = size; mapping = init_mmap file size }

-- `memcpy` from the vector's memory into the mapping.
unfoldable pub write : MmapStorage → DriverData → Outcome (MmapStorage × DriverData)
write s d = do
  guard (leb (d.offset + d.len) (length s.mapping)) undefined
  guard (leb d.len (length d.buff.cells)) undefined
  done (record s { mapping = poke s.mapping d.offset (take d.len d.buff.cells) }, d)

-- `memcpy` from the mapping into the reserved memory of the vector.
unfoldable pub read : (ℕ → ℕ) → MmapStorage → DriverData → Outcome (MmapStorage × DriverData)
read junk s d = do
  guard (leb (d.offset + d.len) (length s.mapping)) undefined
  done (s, deliver junk (peek s.mapping d.offset d.len) d)

unfoldable pub get_size : MmapStorage → ℕ
get_size s = s.size

-- `Disconnect` has an empty body.
unfoldable pub disconnect : MmapStorage → MmapStorage
disconnect s = s
