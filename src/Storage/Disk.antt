-- ===== src/Storage/Disk.antt =====
-- src/disk_storage.cpp: a storage on a `std::fstream`.
use greencloud.Base.{
  ℕ, ◌+◌, Bool, Bytes, Outcome, done, ◌>>◌, guard, undefined, length, take, peek, poke, leb,
  replicate, ◌-◌, ◌++◌, [], ◌∷◌, if◌then◌else◌,
}
use greencloud.Data.{DriverData, deliver}

-- The bytes of the file, and whether the stream is still good: an input that ends early sets the
-- fail bit, nothing in the class clears it, and a stream that has failed does nothing.
pub record DiskStorage : Type 0 where
  pub file : Bytes
  pub good : Bool

-- `seekp` and `write` on a file: a gap reads as zeros.
unfoldable pub put_at : Bytes → ℕ → Bytes → Bytes
put_at file off bs = poke (file ++ replicate (off + length bs - length file) 0) off bs

-- The constructor truncates the file and writes one zero byte at `size`. If the file does not open
-- or `seekp` fails, which nothing tests, the stream has failed and nothing is written.
unfoldable pub create : Bool → ℕ → DiskStorage
unfolding put_at
create opened size = record { file = if opened then put_at [] size (0 ∷ []) else []; good = opened }

unfoldable pub write : DiskStorage → DriverData → Outcome (DiskStorage × DriverData)
unfolding put_at
write s d = do
  guard (leb d.len (length d.buff.cells)) undefined
  done (
    if s.good then record s { file = put_at s.file d.offset (take d.len d.buff.cells) } else s,
    d,
  )

-- `read` delivers what there is, and fails the stream if that is less than `m_len` bytes.
unfoldable pub read : (ℕ → ℕ) → DiskStorage → DriverData → Outcome (DiskStorage × DriverData)
read junk s d =
    let got = peek s.file d.offset d.len in
    done (
      if s.good
      then (record s { good = leb d.len (length got) }, deliver junk got d)
      else (s, deliver junk [] d))
