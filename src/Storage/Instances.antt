-- ===== src/Storage/Instances.antt =====
-- `MmapStorage` and `DiskStorage` keep the interface. `MemoryStorage` is stated against it.
use greencloud.Base.{
  ℕ, ◌+◌, ◌-◌, ◌≤◌, Bool, Bytes, [], if◌then◌else◌, append-nil, leb, ap, sym, drop_nil, take_all,
  length-peek, ◌<◌, ◌≡◌, refl, true, false, done, length, peek, poke, le→leb, lt→leb, arith,
  poke-nil,
}
use greencloud.Data.{DriverData, deliver}
use greencloud.Storage.Iface.{BlockStore, InRange, HasPayload, payload, filled}
use greencloud.Storage.Laws.{length-payload}
use greencloud.Storage.Mmap
use greencloud.Storage.Mmap.{MmapStorage}
use greencloud.Storage.Memory
use greencloud.Storage.Memory.{MemoryStorage}
use greencloud.Storage.Disk
use greencloud.Storage.Disk.{DiskStorage}

pub mmap_write_lem :
    (s : MmapStorage) (d : DriverData)
    → InRange (length s.mapping) d
    → HasPayload d
    → (s' : MmapStorage) × (Mmap.write s d ≡ done (s', d))
      × (s'.mapping ≡ poke s.mapping d.offset (payload d))
unfolding Mmap.write
mmap_write_lem s d fits full = (
  record s { mapping = poke s.mapping d.offset (payload d) },
  rw (le→leb _ _ fits, le→leb _ _ full) refl,
  refl,
)

pub mmap_read_lem :
    (junk : ℕ → ℕ) (s : MmapStorage) (d : DriverData)
    → InRange (length s.mapping) d
    → Mmap.read junk s d ≡ done (s, filled junk s.mapping d)
unfolding Mmap.read
mmap_read_lem junk s d fits = rw (le→leb _ _ fits) refl

-- The mapping of a slave is a block of bytes.
abbrev pub mmap_store : BlockStore
mmap_store = record {
  State = MmapStorage;
  bytes = λ s. s.mapping;
  write = Mmap.write;
  read = Mmap.read;
  write_lem = mmap_write_lem;
  read_lem = mmap_read_lem;
}

-- What a `DiskStorage` serves: its file, while the stream is good.
abbrev pub disk_bytes : DiskStorage → Bytes
disk_bytes s = if s.good then s.file else []

-- A write inside the file leaves its length.
put_at-fits :
    (file : Bytes) (off : ℕ) (bs : Bytes)
    → off + length bs ≤ length file
    → Disk.put_at file off bs ≡ poke file off bs
unfolding Disk.put_at
put_at-fits file off bs fits =
    let none_left : off + length bs - length file ≡ 0 = omega arith in
    rw (none_left, append-nil file) refl

pub disk_write_lem :
    (file : Bytes) (good : Bool) (d : DriverData)
    → InRange (length (disk_bytes (record { file = file; good = good }))) d
    → HasPayload d
    → (s' : DiskStorage) × (Disk.write (record { file = file; good = good }) d ≡ done (s', d))
      × (disk_bytes s'
          ≡ poke (disk_bytes (record { file = file; good = good })) d.offset (payload d))
unfolding Disk.write
disk_write_lem file true d fits full =
    let wide = length-payload d full in
    (
      record { file = Disk.put_at file d.offset (payload d); good = true },
      rw (le→leb _ _ full) refl,
      put_at-fits file d.offset (payload d) (omega arith),
    )
disk_write_lem file false d fits full =
    (record { file = file; good = false }, rw (le→leb _ _ full) refl, refl)

peek-nil : (off n : ℕ) → peek [] off n ≡ []
peek-nil off n = rw (drop_nil {A = ℕ} off) (take_all n [] (omega arith))

pub disk_read_lem :
    (junk : ℕ → ℕ) (file : Bytes) (good : Bool) (d : DriverData)
    → InRange (length (disk_bytes (record { file = file; good = good }))) d
    → Disk.read junk (record { file = file; good = good }) d
      ≡ done (
        record { file = file; good = good },
        filled junk (disk_bytes (record { file = file; good = good })) d,
      )
unfolding Disk.read
disk_read_lem junk file true d fits =
    let all : leb d.len (length (peek file d.offset d.len)) ≡ true =
      le→leb _ _ (omega (arith, length-peek file d.offset d.len fits)) in
    rw all refl
disk_read_lem junk file false d fits =
    ap (λ got. done (record { file = file; good = false }, deliver junk got d))
      (sym (peek-nil d.offset d.len))

-- The file of version 0.1.5 is a block of bytes too.
abbrev pub disk_store : BlockStore
disk_store = record {
  State = DiskStorage;
  bytes = disk_bytes;
  write = Disk.write;
  read = Disk.read;
  write_lem = λ s d. disk_write_lem s.file s.good d;
  read_lem = λ junk s d. disk_read_lem junk s.file s.good d;
}

-- `MemoryStorage::Write` copies the vector's elements. The drivers only reserve memory, so the
-- vector has none, and the write puts down nothing.
pub memory_write_lost :
    (s : MemoryStorage) (d : DriverData)
    → InRange (length s.disk) d
    → d.buff.size ≡ 0
    → Memory.write s d ≡ done (s, d)
unfolding Memory.write
memory_write_lost s d fits no_elements =
    rw (no_elements, le→leb (d.offset + 0) (length s.disk) (omega arith), poke-nil s.disk d.offset)
      refl

-- A read of a `DiskStorage` that reaches behind the end of the file fails the stream for good:
-- whatever is written later is dropped.
pub disk_stuck :
    (junk : ℕ → ℕ) (s : DiskStorage) (d w : DriverData)
    → s.good ≡ true
    → length (peek s.file d.offset d.len) < d.len
    → HasPayload w
    → (s' : DiskStorage) × (d' : DriverData) × (Disk.read junk s d ≡ done (s', d'))
      × (s'.file ≡ s.file)
      × (Disk.write s' w ≡ done (s', w))
unfolding Disk.read Disk.write
disk_stuck junk s d w good short full = (
  record s { good = false },
  deliver junk (peek s.file d.offset d.len) d,
  rw (good, lt→leb d.len _ short) refl,
  refl,
  rw (le→leb _ _ full) refl,
)
