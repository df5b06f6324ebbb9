-- ===== src/Storage/Iface.antt =====
-- include/storage.hpp: the interface `Storage`, with the contract that the slave's tasks rely on.
use greencloud.Base.{ℕ, ◌+◌, ◌≤◌, ◌≡◌, Bytes, Outcome, done, length, take, peek, poke}
use greencloud.Data.{DriverData, deliver}

-- The request lies inside a block of `n` bytes, and brings the bytes that it wants written.
abbrev pub InRange : ℕ → DriverData → Type 0
InRange n d = d.offset + d.len ≤ n

abbrev pub HasPayload : DriverData → Type 0
HasPayload d = d.len ≤ length d.buff.cells

-- The bytes that a write of the request puts down.
abbrev pub payload : DriverData → Bytes
payload d = take d.len d.buff.cells

-- The request with the bytes that a read of it delivers.
abbrev pub filled : (ℕ → ℕ) → Bytes → DriverData → DriverData
filled junk block d = deliver junk (peek block d.offset d.len) d

-- `bytes` is the abstract view: one block of bytes. The junk is what the allocator hands out.
pub record BlockStore : Type 1 where
  pub State : Type 0
  pub bytes : State → Bytes
  pub write : State → DriverData → Outcome (State × DriverData)
  pub read : (ℕ → ℕ) → State → DriverData → Outcome (State × DriverData)
  pub write_lem :
      (s : State) (d : DriverData)
      → InRange (length (bytes s)) d
      → HasPayload d
      → (s' : State) × (write s d ≡ done (s', d)) × (bytes s' ≡ poke (bytes s) d.offset (payload d))
  pub read_lem :
      (junk : ℕ → ℕ) (s : State) (d : DriverData)
      → InRange (length (bytes s)) d
      → read junk s d ≡ done (s, filled junk (bytes s) d)
