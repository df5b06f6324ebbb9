-- ===== src/Data/Requests.antt =====
-- `DriverData` of include/driver_data.hpp.
use greencloud.Base.{ℕ, Bytes, poke}
use greencloud.Base.Int.{ℤ}
use greencloud.Data.Buffers.{Vector, reserve}
use greencloud.Data.Keys.{FactoryKey}

-- `HANDLE_SIZE`: the handle is 8 raw bytes, which may hold zeros.
abbrev pub handle_size : ℕ
handle_size = 8

-- The handler has `handle_size` bytes.
pub record DriverData : Type 0 where
  pub offset : ℕ  -- size_t
  pub req_id : ℤ
  pub handler : Bytes
  pub len : ℕ  -- unsigned int
  pub key : FactoryKey
  pub status : ℕ  -- the bits of an int
  pub buff : Vector

-- The request with bytes put into the memory that its vector has reserved for `m_len` of them.
abbrev pub deliver : (ℕ → ℕ) → Bytes → DriverData → DriverData
deliver junk got d =
    let buff = reserve junk d.len d.buff in
    record d { buff = record buff { cells = poke buff.cells 0 got } }
