-- ===== src/Programs/Arguments.antt =====
-- The arguments of release/greencloud.0.1.cpp and release/greencloud.0.1.5.cpp: the `switch` on
-- their number.
use greencloud.Base.{ℕ, ◌*◌, ◌%◌, ◌^◌, List, [], ◌∷◌, Bytes, Option, none, some, Outcome}
use greencloud.Nbd.Device.{Kernel, NbdDriverProxy, create, create_for}

-- The sizes that are asked for: one of the storage, or a block's and how many blocks.
pub data Plan : Type 0 where
  by_size : ℕ → Plan
  by_blocks : ℕ → ℕ → Plan

-- What the arguments come to: a plan, an exception of `std::stoull`, which is no
-- `std::runtime_error`, or the text on the usage.
pub data Parsed : Type 0 where
  asks : Plan → Parsed
  throws : Parsed
  usage : Parsed

-- `std::stoull` gives a number below 2^64, or throws.
unfoldable pub parse : (Bytes → Option ℕ) → List Bytes → Parsed
parse stoull (program ∷ size ∷ device ∷ []) = elim (stoull size) [
  | none ↦ throws
  | some n ↦ asks (by_size ((n * 1048576) % 2 ^ 64))
]
parse stoull (program ∷ blk_size ∷ num_of_blocks ∷ device ∷ []) = elim (stoull blk_size) [
  | none ↦ throws
  | some b ↦ elim (stoull num_of_blocks) [ none ↦ throws | some n ↦ asks (by_blocks b n) ]
]
parse stoull _ = usage

-- The constructor of the driver that is called, with its calls of `ioctl`.
unfoldable pub make_driver : Kernel → Plan → Outcome (NbdDriverProxy × List (ℕ × ℕ))
make_driver kernel (by_size size) = create_for kernel size
make_driver kernel (by_blocks blk_size num_of_blocks) = create kernel blk_size num_of_blocks

-- The size that the storage is made with.
abbrev pub storage_size : Plan → ℕ
storage_size (by_size size) = size
storage_size (by_blocks blk_size num_of_blocks) = (blk_size * num_of_blocks) % 2 ^ 64
