-- ===== src/Programs/Serial/Device.antt =====
-- A block device that serves one request after the other, the specification of the program with a
-- thread for each request (release/greencloud.0.1.5.cpp).
use greencloud.Base.{ℕ, ◌≡◌, refl, List, [], ◌∷◌, Bytes, length, poke, length-poke}
use greencloud.Data.{DriverData, FactoryKey}
use greencloud.Data.Keys
use greencloud.Storage.Iface.{InRange, HasPayload, payload, filled}

-- A block device: a block of bytes, which a read leaves, and a write changes. What it answers to a
-- request, and what the block is then.
abbrev pub answers : (ℕ → ℕ) → FactoryKey → DriverData → Bytes → Bytes × DriverData
answers junk Keys.read d block = (block, filled junk block d)
answers junk Keys.write d block = (poke block d.offset (payload d), d)
answers junk _ d block = (block, d)

-- The block, and the answers, the latest first, behind a list of requests.
abbrev pub device : (ℕ → ℕ) → List DriverData → Bytes × List DriverData → Bytes × List DriverData
device junk [] (block, told) = (block, told)
device junk (d ∷ ds) (block, told) =
    let (block', answer) = answers junk d.key d block in device junk ds (block', answer ∷ told)

-- A request that the device can serve, and that does not end the program.
abbrev pub Serves : ℕ → FactoryKey → DriverData → Type 0
Serves n Keys.read d = InRange n d
Serves n Keys.write d = InRange n d × HasPayload d
Serves n Keys.disconnect d = ⊥
Serves n _ d = Unit

abbrev pub IsServed : ℕ → DriverData → Type 0
IsServed n d = Serves n d.key d

-- The answer to a request of any key leaves the block's size.
pub length-answers :
    (junk : ℕ → ℕ) (k : FactoryKey) (d : DriverData) (block : Bytes)
    → length (answers junk k d block).0 ≡ length block
length-answers junk Keys.write d block = length-poke block d.offset (payload d)
length-answers junk _ d block = refl
