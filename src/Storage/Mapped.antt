-- ===== src/Storage/Mapped.antt =====
-- The mapped storage of a slave from its construction on.
use greencloud.Base.{
  ℕ, ◌+◌, ◌-◌, ◌≡◌, List, [], ◌∷◌, ◌++◌, Bytes, done, length, poke, replicate, All, get_elem?,
  length-take, length-poke, length-append, length-replicate, arith, ◌∙◌,
}
use greencloud.Data.{DriverData}
use greencloud.Storage.Iface.{InRange, HasPayload}
use greencloud.Storage.Mmap.{MmapStorage, init_mmap, create}
use greencloud.Storage.Instances.{mmap_store}
use greencloud.Storage.Laws.{last_written, write_all, write_all-last_written}

length-init_mmap : (file : Bytes) (size : ℕ) → length (init_mmap file size) ≡ size
unfolding init_mmap
length-init_mmap file size =
    let zeros : Bytes = replicate (size + 2 - length file) 0 in
    let grown : Bytes = file ++ zeros in
    omega (
      arith,
      length-take size (poke grown (size + 1) (0 ∷ [])),
      length-poke grown (size + 1) (0 ∷ []),
      length-append file zeros,
      length-replicate {A = ℕ} (size + 2 - length file) 0,
    )

-- A `MmapStorage` made over a file takes any history of writes inside its size, and then holds at
-- each index the byte of the last write that reaches it, or that of the file as it was mapped.
pub create-last_written :
    (file : Bytes) (size : ℕ) (ds : List DriverData)
    → All (λ d. InRange size d × HasPayload d) ds
    → (s' : MmapStorage) × (write_all mmap_store (create file size) ds ≡ done s')
      × (length s'.mapping ≡ size)
      × ((i : ℕ) → get_elem? s'.mapping i ≡ last_written ds i (get_elem? (init_mmap file size) i))
unfolding create
create-last_written file size ds fits =
    let whole = length-init_mmap file size in
    let (s', ran, same, at) =
      write_all-last_written mmap_store (create file size) ds (rw whole fits) in
    (s', ran, same ∙ whole, at)
