-- ===== src/Storage/Tests.antt =====
-- The theorems on storages at concrete inputs, and runs of their operations.
use greencloud.Storage.Mapped.{create-last_written}
use greencloud.Storage.Mmap.{init_mmap}
use greencloud.Storage.Mmap as Mmap
use greencloud.Base.{
  ℕ, ◌≡◌, refl, [], ◌∷◌, List, Bytes, done, fails, undefined, length, get_elem?, arith,
}
use greencloud.Base.Int.{pos}
use greencloud.Data.{DriverData}
use greencloud.Data.Keys
use greencloud.Storage.Mmap.{MmapStorage}
use greencloud.Storage.Mmap
use greencloud.Storage.Instances.{mmap_store}
use greencloud.Storage.Laws.{write_all, last_written}

abbrev request : ℕ → ℕ → Bytes → DriverData
request off len cells = record {
  offset = off;
  req_id = pos 1;
  handler = [];
  len = len;
  key = Keys.write;
  status = 0;
  buff = record { size = 0; cells = cells };
}

abbrev slave : MmapStorage
slave = record { size = 6; mapping = 1 ∷ 2 ∷ 3 ∷ 4 ∷ 5 ∷ 6 ∷ [] }

abbrev history : List DriverData
history = request 2 2 (8 ∷ 9 ∷ []) ∷ request 3 2 (7 ∷ 7 ∷ []) ∷ []

create-last_written_example :
    (s' : MmapStorage) × (write_all mmap_store (Mmap.create (1 ∷ 2 ∷ []) 6) history ≡ done s')
    × (length s'.mapping ≡ 6)
    × ((i : ℕ)
        → get_elem? s'.mapping i ≡ last_written history i (get_elem? (init_mmap (1 ∷ 2 ∷ []) 6) i))
create-last_written_example = create-last_written (1 ∷ 2 ∷ []) 6 history (omega arith)

-- The mapping of a new file is all zeros, and a write past its end is undefined.
create_runs : (Mmap.create [] 3).mapping ≡ 0 ∷ 0 ∷ 0 ∷ []
unfolding Mmap.create
create_runs = refl

write_outside : Mmap.write slave (request 5 2 (8 ∷ 9 ∷ [])) ≡ fails undefined
unfolding Mmap.write
write_outside = refl
