-- ===== src/Cloud/Slaves.antt =====
-- The slaves of a `CloudStorage`: `SlaveData` and its handshake, `Offset`, and the map `m_slaves`
-- (include/cloud_storage.hpp, src/cloud_storage.cpp).
pub mod Handshake
pub mod Collapse
pub mod Hello
pub mod Stale
use greencloud.Base.{
  ℕ, zero, suc, ◌+◌, ◌*◌, ◌%◌, Bool, true, false, List, [], ◌∷◌, Outcome, done, fails, ◌>>=◌,
  undefined, if◌then◌else◌,
}
use Handshake.{Peer, SlaveData, slave_data}
use greencloud.Cloud.Ids.{Ids, initial}

pub record Offset : Type 0 where
  pub offset : ℕ

-- `Offset::operator==` ignores both values, and `std::hash<Offset>` is always 0.
abbrev pub offset_eq : Offset → Offset → Bool
offset_eq a b = true

-- `std::unordered_map<Offset, SlaveData>`: `m[k] = v`, and `m[k]` read, which inserts a default
-- value where there is none.
unfoldable pub assign : Offset → SlaveData → List (Offset × SlaveData) → List (Offset × SlaveData)
assign k v [] = (k, v) ∷ []
assign k v ((j, w) ∷ m) = if offset_eq j k then (j, v) ∷ m else (j, w) ∷ assign k v m

unfoldable pub index :
    SlaveData → Offset → List (Offset × SlaveData) → SlaveData × List (Offset × SlaveData)
index default k [] = (default, (k, default) ∷ [])
index default k ((j, w) ∷ m) =
    let (v, rest) = index default k m in
    if offset_eq j k then (w, (j, w) ∷ m) else (v, (j, w) ∷ rest)

pub record CloudStorage : Type 0 where
  pub slaves : List (Offset × SlaveData)
  pub ids : Ids
  pub num_of_slaves : ℕ
  pub storage_size : ℕ

-- `htons` keeps 16 bits of the port.
unfoldable pub add_slave : (ℕ → Peer) → CloudStorage → Offset → ℕ → Outcome CloudStorage
unfolding assign
add_slave net c k port =
    slave_data (net (port % 65536)) >>= λ s. done (record c { slaves = assign k s c.slaves })

-- `for (size_t i = 1; (i - 1) < num_of_slaves; ++i)`, by the rounds left.
unfoldable pub add_slaves : (ℕ → Peer) → ℕ → ℕ → CloudStorage → Outcome CloudStorage
add_slaves net zero i c = done c
add_slaves net (suc left) i c =
    add_slave net c (record { offset = 0 }) (6666 * i) >>= λ c'. add_slaves net left (i + 1) c'

unfoldable pub create : (ℕ → Peer) → ℕ → ℕ → Outcome CloudStorage
unfolding add_slaves
create net n size =
    add_slaves net n 1
      (record { slaves = []; ids = initial; num_of_slaves = n; storage_size = size })

unfoldable pub get_slave_data : SlaveData → CloudStorage → ℕ → CloudStorage × SlaveData
unfolding index
get_slave_data default c off =
    let (s, slaves) = index default (record { offset = off }) c.slaves in
    (record c { slaves = slaves }, s)

-- The iterator is advanced once for each slave that was asked for, and read before each advance.
unfoldable pub walk_fds : ℕ → List (Offset × SlaveData) → Outcome (List ℕ)
walk_fds zero m = done []
walk_fds (suc n) [] = fails undefined
walk_fds (suc n) ((k, s) ∷ m) = walk_fds n m >>= λ fds. done (s.socket ∷ fds)

unfoldable pub get_all_fds : CloudStorage → Outcome (List ℕ)
unfolding walk_fds
get_all_fds c = walk_fds c.num_of_slaves c.slaves

unfoldable pub get_size : CloudStorage → ℕ
get_size c = c.storage_size
