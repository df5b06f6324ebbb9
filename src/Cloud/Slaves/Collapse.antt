-- ===== src/Cloud/Slaves/Collapse.antt =====
-- What the map of slaves comes to, since all its keys are equal.
use greencloud.Cloud.Ids.{initial}
use greencloud.Base.{
  ℕ, zero, suc, ◌+◌, ◌*◌, ◌%◌, ◌≤◌, ◌≡◌, refl, [], ◌∷◌, done, fails, ◌>>=◌, undefined, arith, ◌==◌,
  if◌then◌else◌, subst, sym,
}
use greencloud.Cloud.Slaves.Handshake.{Peer, SlaveData, slave_data}
use greencloud.Cloud.Slaves.{
  Offset, CloudStorage, add_slave, add_slaves, create, get_slave_data, get_all_fds,
}

abbrev origin : Offset
origin = record { offset = 0 }

-- The slaves that answer at the ports of the rounds up to `n`, the first one's being 1.
abbrev pub Answers : (ℕ → Peer) → (ℕ → SlaveData) → ℕ → Type 0
Answers net peer n = (i : ℕ) → 1 ≤ i → i ≤ n → slave_data (net ((6666 * i) % 65536)) ≡ done (peer i)

-- The storage with a single slave in its map.
abbrev pub holding : CloudStorage → SlaveData → CloudStorage
holding c s = record c { slaves = (origin, s) ∷ [] }

abbrev pub empty_cloud : ℕ → ℕ → CloudStorage
empty_cloud n size = record { slaves = []; ids = initial; num_of_slaves = n; storage_size = size }

module _ (net : ℕ → Peer) (peer : ℕ → SlaveData) where
  -- Each further slave takes the place of the one before.
  add_slaves-holding :
      (left i k : ℕ) (c : CloudStorage)
      → Answers net peer (k + left)
      → k + 1 ≡ i
      → add_slaves net left i (holding c (peer k)) ≡ done (holding c (peer (k + left)))
  unfolding add_slaves add_slave
  add_slaves-holding zero i k c answers e = let same : k + 0 ≡ k = omega arith in rw same
  add_slaves-holding (suc left) i k c answers e =
      let here : k + suc left ≡ i + left = omega arith in
      let others = rw here at answers in
      rw here (
        rw (answers i (omega arith) (omega arith))
          (add_slaves-holding left (i + 1) i c others refl))

  -- A storage that was made for one or more slaves holds the last alone.
  create-holding :
      (m size : ℕ)
      → Answers net peer (suc m)
      → create net (suc m) size ≡ done (holding (empty_cloud (suc m) size) (peer (suc m)))
  unfolding create add_slave
  create-holding m size answers =
      let made = empty_cloud (suc m) size in
      let last : 1 + m ≡ suc m = omega arith in
      rw (answers 1 (omega arith) (omega arith)) (
        subst (λ k. add_slaves net m 2 (holding made (peer 1)) ≡ done (holding made (peer k))) last
          (add_slaves-holding m 2 1 made (subst (Answers net peer) (sym last) answers) refl))

  -- If the slave of each round up to the last presents itself at the port of its round, 6666 times
  -- the round modulo 65536, then a storage that was made for one or more slaves sends the request
  -- for every offset to the slave that was added last.
  pub create-get_slave_data :
      (m size off : ℕ) (default : SlaveData)
      → Answers net peer (suc m)
      → (create net (suc m) size >>= λ c. done (get_slave_data default c off).1)
        ≡ done (peer (suc m))
  unfolding get_slave_data
  create-get_slave_data m size off default answers = rw (create-holding m size answers) refl

  -- If the slaves present themselves, listing the sockets works for a single one. For two or more the loop runs past the end of
  -- the map, which has one entry.
  pub create-get_all_fds :
      (m size : ℕ)
      → Answers net peer (suc m)
      → (create net (suc m) size >>= get_all_fds)
        ≡ (if m == 0 then done ((peer 1).socket ∷ []) else fails undefined)
  unfolding get_all_fds
  create-get_all_fds zero size answers = rw (create-holding 0 size answers) refl
  create-get_all_fds (suc m) size answers = rw (create-holding (suc m) size answers) (ground arith)
