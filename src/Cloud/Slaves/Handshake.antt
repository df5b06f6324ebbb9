-- ===== src/Cloud/Slaves/Handshake.antt =====
-- The constructor of `SlaveData`, which waits on a port for a slave to present itself.
use greencloud.Base.{
  ℕ, ◌+◌, Bool, false, List, [], ◌∷◌, Bytes, codes, Option, none, some, Outcome, done, fails, ◌>>=◌,
  ◌>>◌, guard, undefined, exits, hangs, or_fail, length, take, drop, poke, ◌==◌, if◌then◌else◌,
}
use greencloud.Wire.Text.{zeros, split_string}

abbrev pub buff_size : ℕ
buff_size = 4136

-- `MAGIC_STR` of include/globals.hpp.
abbrev pub magic : Bytes
magic = codes "Yoav's Master - I surrender to you..."

-- What the network does at one port: the result of `socket`, whether `bind` succeeds, and what each
-- `recvfrom` delivers, a datagram with its sender or an error.
pub record Peer : Type 0 where
  pub socket : Option ℕ
  pub binds : Bool
  pub arrivals : List (Option (Bytes × ℕ))

pub record SlaveData : Type 0 where
  pub socket : ℕ
  pub cliaddr : ℕ

-- `!strcmp(p, text)`, for a text with no zero byte.
unfoldable pub c_equal : Bytes → Bytes → Outcome Bool
c_equal [] text = fails undefined
c_equal (c ∷ s) [] = done (c == 0)
c_equal (c ∷ s) (t ∷ text) = if c == t then c_equal s text else done false

-- The `do` loop. `runner` is set before the loop only, so each round goes on from where the round
-- before left it, over a buffer that a new datagram has overwritten from its start.
unfoldable pub await : Bytes → ℕ → List (Option (Bytes × ℕ)) → Outcome ℕ
await buff runner [] = fails hangs
await buff runner (none ∷ rest) = fails (exits 1)
await buff runner (some (datagram, from) ∷ rest) =
    let now = poke buff 0 (take buff_size datagram) in
    split_string (drop runner now) >>= λ p. c_equal p.1 magic >>= λ is_magic.
    if is_magic then done from else await now (runner + length p.0 + 1) rest

unfoldable pub slave_data : Peer → Outcome SlaveData
slave_data peer = do
  fd ← or_fail peer.socket (exits 1)
  guard peer.binds (exits 1)
  from ← await (zeros buff_size) 0 peer.arrivals
  done (record { socket = fd; cliaddr = from })

-- `SlaveData::Disconnect`: the descriptor that it closes. Nothing calls it.
unfoldable pub disconnect : SlaveData → List ℕ
disconnect s = s.socket ∷ []
