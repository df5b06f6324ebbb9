-- ===== src/Storage/Laws.antt =====
-- What holds of every storage that keeps the interface.
use greencloud.Base.{
  ℕ, ◌+◌, ◌-◌, ◌≤◌, ◌≡◌, refl, ◌⊎◌, inl, inr, Bytes, List, [], ◌∷◌, Option, Outcome, done, ◌>>=◌,
  length, length-take, get_elem?, peek, poke, leb, ltb, ◌&&◌, if◌then◌else◌, arith, peek-poke_self,
  peek-poke_before, peek-poke_after, length-poke, length-peek, get_elem?-poke, All, ◌∙◌,
}
use greencloud.Data.{DriverData, reserve, le-length-reserve}
use greencloud.Storage.Iface.{BlockStore, InRange, HasPayload, payload, filled}

pub length-payload : (d : DriverData) → HasPayload d → length (payload d) ≡ d.len
length-payload d h = omega (arith, length-take d.len d.buff.cells)

-- What a read delivers is the range that it names.
pub payload-filled :
    (junk : ℕ → ℕ) (block : Bytes) (d : DriverData)
    → InRange (length block) d
    → payload (filled junk block d) ≡ peek block d.offset d.len
payload-filled junk block d h =
    peek-poke_self (reserve junk d.len d.buff).cells 0 d.len (peek block d.offset d.len)
      (length-peek block d.offset d.len h) (omega (arith, le-length-reserve junk d.len d.buff))

-- Two requests whose ranges do not meet.
abbrev pub Apart : DriverData → DriverData → Type 0
Apart d r = (d.offset + d.len ≤ r.offset) ⊎ (r.offset + r.len ≤ d.offset)

-- The byte at an index that a write puts down, if it reaches there.
abbrev pub covers : DriverData → ℕ → Option ℕ → Option ℕ
covers d i old =
    if leb d.offset i && ltb i (d.offset + d.len) then get_elem? (payload d) (i - d.offset) else old

-- The specification of a history of writes: each byte is the one of the last write that reaches it.
abbrev pub last_written : List DriverData → ℕ → Option ℕ → Option ℕ
last_written [] i old = old
last_written (d ∷ ds) i old = last_written ds i (covers d i old)

module _ (store : BlockStore) where
  open store use {State, bytes, write, read, write_lem, read_lem}

  pub write_read : (ℕ → ℕ) → State → DriverData → DriverData → Outcome (State × DriverData)
  write_read junk s d r = write s d >>= λ p. read junk p.0 r

  -- A range that was written is read back as it was written.
  pub read-write :
      (junk : ℕ → ℕ) (s : State) (d r : DriverData)
      → InRange (length (bytes s)) d
      → HasPayload d
      → r.offset ≡ d.offset
      → r.len ≡ d.len
      → (s' : State) × (r' : DriverData) × (write_read junk s d r ≡ done (s', r'))
        × (payload r' ≡ payload d)
  unfolding write_read
  read-write junk s d r fits full same_offset same_len =
      let (s', wrote, now) = write_lem s d fits full in
      let kept : length (bytes s') ≡ length (bytes s) =
        rw now (length-poke (bytes s) d.offset (payload d)) in
      let fits' : InRange (length (bytes s')) r = omega arith in
      (
        s',
        filled junk (bytes s') r,
        rw wrote (read_lem junk s' r fits'),
        payload-filled junk (bytes s') r fits'
            ∙ rw (now, same_offset, same_len)
                (peek-poke_self (bytes s) d.offset d.len (payload d) (length-payload d full) fits),
      )

  -- A write is not seen by a read of a range that it does not meet.
  pub read-write-Apart :
      (junk : ℕ → ℕ) (s : State) (d r : DriverData)
      → InRange (length (bytes s)) d
      → HasPayload d
      → InRange (length (bytes s)) r
      → Apart d r
      → (s' : State) × (r' : DriverData) × (write_read junk s d r ≡ done (s', r'))
        × (payload r' ≡ peek (bytes s) r.offset r.len)
  unfolding write_read
  read-write-Apart junk s d r fits full inside apart =
      let (s', wrote, now) = write_lem s d fits full in
      let kept : length (bytes s') ≡ length (bytes s) =
        rw now (length-poke (bytes s) d.offset (payload d)) in
      let fits' : InRange (length (bytes s')) r = omega arith in
      (
        s',
        filled junk (bytes s') r,
        rw wrote (read_lem junk s' r fits'),
        payload-filled junk (bytes s') r fits' ∙ rw now (unseen apart),
      )
    where
      unseen :
          Apart d r
          → peek (poke (bytes s) d.offset (payload d)) r.offset r.len
            ≡ peek (bytes s) r.offset r.len
      unseen (inl before) =
          peek-poke_after (bytes s) d.offset r.offset r.len (payload d)
            (omega (arith, length-payload d full))
      unseen (inr after) = peek-poke_before (bytes s) d.offset r.offset r.len (payload d) after

  pub write_all : State → List DriverData → Outcome State
  write_all s [] = done s
  write_all s (d ∷ ds) = write s d >>= λ p. write_all p.0 ds

  -- A history of writes inside the block succeeds, and leaves at each index the byte of the last
  -- write that reaches it.
  pub write_all-last_written :
      (s : State) (ds : List DriverData)
      → All (λ d. InRange (length (bytes s)) d × HasPayload d) ds
      → (s' : State) × (write_all s ds ≡ done s')
        × (length (bytes s') ≡ length (bytes s))
        × ((i : ℕ) → get_elem? (bytes s') i ≡ last_written ds i (get_elem? (bytes s) i))
  unfolding write_all
  write_all-last_written s [] h = (s, refl, refl, λ i. refl)
  write_all-last_written s (d ∷ ds) ((fits, full), rest) =
      let (s₁, wrote, now) = write_lem s d fits full in
      let kept : length (bytes s₁) ≡ length (bytes s) =
        rw now (length-poke (bytes s) d.offset (payload d)) in
      let (s', runs, same, at) = write_all-last_written s₁ ds (rw kept rest) in
      let reach : d.offset + length (payload d) ≤ length (bytes s) =
        omega (arith, length-payload d full) in
      (
        s',
        rw wrote runs,
        same ∙ kept,
        λ i.
            at i
            ∙ rw (now, get_elem?-poke (bytes s) d.offset (payload d) i reach, length-payload d full)
                refl,
      )
