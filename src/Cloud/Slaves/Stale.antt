-- ===== src/Cloud/Slaves/Stale.antt =====
-- After a refused datagram the master never accepts a slave that presents itself as slaves do.
use greencloud.Base.{
  ℕ, zero, suc, ◌+◌, ◌-◌, ◌≤◌, ◌≡◌, ◌≢◌, refl, ◌∙◌, false, some, List, [], ◌∷◌, ◌++◌, Bytes, codes,
  Option, done, fails, undefined, length, replicate, take, drop, poke, arith, take_all, poke_start,
  drop_all, drop-append_ge, append-nil, inl, inr, ◌⊎◌, true, Outcome-cases,
}
use greencloud.Wire.Text.{
  zeros, length-zeros, zeros-suc, drop-zeros, NoNul, split_string, split_string-append,
}
use greencloud.Cloud.Slaves.Handshake.{buff_size, magic, SlaveData, c_equal, await, slave_data}
use greencloud.Cloud.Slaves.Hello.{presentation, magic-NoNul}

-- The datagram with which a slave presents itself, as the master receives it: the header of
-- `SendReply` for an empty read, the magic string, and zeros to the end of the buffer.
abbrev pub hello : Bytes
hello = presentation (codes "0;0;0;") (zeros 4091)

length-hello : length hello ≡ buff_size
length-hello = omega (arith, length-zeros 4091)

-- A datagram as long as the buffer takes the place of all that was in it.
poke-whole :
    (buff datagram : Bytes)
    → length buff ≡ buff_size
    → length datagram ≡ buff_size
    → poke buff 0 (take buff_size datagram) ≡ datagram
poke-whole buff datagram size whole = rw (take_all buff_size datagram (omega arith)) (
    rw (poke_start buff datagram (omega arith))
      (rw (drop_all buff (length datagram) (omega arith)) (append-nil datagram)))

-- Behind the magic string there are only zeros.
drop-hello : (r : ℕ) → 44 ≤ r → drop r hello ≡ zeros (buff_size - r)
drop-hello r h =
    let e : 4092 - (r - 44) ≡ buff_size - r = omega arith in
    drop-append_ge r (codes "0;0;0;" ++ 0 ∷ magic) (0 ∷ zeros 4091) (omega arith)
    ∙ rw (← zeros-suc 4091) (rw (drop-zeros (r - 44) 4092, e) refl)

-- A string of zeros is empty, and what follows is not the magic string.
split_string-zeros :
    (m : ℕ)
    → (split_string (zeros m) ≡ fails undefined)
      ⊎ ((k : ℕ) × (m ≡ suc k) × (split_string (zeros m) ≡ done ([], zeros k)))
unfolding split_string zeros
split_string-zeros zero = inl refl
split_string-zeros (suc k) = inr (k, refl, refl)

c_equal-zeros :
    (k : ℕ) → (c_equal (zeros k) magic ≡ fails undefined) ⊎ (c_equal (zeros k) magic ≡ done false)
unfolding c_equal zeros
c_equal-zeros zero = inl refl
c_equal-zeros (suc k) = inr refl

module _ (from : ℕ) where
  abbrev pub hellos : ℕ → List (Option (Bytes × ℕ))
  hellos n = replicate n (some (hello, from))

  -- Behind the magic string no later presentation is accepted.
  await-hellos :
      (n r a : ℕ) (buff : Bytes)
      → length buff ≡ buff_size
      → 44 ≤ r
      → await buff r (hellos n) ≢ done a
  unfolding await
  await-hellos zero r a buff size h e = cc
  await-hellos (suc n) r a buff size h e =
      let now = rw (poke-whole buff hello size length-hello, drop-hello r h) at e in
      elim (split_string-zeros (buff_size - r)) [
        | inl over ↦ let stop = rw over at now in cc
        | inr (k, _, empty) ↦ elim (c_equal-zeros k) [
          | inl over ↦ let stop = rw (empty, over) at now in cc
          | inr differs ↦
              let later = rw (empty, differs) at now in
              await-hellos n (r + 0 + 1) a hello length-hello (omega arith) later
        ]
      ]

  -- From behind a text of six characters the magic string is skipped as the text is.
  await-seven :
      (n a : ℕ) (buff : Bytes) → length buff ≡ buff_size → await buff 7 (hellos n) ≢ done a
  unfolding await
  await-seven zero a buff size e = cc
  await-seven (suc n) a buff size e =
      let now =
        rw
          (
            poke-whole buff hello size length-hello,
            split_string-append magic (zeros 4091) magic-NoNul,
          )
          at e in
      elim (c_equal-zeros 4091) [
        | inl over ↦ let stop = rw over at now in cc
        | inr differs ↦
            let later = rw differs at now in
            await-hellos n (7 + length magic + 1) a hello length-hello (omega arith) later
      ]

  -- Let a first datagram fill the buffer of 4136 bytes exactly, its text be six characters with no
  -- zero byte, as long as that of a presentation, and what stands behind the zero of the text be
  -- compared with the magic string without leaving it and differ, so that it is refused. Then no
  -- number of presentations makes a slave known: the position in the buffer is never set back.
  pub slave_data-stale :
      (fd sender n : ℕ) (text other : Bytes) (s : SlaveData)
      → NoNul text
      → length text ≡ 6
      → length (text ++ 0 ∷ other) ≡ buff_size
      → c_equal other magic ≡ done false
      → slave_data (record {
        socket = some fd;
        binds = true;
        arrivals = some (text ++ 0 ∷ other, sender) ∷ hellos n;
      })
        ≢ done s
  unfolding slave_data await
  slave_data-stale fd sender n text other s plain size whole differs e =
      let now =
        rw
          (
            poke-whole (zeros buff_size) (text ++ 0 ∷ other) (length-zeros buff_size) whole,
            split_string-append text other plain,
            differs,
            size,
          )
          at e in
      elim (Outcome-cases (await (text ++ 0 ∷ other) 7 (hellos n))) [
        | inl (a, accepted) ↦ await-seven n a (text ++ 0 ∷ other) whole accepted
        | inr (f, failed) ↦ let stop = rw failed at now in cc
      ]
