-- ===== src/Cloud/Slaves/Hello.antt =====
-- The handshake: what the master accepts, and what it never accepts again.
use greencloud.Base.{
  ℕ, ◌-◌, ◌≤◌, ◌≡◌, refl, true, some, List, [], ◌∷◌, ◌++◌, Bytes, Option, done, length,
  append_assoc, arith, take_all,
}
use greencloud.Wire.Text.{zeros, poke-zeros, NoNul, split_string-append}
use greencloud.Cloud.Slaves.Handshake.{buff_size, magic, c_equal, await, slave_data}

-- A datagram with a text and behind its terminator the magic string.
abbrev pub presentation : Bytes → Bytes → Bytes
presentation text more = text ++ 0 ∷ (magic ++ 0 ∷ more)

c_equal_self : (text more : Bytes) → NoNul text → c_equal (text ++ 0 ∷ more) text ≡ done true
unfolding c_equal
c_equal_self [] more h = refl
c_equal_self (c ∷ text) more (hc, h) = ground (arith, c_equal_self text more h)

pub magic-NoNul : NoNul magic
magic-NoNul = omega arith

-- The first datagram to come, if it has a text and the magic string behind the text, makes its
-- sender the slave.
pub slave_data-presentation :
    (fd from : ℕ) (text more : Bytes) (rest : List (Option (Bytes × ℕ)))
    → NoNul text
    → length (presentation text more) ≤ buff_size
    → slave_data (record {
      socket = some fd;
      binds = true;
      arrivals = some (presentation text more, from) ∷ rest;
    })
      ≡ done (record { socket = fd; cliaddr = from })
unfolding slave_data await
slave_data-presentation fd from text more rest plain fits =
    let left = zeros (buff_size - length (presentation text more)) in
    rw
      (
        take_all buff_size (presentation text more) fits,
        poke-zeros [] (presentation text more) 0 buff_size refl fits,
      )
      (simp append_assoc (
        rw
          (
            split_string-append text (magic ++ 0 ∷ (more ++ left)) plain,
            c_equal_self magic (more ++ left) magic-NoNul,
          )
          refl))
