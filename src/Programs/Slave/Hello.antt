-- ===== src/Programs/Slave/Hello.antt =====
-- The first datagram of a slave and the handshake of the master.
use greencloud.Base.{
  ℕ, ◌≤◌, ◌≡◌, refl, ap, ◌∙◌, true, List, [], ◌∷◌, ◌++◌, Bytes, Option, some, done, arith, length,
  take, take_all, take-append, Option-cases, Bool-cases, inl, inr, ◌==◌,
}
use greencloud.Base.Int.{pos}
use greencloud.Data.{DriverData, reserve, fresh}
use greencloud.Data.Keys
use greencloud.Wire.Decimal.{show_int}
use greencloud.Wire.Text.{zeros, put, zeros-suc, length-zeros, zeros-add}
use greencloud.Cloud.Slaves.Handshake.{magic, buff_size, await, slave_data}
use greencloud.Cloud.Slaves.Hello.{presentation, slave_data-presentation, magic-NoNul}
use greencloud.Storage.Iface.{BlockStore}
use greencloud.Slave.Proxy.{send_reply}
use greencloud.Slave.Reply.{send_reply-text}
use greencloud.Engine.Loop.{add_gate_way, add_task}
use greencloud.Programs.Slave.{World, Engine, Setting, hello, add_tasks, new_engine, set_up}

-- The datagram that presents a slave.
abbrev pub greeting : Bytes
greeting = b'0' ∷ b';' ∷ b'0' ∷ b';' ∷ b'0' ∷ b';' ∷ []

-- The data of the first reply.
abbrev pub introduction : DriverData → DriverData
introduction blank = record blank {
  buff = record { size = 0; cells = magic ++ 0 ∷ [] };
  len = 0;
  req_id = pos 0;
  key = Keys.read;
}

pub hello_lem : (junk : ℕ → ℕ) (blank : DriverData) → hello junk blank ≡ done (introduction blank)
unfolding hello put reserve fresh
hello_lem junk blank = refl

-- What `SendReply` hands to `sendto` then: one byte more than the master's buffer holds.
pub greeting_lem :
    (blank : DriverData)
    → send_reply (introduction blank) ≡ done (greeting ++ 0 ∷ (magic ++ zeros 4093))
unfolding show_int
greeting_lem blank =
    send_reply-text (introduction blank) magic [] refl (omega arith) refl magic-NoNul (omega arith)

-- The buffer of the master cuts its last zero.
cut : take buff_size (greeting ++ 0 ∷ (magic ++ zeros 4093)) ≡ presentation greeting (zeros 4091)
cut =
    let split : zeros 4093 ≡ zeros 4092 ++ zeros 1 = zeros-add 4092 1 4093 refl in
    let front : Bytes = greeting ++ 0 ∷ (magic ++ zeros 4092) in
    let size : length front ≡ buff_size = omega (arith, length-zeros 4092) in
    rw split (
      take-append buff_size front (zeros 1) size
      ∙ ap (λ z. greeting ++ 0 ∷ (magic ++ z)) (zeros-suc 4091))

fits : length (presentation greeting (zeros 4091)) ≤ buff_size
fits = omega (arith, length-zeros 4091)

-- A datagram counts by what fits the buffer.
slave_data-take :
    (fd from : ℕ) (datagram shown : Bytes) (rest : List (Option (Bytes × ℕ)))
    → take buff_size datagram ≡ shown
    → length shown ≤ buff_size
    → slave_data
        (record { socket = some fd; binds = true; arrivals = some (datagram, from) ∷ rest })
      ≡ slave_data (record { socket = some fd; binds = true; arrivals = some (shown, from) ∷ rest })
unfolding slave_data await
slave_data-take fd from datagram shown rest same small =
    rw (same, take_all buff_size shown small) refl

module _ (store : BlockStore) (setting : Setting) where
  -- When a slave is set up, it has sent one datagram, and a master that waits with its socket bound
  -- takes the sender of that datagram for its slave, whatever comes after.
  pub set_up-slave_data :
      (errno : ℕ) (w : World store) (e : Engine store)
      → set_up store setting errno w ≡ done e
      → (text : Bytes) × (e.world.sent ≡ text ∷ w.sent)
        × ((fd from : ℕ) (rest : List (Option (Bytes × ℕ)))
            → slave_data
                (record { socket = some fd; binds = true; arrivals = some (text, from) ∷ rest })
              ≡ done (record { socket = fd; cliaddr = from }))
  unfolding set_up add_gate_way add_tasks new_engine add_task
  set_up-slave_data errno w e up = (
    greeting ++ 0 ∷ (magic ++ zeros 4093),
    elim (Option-cases w.proxy.socket) [
      | inl closed ↦ absurd (ground arith)
      | inr (fd, bound) ↦ elim (Bool-cases (errno == 0)) [
        | inr bad ↦ absurd (ground arith)
        | inl fine ↦
            let now =
              rw (bound, fine, hello_lem setting.junk setting.blank, greeting_lem setting.blank) at
                up in
            ground arith
      ]
    ],
    λ fd from rest.
        slave_data-take fd from (greeting ++ 0 ∷ (magic ++ zeros 4093))
          (presentation greeting (zeros 4091)) rest cut fits
        ∙ slave_data-presentation fd from greeting (zeros 4091) rest (omega arith) fits,
  )
