-- ===== src/Cloud/Answer.antt =====
-- What the master makes of a reply.
use greencloud.Base.{
  ℕ, ◌+◌, ◌%◌, ◌^◌, ◌≤◌, ◌<◌, ◌≡◌, refl, [], ◌∷◌, ◌++◌, Bytes, done, length, drop, poke,
  append_assoc, arith, poke_start, append-nil, drop_all, take-append,
}
use greencloud.Base.Int.{ℤ, pos, int32, bits32}
use greencloud.Data.{DriverData, reserve, empty, le-length-reserve}
use greencloud.Data.Keys.{read, write}
use greencloud.Wire.Decimal.{show_int}
use greencloud.Wire.Decimal.RoundTrip.{IsInt, strtoul-show, strtol-show_int}
use greencloud.Wire.Text.{zeros, length-zeros, NoNul}
use greencloud.Slave.Parse.{copy_string-append}
use greencloud.Slave.Reply.{reply_head}
use greencloud.Cloud.Ids.{Ids, id_to_handler}
use greencloud.Cloud.Slaves.{CloudStorage}
use greencloud.Cloud.Slaves.Handshake.{buff_size}
use greencloud.Cloud.Reply.{create_data_from_buff, received}

int32-bits32 : (i : ℤ) → IsInt i → int32 (bits32 i) ≡ i
int32-bits32 (pos n) h = ground arith
int32-bits32 (ℤ.negsuc n) h = ground arith

-- A reply with a head of type `1`: the handle that waits under its number, and the length.
pub create_data-write :
    (junk : ℕ → ℕ) (blank : DriverData) (c : CloudStorage) (len : ℕ) (id : ℤ) (more handler : Bytes)
    (ids : Ids)
    → len < 2 ^ 32
    → IsInt id
    → id_to_handler c.ids id ≡ done (ids, handler)
    → create_data_from_buff junk blank c (reply_head len id b'1' ++ more)
      ≡ done (
        record c { ids = ids },
        record blank { offset = 0; len = len; handler = handler; key = write; buff = empty },
      )
unfolding create_data_from_buff
create_data-write junk blank c len id more handler ids hl hi found =
    let small : len % 2 ^ 32 ≡ len = omega arith in
    rw (append_assoc, append_assoc)
      (rw
        (
          strtoul-show len (b';' ∷ (show_int id ++ b';' ∷ b'1' ∷ b';' ∷ more)) (omega arith) refl,
          strtol-show_int id (b';' ∷ b'1' ∷ b';' ∷ more) hi refl,
          int32-bits32 id hi,
          found,
          small,
        )
        refl)

-- A reply with a head of type `0` and a text: the text stands in the buffer, with its terminator.
pub create_data-read :
    (junk : ℕ → ℕ) (blank : DriverData) (c : CloudStorage) (len : ℕ) (id : ℤ)
    (text more handler : Bytes) (ids : Ids)
    → len < 2 ^ 32
    → IsInt id
    → NoNul text
    → length text ≤ buff_size
    → id_to_handler c.ids id ≡ done (ids, handler)
    → create_data_from_buff junk blank c (reply_head len id b'0' ++ 0 ∷ (text ++ 0 ∷ more))
      ≡ done (
        record c { ids = ids },
        record blank {
          offset = 0;
          len = len;
          handler = handler;
          key = read;
          buff = record {
            size = 0;
            cells = poke (reserve junk (buff_size + 1) empty).cells 0 (text ++ 0 ∷ []);
          };
        },
      )
unfolding create_data_from_buff
create_data-read junk blank c len id text more handler ids hl hi plain fits found =
    let small : len % 2 ^ 32 ≡ len = omega arith in
    let rest : Bytes = b'0' ∷ b';' ∷ 0 ∷ (text ++ 0 ∷ more) in
    rw (append_assoc, append_assoc)
      (rw
        (
          strtoul-show len (b';' ∷ (show_int id ++ b';' ∷ rest)) (omega arith) refl,
          strtol-show_int id (b';' ∷ rest) hi refl,
          int32-bits32 id hi,
          found,
          small,
          copy_string-append (reserve junk (buff_size + 1) empty).cells text more plain
              (omega (arith, le-length-reserve junk (buff_size + 1) empty)),
        )
        refl)

-- The master's buffer is one byte shorter than the slave's, whose last byte is cut off.
pub received_cut : (xs : Bytes) (x : ℕ) → length xs ≡ buff_size → received (xs ++ x ∷ []) ≡ xs
unfolding received
received_cut xs x h =
    rw
      (
        take-append buff_size xs (x ∷ []) h,
        poke_start (zeros buff_size) xs (omega (arith, length-zeros buff_size)),
      )
      (rw drop_zeros (append-nil xs))
  where
    drop_zeros : drop (length xs) (zeros buff_size) ≡ []
    drop_zeros = rw h (drop_all (zeros buff_size) buff_size (omega (arith, length-zeros buff_size)))
