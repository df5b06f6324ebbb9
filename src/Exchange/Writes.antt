-- ===== src/Exchange/Writes.antt =====
-- A write that comes back.
use greencloud.Base.{
  ℕ, ◌+◌, ◌-◌, ◌≤◌, ◌≡◌, refl, ◌∙◌, [], ◌∷◌, ◌++◌, Bytes, done, length, poke, append_assoc, arith,
  length-append, List,
}
use greencloud.Base.Int.{ℤ, pos}
use greencloud.Data.{DriverData, empty}
use greencloud.Data.Keys
use greencloud.Storage.Iface.{BlockStore, InRange, HasPayload, payload}
use greencloud.Wire.Decimal.{show, show_int}
use greencloud.Wire.Decimal.Shape.{length-show-le, length-show_int-le}
use greencloud.Wire.Text.{zeros, zeros-add, length-zeros, NoNul}
use greencloud.Slave.Proxy.{SlaveDriverProxy, buff_size}
use greencloud.Slave.Reply.{reply_head, room, send_reply-head}
use greencloud.Slave.Tasks.{execute_write}
use greencloud.Cloud.Ids.{take_id, id_to_handler}
use greencloud.Cloud.Slaves.{CloudStorage}
use greencloud.Cloud.Reply.{received, gateway_read}
use greencloud.Cloud.Transfer.{
  Sendable, number, after_write, delivered, write_block, receive-delivered, payload-delivered,
  delivered-HasPayload,
}
use greencloud.Cloud.Answer.{create_data-write, received_cut}
use greencloud.Exchange.{Setting, write_exchange}

pub length-reply_head :
    (len : ℕ) (id : ℤ) (type : ℕ)
    → length (reply_head len id type) ≡ length (show len) + length (show_int id) + 4
length-reply_head len id type = omega (
  arith,
  length-append (show len) (b';' ∷ (show_int id ++ b';' ∷ type ∷ b';' ∷ [])),
  length-append (show_int id) (b';' ∷ type ∷ b';' ∷ []),
)

-- What the master's gateway reads of a reply with no text.
received-head :
    (len : ℕ) (id : ℤ)
    → length (show len) + length (show_int id) + 5 ≤ buff_size
    → received (reply_head len id b'1' ++ zeros (room len id))
      ≡ reply_head len id b'1' ++ zeros (room len id - 1)
unfolding zeros
received-head len id fits =
    let shut = reply_head len id b'1' ++ zeros (room len id - 1) in
    rw (zeros-add (room len id - 1) 1 (room len id) (omega arith), ← append_assoc)
      (received_cut shut 0 (
        omega (
          arith,
          length-reply_head len id b'1',
          length-append (reply_head len id b'1') (zeros (room len id - 1)),
          length-zeros (room len id - 1),
        )))

-- The number that was handed out last is found at once, and the table is as it was before.
pub take_last :
    (n : ℕ) (h : Bytes) (table : List (ℤ × Bytes))
    → id_to_handler (record { last = n; table = (pos n, h) ∷ table }) (pos n)
      ≡ done (record { last = n; table = table }, h)
unfolding id_to_handler take_id
take_last n h table = ground arith

module _ (store : BlockStore) (setting : Setting) where
  open store use {State, bytes, write_lem}

  -- What the master holds after the exchange: the table of waiting requests as before, one number
  -- spent.
  abbrev pub spent : CloudStorage → DriverData → CloudStorage
  spent c d = record (after_write setting.default c d) {
    ids = record { last = number setting.default c d; table = c.ids.table };
  }

  -- A write of at most 4096 bytes with no zero byte among them, inside the slave's storage, whose
  -- offset and length fit their types and for which a number is free, runs to its end: the slave's
  -- storage is the old one with the bytes put at the offset, and the task that answers the block
  -- device is a `REPLAY` with the handle and the length of the request, as a write. The master's
  -- table of waiting requests is as it was. The status of the answer is what the allocation of the
  -- master's `DriverData` left in it: no code sets it.
  pub write_exchange_lem :
      (c : CloudStorage) (p : SlaveDriverProxy) (s : State) (d : DriverData)
      → Sendable c d
      → d.len ≤ 4096
      → NoNul (payload d)
      → InRange (length (bytes s)) d
      → (s' : State) × (bytes s' ≡ poke (bytes s) d.offset (payload d))
        × (write_exchange store setting c p s d
            ≡ done (record {
              cloud = spent c d;
              proxy = record p { servaddr = setting.from };
              store = s';
              key = Keys.replay;
              reply = record (setting.master_blank) {
                offset = 0;
                len = d.len;
                handler = d.handler;
                key = Keys.write;
                buff = empty;
              };
            }))
  unfolding write_exchange execute_write gateway_read
  write_exchange_lem c p s d ok small plain inside =
      let n = number setting.default c d in
      let d₁ = delivered setting.default c d setting.slave_junk setting.slave_blank in
      let same : payload d₁ ≡ payload d =
        payload-delivered setting.default c d setting.slave_junk setting.slave_blank ok.full
          (omega arith) in
      let has : HasPayload d₁ =
        delivered-HasPayload setting.default c d setting.slave_junk setting.slave_blank
          (omega arith) in
      let (s₁, wrote, now) = write_lem s d₁ inside has in
      let short : length (show d.len) + length (show_int (pos n)) + 5 ≤ buff_size = omega (
        arith,
        length-show-le 10 d.len (omega arith) (omega (arith, ok.len_fits)),
        length-show_int-le (pos n) ok.room,
      ) in
      (
        s₁,
        now ∙ rw same,
        rw
            (
              (write_block setting.default c d ok small).0,
              receive-delivered setting.default c d setting.slave_junk setting.slave_blank p
                  setting.from ok small plain,
              wrote,
              send_reply-head d₁ refl short,
              received-head d.len (pos n) short,
              create_data-write setting.master_junk setting.master_blank
                  (after_write setting.default c d) d.len (pos n) (zeros (room d.len (pos n) - 1))
                  d.handler (record { last = n; table = c.ids.table }) ok.len_fits ok.room
                  (take_last n d.handler c.ids.table),
            )
            refl,
      )
