-- ===== src/Cloud/Transfer.antt =====
-- A write request on its way from the master to the slave.
use greencloud.Wire.Decimal.Shape.{length-show-pos, length-show_int-pos}
use greencloud.Base.{
  ℕ, ◌+◌, ◌-◌, ◌^◌, ◌≤◌, ◌<◌, ◌≡◌, refl, ◌∙◌, sym, true, [], ◌∷◌, ◌++◌, Bytes, done, fails,
  undefined, length, poke, append_assoc, le→leb, arith, lt→ltb, take_all, take-append, poke_start,
  some, length-append, suc, length-poke,
}
use greencloud.Base.Int.{pos}
use greencloud.Data.{DriverData, reserve, empty, le-length-reserve}
use greencloud.Data.Keys
use greencloud.Storage.Iface.{HasPayload, payload}
use greencloud.Storage.Laws.{length-payload}
use greencloud.Wire.Decimal.{show, show_int}
use greencloud.Wire.Text.{zeros, zeros-add, zeros-suc, poke-zeros, NoNul}
use greencloud.Slave.Proxy.{SlaveDriverProxy, received, receive_request}
use greencloud.Slave.Parse.{parse_request-write}
use greencloud.Cloud.Ids.{handler_to_id}
use greencloud.Cloud.Slaves.{CloudStorage, get_slave_data}
use greencloud.Cloud.Slaves.Handshake.{SlaveData, buff_size}
use greencloud.Cloud.Send.{Packet, header, write}
use greencloud.Cloud.Deliver.{
  framed, header-NoNul, length-header, length-header-le, message_lem, message_overflow,
  length-framed,
}

-- What the master can send: a 64-bit offset, a request that brings its bytes, a free number.
pub record Sendable (c : CloudStorage) (d : DriverData) : Type 0 where
  pub offset_fits : d.offset < 2 ^ 64
  pub len_fits : d.len < 2 ^ 32
  pub full : HasPayload d
  pub room : c.ids.last + 1 < 2 ^ 31

-- The buffer has one zero behind the datagram.
zeros-after : (k : ℕ) → zeros k ++ zeros 1 ≡ 0 ∷ zeros k
zeros-after k = sym (zeros-add k 1 (suc k) (omega arith)) ∙ zeros-suc k

module _ (default : SlaveData) (c : CloudStorage) (d : DriverData) where
  abbrev pub number : ℕ
  number = c.ids.last + 1

  abbrev pub title : Bytes
  title = header d.offset d.len (pos number) b'1'

  -- The storage that remembers the handle, and the datagram for the slave.
  abbrev pub after_write : CloudStorage
  after_write = record (get_slave_data default c d.offset).0 {
    ids = record { last = number; table = (pos number, d.handler) ∷ c.ids.table };
  }

  abbrev pub write_packet : Packet
  write_packet = record {
    socket = (get_slave_data default c d.offset).1.socket;
    to = (get_slave_data default c d.offset).1.cliaddr;
    datagram = framed title (payload d);
  }

  write_lem :
      Sendable c d
      → length title + 1 + d.len ≤ buff_size
      → write true default c d ≡ done (after_write, write_packet)
  unfolding write handler_to_id get_slave_data
  write_lem ok fits =
      rw
        (
          lt→ltb number (2 ^ 31) ok.room,
          le→leb d.len (length d.buff.cells) ok.full,
          message_lem title (payload d)
              (header-NoNul d.offset d.len (pos number) b'1' (omega arith))
              (omega (arith, length-payload d ok.full)),
        )
        refl

  block-fits : Sendable c d → d.len ≤ 4096 → length title + 1 + d.len ≤ buff_size
  block-fits ok small = omega (
    arith,
    length-header-le d.offset d.len number 4 ok.offset_fits (omega arith) (omega arith) ok.room,
  )

  -- A request of at most 4096 bytes that brings them, whose offset and length fit their types and
  -- for which a number is free, always fits the datagram, and is sent if `sendto` succeeds.
  pub write_block :
      Sendable c d
      → d.len ≤ 4096
      → (write true default c d ≡ done (after_write, write_packet))
        × (length write_packet.datagram ≡ buff_size)
  write_block ok small =
      let fits = block-fits ok small in
      (write_lem ok fits, length-framed title (payload d) (omega (arith, length-payload d ok.full)))

  -- A request of 4128 bytes or more that brings them, whose offset and length fit their types and
  -- for which a number is free, is copied past the end of the buffer.
  pub write_overflow : Sendable c d → 4128 ≤ d.len → write true default c d ≡ fails undefined
  unfolding write handler_to_id get_slave_data
  write_overflow ok large =
      rw
        (
          lt→ltb number (2 ^ 31) ok.room,
          le→leb d.len (length d.buff.cells) ok.full,
          message_overflow title (payload d)
              (header-NoNul d.offset d.len (pos number) b'1' (omega arith))
              (omega (
                arith,
                length-header-le d.offset d.len number 10 ok.offset_fits (omega arith)
                    (omega (arith, ok.len_fits)) ok.room,
              ))
              (omega (
                arith,
                length-payload d ok.full,
                length-header d.offset d.len (pos number) b'1',
                length-show-pos d.offset,
                length-show-pos d.len,
                length-show_int-pos (pos number),
              )),
        )
        refl

  -- What the slave parses: the text of the request, its payload, and zeros.
  received-framed :
      (from : ℕ)
      → length title + 1 + d.len ≤ buff_size
      → HasPayload d
      → received (some (framed title (payload d), from))
        ≡ show d.offset
          ++ b';'
            ∷ (show d.len
                ++ b';'
                  ∷ (show_int (pos number)
                      ++ b';'
                        ∷ b'1'
                        ∷ b';'
                        ∷ 0
                        ∷ (payload d
                            ++ 0 ∷ zeros (buff_size - (length title + 1) - length (payload d)))))
  unfolding received
  received-framed from fits full =
      let size = length-payload d full in
      let whole : length (framed title (payload d)) ≡ buff_size =
        length-framed title (payload d) (omega arith) in
      rw (take_all buff_size (framed title (payload d)) (omega arith)) (
        poke-zeros [] (framed title (payload d)) 0 4137 refl (omega arith)
        ∙ rw whole (simp (append_assoc, zeros-after)))

  -- The request as the slave has it.
  abbrev pub delivered : (ℕ → ℕ) → DriverData → DriverData
  delivered junk blank = record blank {
    offset = d.offset;
    len = d.len;
    req_id = pos number;
    key = Keys.write;
    buff = record {
      size = 0;
      cells = poke (reserve junk (buff_size + 1) empty).cells 0 (payload d ++ 0 ∷ []);
    };
  }

  pub delivered-HasPayload :
      (junk : ℕ → ℕ) (blank : DriverData) → d.len ≤ buff_size → HasPayload (delivered junk blank)
  delivered-HasPayload junk blank small = omega (
    arith,
    length-poke (reserve junk (buff_size + 1) empty).cells 0 (payload d ++ 0 ∷ []),
    le-length-reserve junk (buff_size + 1) empty,
  )

  pub payload-delivered :
      (junk : ℕ → ℕ) (blank : DriverData)
      → HasPayload d
      → d.len ≤ buff_size
      → payload (delivered junk blank) ≡ payload d
  payload-delivered junk blank full small =
      let size = length-payload d full in
      let cells = (reserve junk (buff_size + 1) empty).cells in
      let text = length-append (payload d) (0 ∷ []) in
      let room = le-length-reserve junk (buff_size + 1) empty in
      rw (poke_start cells (payload d ++ 0 ∷ []) (omega (arith, text, room)), append_assoc)
        (take-append d.len (payload d) _ size)

  pub receive-delivered :
      (junk : ℕ → ℕ) (blank : DriverData) (p : SlaveDriverProxy) (from : ℕ)
      → Sendable c d
      → d.len ≤ 4096
      → NoNul (payload d)
      → receive_request junk blank p (some (write_packet.datagram, from))
        ≡ done (record p { servaddr = from }, delivered junk blank)
  unfolding receive_request
  receive-delivered junk blank p from ok small plain =
      let size = length-payload d ok.full in
      rw
        (
          received-framed from (block-fits ok small) ok.full,
          parse_request-write junk blank d.offset d.len (pos number) (payload d)
              (zeros (buff_size - (length title + 1) - length (payload d))) ok.offset_fits
              ok.len_fits (omega (arith, ok.room)) plain (omega arith),
        )
        refl

  -- A write request of at most 4096 bytes with no zero byte among them, whose offset and length fit
  -- their types and for which a number is free, reaches the slave as it was: the datagram is sent,
  -- and the slave reads the same offset, length, number and bytes from it.
  pub write-received :
      (junk : ℕ → ℕ) (blank : DriverData) (p : SlaveDriverProxy) (from : ℕ)
      → Sendable c d
      → d.len ≤ 4096
      → NoNul (payload d)
      → (write true default c d ≡ done (after_write, write_packet))
        × (d' : DriverData) × (receive_request junk blank p (some (write_packet.datagram, from))
            ≡ done (record p { servaddr = from }, d'))
        × (d'.offset ≡ d.offset)
        × (d'.len ≡ d.len)
        × (d'.req_id ≡ pos number)
        × (d'.key ≡ Keys.write)
        × (payload d' ≡ payload d)
  write-received junk blank p from ok small plain = (
    (write_block ok small).0,
    delivered junk blank,
    receive-delivered junk blank p from ok small plain,
    refl,
    refl,
    refl,
    refl,
    payload-delivered junk blank ok.full (omega arith),
  )
