-- ===== src/Exchange/Reads.antt =====
-- A read that comes back, and one that leaves the vector of its bytes.
use greencloud.Base.{
  ℕ, suc, ◌+◌, ◌-◌, ◌^◌, ◌≤◌, ◌<◌, ◌≡◌, refl, ◌∙◌, true, [], ◌∷◌, ◌++◌, Bytes, done, fails,
  undefined, some, length, peek, poke, append_assoc, append-nil, arith, length-append, lt→ltb,
  take_all, poke_start, drop_all, length-peek,
}
use greencloud.Base.Int.{ℤ, pos}
use greencloud.Data.{DriverData, reserve, reserve-empty, length-fresh, empty, fresh}
use greencloud.Data.Keys
use greencloud.Storage.Iface.{BlockStore, InRange, filled}
use greencloud.Wire.Decimal.{show, show_int}
use greencloud.Wire.Decimal.Shape.{length-show-le, length-show_int-le}
use greencloud.Wire.Text.{zeros, zeros-add, length-zeros, poke-zeros, NoNul}
use greencloud.Slave.Proxy.{SlaveDriverProxy, buff_size, receive_request, send_reply}
use greencloud.Slave.Proxy as Proxy
use greencloud.Slave.Parse.{parse_request-read}
use greencloud.Slave.Reply.{reply_head, room, send_reply-text, send_reply-endless}
use greencloud.Slave.Tasks.{execute_read}
use greencloud.Cloud.Ids.{handler_to_id}
use greencloud.Cloud.Slaves.{CloudStorage, get_slave_data}
use greencloud.Cloud.Slaves.Handshake.{SlaveData}
use greencloud.Cloud.Send.{Packet, header, read}
use greencloud.Cloud.Deliver.{length-header, put_text}
use greencloud.Cloud.Reply.{received, gateway_read}
use greencloud.Cloud.Answer.{create_data-read, received_cut}
use greencloud.Exchange.Writes.{take_last, spent, length-reply_head}
use greencloud.Exchange.{Setting, read_exchange}

-- The master can ask for it: the fields fit, and a number is free.
pub record Askable (c : CloudStorage) (d : DriverData) : Type 0 where
  pub offset_fits : d.offset < 2 ^ 64
  pub len_fits : d.len < 2 ^ 32
  pub free : c.ids.last + 1 < 2 ^ 31

module _ (default : SlaveData) (c : CloudStorage) (d : DriverData) where
  abbrev n : ℕ
  n = c.ids.last + 1

  abbrev question : Bytes
  question = header d.offset d.len (pos n) b'0'

  abbrev after_read : CloudStorage
  after_read = record (get_slave_data default c d.offset).0 {
    ids = record { last = n; table = (pos n, d.handler) ∷ c.ids.table };
  }

  abbrev read_packet : Packet
  read_packet = record {
    socket = (get_slave_data default c d.offset).1.socket;
    to = (get_slave_data default c d.offset).1.cliaddr;
    datagram = question ++ 0 ∷ zeros (buff_size - (length question + 1));
  }

  length-question-le : Askable c d → length question ≤ 46
  length-question-le ok = omega (
    arith,
    length-header d.offset d.len (pos n) b'0',
    length-show-le 20 d.offset (omega arith) (omega (arith, ok.offset_fits)),
    length-show-le 10 d.len (omega arith) (omega (arith, ok.len_fits)),
    length-show_int-le (pos n) ok.free,
  )

  read_lem : Askable c d → read true default c d ≡ done (after_read, read_packet)
  unfolding read handler_to_id get_slave_data
  read_lem ok =
      rw (lt→ltb n (2 ^ 31) ok.free, put_text question (omega (arith, length-question-le ok))) refl

  -- The request as the slave has it.
  abbrev asked : DriverData → DriverData
  asked blank = record blank {
    offset = d.offset;
    len = d.len;
    req_id = pos n;
    key = Keys.read;
    buff = empty;
  }

  receive-asked :
      (junk : ℕ → ℕ) (blank : DriverData) (p : SlaveDriverProxy) (from : ℕ)
      → Askable c d
      → receive_request junk blank p (some (read_packet.datagram, from))
        ≡ done (record p { servaddr = from }, asked blank)
  unfolding receive_request Proxy.received
  receive-asked junk blank p from ok =
      let size : length read_packet.datagram ≡ buff_size = omega (
        arith,
        length-question-le ok,
        length-append question (0 ∷ zeros (buff_size - (length question + 1))),
        length-zeros (buff_size - (length question + 1)),
      ) in
      rw
        (
          take_all buff_size read_packet.datagram (omega arith),
          poke-zeros [] read_packet.datagram 0 4137 refl (omega arith),
        )
        (simp append_assoc (
          rw
            (parse_request-read junk blank d.offset d.len (pos n) _ ok.offset_fits ok.len_fits
              ok.free)
            refl))

-- A block that was read into a fresh vector is all that the vector holds.
cells-filled :
    (junk : ℕ → ℕ) (block : Bytes) (d : DriverData)
    → InRange (length block) d
    → d.buff ≡ empty
    → (filled junk block d).buff.cells ≡ peek block d.offset d.len
cells-filled junk block d fits new =
    let got = peek block d.offset d.len in
    let size : length got ≡ d.len = length-peek block d.offset d.len fits in
    let memory : length (fresh junk d.len) ≡ d.len = length-fresh junk d.len in
    rw (new, reserve-empty junk d.len, poke_start (fresh junk d.len) got (omega arith))
      (rw (drop_all (fresh junk d.len) (length got) (omega arith)) (append-nil got))

last_zero : (k m : ℕ) → k + 2 ≡ m → zeros m ≡ 0 ∷ (zeros k ++ 0 ∷ [])
unfolding zeros
last_zero k m e = zeros-add (suc k) 1 m (omega arith)

text_shut :
    (head text : Bytes) (k m : ℕ)
    → k + 2 ≡ m
    → head ++ 0 ∷ (text ++ zeros m) ≡ (head ++ 0 ∷ (text ++ 0 ∷ zeros k)) ++ 0 ∷ []
text_shut head text k m e = rw (last_zero k m e) (simp append_assoc)

-- What the master's gateway reads of a reply with a text.
received-text :
    (len : ℕ) (id : ℤ) (text : Bytes)
    → length (show len) + length (show_int id) + 5 ≤ buff_size
    → length text + 2 < room len id
    → received (reply_head len id b'0' ++ 0 ∷ (text ++ zeros (room len id - 1 - length text)))
      ≡ reply_head len id b'0' ++ 0 ∷ (text ++ 0 ∷ zeros (room len id - 3 - length text))
received-text len id text fits small =
    let k = room len id - 3 - length text in
    let shut = reply_head len id b'0' ++ 0 ∷ (text ++ 0 ∷ zeros k) in
    rw (text_shut (reply_head len id b'0') text k (room len id - 1 - length text) (omega arith)) (
      received_cut shut 0 (
        omega (
          arith,
          length-reply_head len id b'0',
          length-append (reply_head len id b'0') (0 ∷ (text ++ 0 ∷ zeros k)),
          length-append text (0 ∷ zeros k),
          length-zeros k,
        )))

module _ (store : BlockStore) (setting : Setting) where
  open store use {State, bytes}

  pub short_head :
      (c : CloudStorage) (d : DriverData)
      → Askable c d
      → length (show d.len) + length (show_int (pos (c.ids.last + 1))) + 5 ≤ 26
  short_head c d ok = omega (
    arith,
    length-show-le 10 d.len (omega arith) (omega (arith, ok.len_fits)),
    length-show_int-le (pos (c.ids.last + 1)) ok.free,
  )

  -- The slave's answer to a request that it has read.
  asked_filled : CloudStorage → State → DriverData → DriverData
  asked_filled c s d =
      filled setting.slave_junk (bytes s) (asked setting.default c d setting.slave_blank)

  -- A read inside the slave's storage, of a range that holds a zero byte behind at most 4096
  -- others, whose offset and length fit their types and for which a number is free, runs to its
  -- end: the task that answers the block device has the handle and the length of the request, and
  -- in its buffer the bytes before the first zero and that zero. What stands behind it is not what
  -- the slave read: it is what the master's allocator left there.
  pub read_exchange_lem :
      (c : CloudStorage) (p : SlaveDriverProxy) (s : State) (d : DriverData) (text more : Bytes)
      → Askable c d
      → InRange (length (bytes s)) d
      → peek (bytes s) d.offset d.len ≡ text ++ 0 ∷ more
      → NoNul text
      → length text ≤ 4096
      → read_exchange store setting c p s d
        ≡ done (record {
          cloud = spent store setting c d;
          proxy = record p { servaddr = setting.from };
          store = s;
          key = Keys.replay;
          reply = record (setting.master_blank) {
            offset = 0;
            len = d.len;
            handler = d.handler;
            key = Keys.read;
            buff = record {
              size = 0;
              cells =
                  poke (reserve setting.master_junk (buff_size + 1) empty).cells 0 (text ++ 0 ∷ []);
            };
          };
        })
  unfolding read_exchange execute_read gateway_read asked_filled
  read_exchange_lem c p s d text more ok inside holds plain small =
      let n = c.ids.last + 1 in
      let short = short_head c d ok in
      let d₁ = asked_filled c s d in
      let cells : d₁.buff.cells ≡ text ++ 0 ∷ more =
        cells-filled setting.slave_junk (bytes s) (asked setting.default c d setting.slave_blank)
          inside refl
        ∙ holds in
      rw
        (
          read_lem setting.default c d ok,
          receive-asked setting.default c d setting.slave_junk setting.slave_blank p setting.from
              ok,
          store.read_lem setting.slave_junk s (asked setting.default c d setting.slave_blank)
              inside,
          send_reply-text d₁ text more refl (omega arith) cells plain (omega arith),
          received-text d.len (pos n) text (omega arith) (omega arith),
          create_data-read setting.master_junk setting.master_blank (after_read setting.default c d)
              d.len (pos n) text (zeros (room d.len (pos n) - 3 - length text)) d.handler
              (record { last = n; table = c.ids.table }) ok.len_fits ok.free plain (omega arith)
              (take_last n d.handler c.ids.table),
        )
        refl

  -- A read inside the slave's storage of a range with no zero byte, whose offset and length fit
  -- their types and for which a number is free, comes to undefined behaviour: the slave copies its
  -- bytes as a C string, past the end of the vector that holds them.
  pub read_exchange_endless :
      (c : CloudStorage) (p : SlaveDriverProxy) (s : State) (d : DriverData)
      → Askable c d
      → InRange (length (bytes s)) d
      → NoNul (peek (bytes s) d.offset d.len)
      → read_exchange store setting c p s d ≡ fails undefined
  unfolding read_exchange execute_read asked_filled
  read_exchange_endless c p s d ok inside plain =
      let short = short_head c d ok in
      let d₁ = asked_filled c s d in
      let cells : NoNul d₁.buff.cells =
        rw
          (cells-filled setting.slave_junk (bytes s) (asked setting.default c d setting.slave_blank)
            inside refl)
          plain in
      rw
        (
          read_lem setting.default c d ok,
          receive-asked setting.default c d setting.slave_junk setting.slave_blank p setting.from
              ok,
          store.read_lem setting.slave_junk s (asked setting.default c d setting.slave_blank)
              inside,
          send_reply-endless d₁ refl (omega arith) cells,
        )
        refl
