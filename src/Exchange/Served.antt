-- ===== src/Exchange/Served.antt =====
-- A request from its arrival in the master's task to the bytes that the kernel reads.
use greencloud.Base.{
  ℕ, ◌+◌, ◌<◌, ◌≤◌, ◌≡◌, refl, [], ◌∷◌, ◌++◌, List, map, some, Bytes, Outcome, done, ◌>>=◌, length,
  take, peek, poke, All, arith, append-nil, zero, suc, ap, sym, ◌∙◌, drop, poke_start, take-append,
  length-peek, length-append, length-poke, length-take,
}
use greencloud.Data.{DriverData, reserve, empty, reserve-empty, length-fresh}
use greencloud.Data.Keys
use greencloud.Storage.Iface.{BlockStore, InRange, payload}
use greencloud.Wire.Text.{NoNul}
use greencloud.Slave.Proxy.{SlaveDriverProxy, buff_size}
use greencloud.Cloud.Slaves.{CloudStorage}
use greencloud.Cloud.Transfer.{Sendable}
use greencloud.Nbd.Stream.{Accepts}
use greencloud.Nbd.Driver.{Protocol, init_reply}
use greencloud.Nbd.Framing.{send_reply-answer}
use greencloud.Nbd.Tasks.{execute_reply}
use greencloud.Exchange.{Setting, write_exchange, read_exchange}
use greencloud.Exchange.Writes.{write_exchange_lem}
use greencloud.Exchange.Reads.{Askable, read_exchange_lem}

take-take : (n m : ℕ) (xs : Bytes) → n ≤ m → take n (take m xs) ≡ take n xs
take-take zero m xs h = refl
take-take (suc n) zero xs h = absurd (omega arith)
take-take (suc n) (suc m) [] h = refl
take-take (suc n) (suc m) (x ∷ xs) h = ap (◌∷◌ x) (take-take n m xs (omega arith))

-- What the master's buffer begins with.
take-poke :
    (block text : Bytes) (m : ℕ)
    → length text ≤ length block
    → length text ≤ m
    → take (length text) (take m (poke block 0 text)) ≡ text
take-poke block text m room h =
    take-take (length text) m (poke block 0 text) h
    ∙ rw (poke_start block text room)
        (take-append (length text) text (drop (length text) block) refl)

module _ (store : BlockStore) (setting : Setting) (nbd : Protocol) where
  open store use {State, bytes}

  -- The replies to the requests of a write and of a read, as the master has them from the slave.
  abbrev pub write_reply : DriverData → DriverData
  write_reply d = record (setting.master_blank) {
    offset = 0;
    len = d.len;
    handler = d.handler;
    key = Keys.write;
    buff = empty;
  }

  abbrev pub read_reply : DriverData → Bytes → DriverData
  read_reply d text = record (setting.master_blank) {
    offset = 0;
    len = d.len;
    handler = d.handler;
    key = Keys.read;
    buff = record {
      size = 0;
      cells = poke (reserve setting.master_junk (buff_size + 1) empty).cells 0 (text ++ 0 ∷ []);
    };
  }

  -- `NBDReplay` of a write sends the struct.
  pub write_reply_lem :
      (ns : List ℕ) (d : DriverData)
      → All (λ n. 0 < n) ns
      → length (init_reply nbd setting.master_blank.status d.handler) + d.len ≤ length ns
      → (left : List ℕ) × (execute_reply nbd (map some ns) (write_reply d)
          ≡ done (init_reply nbd setting.master_blank.status d.handler, map some left))
  unfolding execute_reply init_reply
  write_reply_lem ns d takes many =
      let (left, sent) =
        send_reply-answer nbd ns (write_reply d) takes (λ reads. absurd (ground arith)) many in
      (left, rw (sent, append-nil (init_reply nbd setting.master_blank.status d.handler)) refl)

  -- That of a read sends the struct and as many bytes as were asked for, which begin with the text.
  pub read_reply_lem :
      (ns : List ℕ) (d : DriverData) (block text more : Bytes)
      → d.len ≤ 4096
      → InRange (length block) d
      → peek block d.offset d.len ≡ text ++ 0 ∷ more
      → All (λ n. 0 < n) ns
      → length (init_reply nbd setting.master_blank.status d.handler) + d.len ≤ length ns
      → (body : Bytes) × (left : List ℕ) × (execute_reply nbd (map some ns) (read_reply d text)
          ≡ done (init_reply nbd setting.master_blank.status d.handler ++ body, map some left))
        × (length text ≤ 4096)
        × (length body ≡ d.len)
        × (take (length (text ++ 0 ∷ [])) body ≡ text ++ 0 ∷ [])
  unfolding execute_reply init_reply
  read_reply_lem ns d block text more small inside holds takes many =
      let range = length-peek block d.offset d.len inside in
      let whole : length (text ++ 0 ∷ more) ≡ d.len = ap length (sym holds) ∙ range in
      let size = length-append text (0 ∷ more) in
      let size' = length-append text (0 ∷ []) in
      let memory = (reserve setting.master_junk (buff_size + 1) empty).cells in
      let room : length memory ≡ buff_size + 1 =
        rw (reserve-empty setting.master_junk (buff_size + 1))
          (length-fresh setting.master_junk (buff_size + 1)) in
      let cells = poke memory 0 (text ++ 0 ∷ []) in
      let wide = length-poke memory 0 (text ++ 0 ∷ []) in
      let (left, sent) =
        send_reply-answer nbd ns (read_reply d text) takes (λ reads. omega arith) many in
      (
        take d.len cells,
        left,
        rw sent refl,
        omega arith,
        omega (arith, length-take d.len cells),
        take-poke memory (text ++ 0 ∷ []) d.len (omega arith) (omega arith),
      )

  -- The exchange, and the `NBDReplay` that the engine makes of the slave's reply.
  unfoldable pub serve_write :
      Accepts → CloudStorage → SlaveDriverProxy → State → DriverData → Outcome (State × Bytes)
  serve_write ws c p s d = do
    a ← write_exchange store setting c p s d
    (wire, _) ← execute_reply nbd ws a.reply
    done (a.store, wire)

  -- A write of at most 4096 bytes with no zero byte among them, inside the slave's storage, whose
  -- offset and length fit their types and for which a number is free, ends with the bytes in the
  -- storage and one reply to the kernel, with the handle of the request, however few bytes each
  -- `write` to the socket takes (one at least, in as many calls as the reply and the length need).
  -- Its error field is what the allocation of the master's `DriverData` left there.
  pub serve_write_lem :
      (ns : List ℕ) (c : CloudStorage) (p : SlaveDriverProxy) (s : State) (d : DriverData)
      → Sendable c d
      → d.len ≤ 4096
      → NoNul (payload d)
      → InRange (length (bytes s)) d
      → All (λ n. 0 < n) ns
      → length (init_reply nbd setting.master_blank.status d.handler) + d.len ≤ length ns
      → (s' : State) × (bytes s' ≡ poke (bytes s) d.offset (payload d))
        × (serve_write (map some ns) c p s d
            ≡ done (s', init_reply nbd setting.master_blank.status d.handler))
  unfolding serve_write
  serve_write_lem ns c p s d ok small plain inside takes many =
      let (s', now, ran) = write_exchange_lem store setting c p s d ok small plain inside in
      let (left, sent) = write_reply_lem ns d takes many in (s', now, rw (ran, sent) refl)

  unfoldable pub serve_read :
      Accepts → CloudStorage → SlaveDriverProxy → State → DriverData → Outcome (State × Bytes)
  serve_read ws c p s d = do
    a ← read_exchange store setting c p s d
    (wire, _) ← execute_reply nbd ws a.reply
    done (a.store, wire)

  -- A read of at most 4096 bytes inside the slave's storage, of a range that holds a zero byte,
  -- whose offset and length fit their types and for which a number is free, ends with one reply to
  -- the kernel, however few bytes each `write` to the socket takes (one at least, in as many calls
  -- as the reply and the length need): the struct with the handle of the request, and as many bytes
  -- as were asked for. They begin with the bytes of the range up to its first zero and that zero;
  -- what the others are is left open.
  pub serve_read_lem :
      (ns : List ℕ) (c : CloudStorage) (p : SlaveDriverProxy) (s : State) (d : DriverData)
      (text more : Bytes)
      → Askable c d
      → d.len ≤ 4096
      → InRange (length (bytes s)) d
      → peek (bytes s) d.offset d.len ≡ text ++ 0 ∷ more
      → NoNul text
      → All (λ n. 0 < n) ns
      → length (init_reply nbd setting.master_blank.status d.handler) + d.len ≤ length ns
      → (body : Bytes) × (serve_read (map some ns) c p s d
          ≡ done (s, init_reply nbd setting.master_blank.status d.handler ++ body))
        × (length body ≡ d.len)
        × (take (length (text ++ 0 ∷ [])) body ≡ text ++ 0 ∷ [])
  unfolding serve_read
  serve_read_lem ns c p s d text more ok small inside holds plain takes many =
      let (body, left, sent, short, size, starts) =
        read_reply_lem ns d (bytes s) text more small inside holds takes many in
      let ran = read_exchange_lem store setting c p s d text more ok inside holds plain short in
      (body, rw (ran, sent) refl, size, starts)
