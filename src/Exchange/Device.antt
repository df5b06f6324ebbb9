-- ===== src/Exchange/Device.antt =====
-- The master, the network and a slave together, over any sequence of requests.
use greencloud.Base.{
  ℕ, ◌+◌, ◌<◌, ◌≤◌, ◌^◌, ◌≡◌, refl, sym, ap, ◌∙◌, List, [], ◌∷◌, ◌++◌, map, some, Bytes, Outcome,
  done, ◌>>=◌, length, take, peek, poke, All, arith,
}
use greencloud.Data.{DriverData}
use greencloud.Storage.Iface.{BlockStore, InRange, HasPayload, payload}
use greencloud.Wire.Text.{NoNul}
use greencloud.Slave.Proxy.{SlaveDriverProxy}
use greencloud.Cloud.Slaves.{CloudStorage}
use greencloud.Cloud.Transfer.{Sendable}
use greencloud.Nbd.Stream.{Accepts}
use greencloud.Nbd.Driver.{Protocol, init_reply}
use greencloud.Nbd.Tasks.{execute_reply}
use greencloud.Exchange.{Setting, Answered, write_exchange, read_exchange}
use greencloud.Exchange.Writes.{spent, write_exchange_lem}
use greencloud.Exchange.Reads.{Askable, read_exchange_lem}
use greencloud.Exchange.Served.{write_reply_lem, read_reply_lem}

-- A request of the block device, by the task that serves it.
pub data Call : Type 0 where
  writes : DriverData → Call
  reads : DriverData → Call

-- A text that ends before the block's end.
abbrev pub HasNul : Bytes → Type 0
HasNul block = (text : Bytes) × (more : Bytes) × (block ≡ text ++ 0 ∷ more) × NoNul text

-- A block device as the specification: what a request leaves of its block.
abbrev pub after : Bytes → Call → Bytes
after block (writes d) = poke block d.offset (payload d)
after block (reads d) = block

abbrev pub after_all : Bytes → List Call → Bytes
after_all block [] = block
after_all block (x ∷ xs) = after_all (after block x) xs

-- What the two programs serve: at most 4096 bytes inside the block, an offset that fits its type, a
-- write with its bytes, no zero among them, and a read of a range that holds a zero.
abbrev pub Fits : Bytes → Call → Type 0
Fits block (writes d) =
    (d.offset < 2 ^ 64)
    × (d.len ≤ 4096)
    × InRange (length block) d
    × HasPayload d
    × NoNul (payload d)
Fits block (reads d) =
    (d.offset < 2 ^ 64)
    × (d.len ≤ 4096)
    × InRange (length block) d
    × HasNul (peek block d.offset d.len)

abbrev pub Fit : Bytes → List Call → Type 0
Fit block [] = Unit
Fit block (x ∷ xs) = Fits block x × Fit (after block x) xs

module _ (store : BlockStore) (setting : Setting) (nbd : Protocol) where
  open store use {State, bytes}

  pub record Cluster : Type 0 where
    pub cloud : CloudStorage
    pub proxy : SlaveDriverProxy
    pub state : State

  -- The bytes that the kernel reads from the socket, over `write`s that take as many as stated.
  reply : Accepts → Answered State → Outcome (Cluster × Bytes)
  reply ws a = do
    (wire, _) ← execute_reply nbd ws a.reply
    done (record { cloud = a.cloud; proxy = a.proxy; state = a.store }, wire)

  unfoldable pub serve : Accepts → Call → Cluster → Outcome (Cluster × Bytes)
  unfolding reply
  serve ws (writes d) k = write_exchange store setting k.cloud k.proxy k.state d >>= reply ws
  serve ws (reads d) k = read_exchange store setting k.cloud k.proxy k.state d >>= reply ws

  unfoldable pub serve_all : Accepts → List Call → Cluster → Outcome (Cluster × List Bytes)
  unfolding serve
  serve_all ws [] k = done (k, [])
  serve_all ws (x ∷ xs) k =
      serve ws x k >>= λ r. serve_all ws xs r.0 >>= λ rest. done (rest.0, r.1 ∷ rest.1)

  -- The reply to a request: the struct with its handle, and to a read as many bytes as were asked
  -- for, which begin with those of the range up to its first zero, and that zero.
  abbrev pub Replied : Bytes → Call → Bytes → Type 0
  Replied block (writes d) wire = wire ≡ init_reply nbd setting.master_blank.status d.handler
  Replied block (reads d) wire =
      (body : Bytes) × (text : Bytes) × (more : Bytes) × (wire
        ≡ init_reply nbd setting.master_blank.status d.handler ++ body)
      × (length body ≡ d.len)
      × (peek block d.offset d.len ≡ text ++ 0 ∷ more)
      × (take (length (text ++ 0 ∷ [])) body ≡ text ++ 0 ∷ [])

  abbrev pub Told : Bytes → List Call → List Bytes → Type 0
  Told block [] [] = Unit
  Told block (x ∷ xs) (wire ∷ wires) = Replied block x wire × Told (after block x) xs wires
  Told block _ _ = ⊥

  -- The socket takes the reply in as many calls as are listed.
  abbrev pub Takes : List ℕ → Call → Type 0
  Takes ns (writes d) =
      length (init_reply nbd setting.master_blank.status d.handler) + d.len ≤ length ns
  Takes ns (reads d) =
      length (init_reply nbd setting.master_blank.status d.handler) + d.len ≤ length ns

  serve-device :
      (ns : List ℕ) (x : Call) (k : Cluster)
      → Fits (bytes k.state) x
      → k.cloud.ids.last + 1 < 2 ^ 31
      → All (λ n. 0 < n) ns
      → Takes ns x
      → (k' : Cluster) × (wire : Bytes) × (serve (map some ns) x k ≡ done (k', wire))
        × (bytes k'.state ≡ after (bytes k.state) x)
        × Replied (bytes k.state) x wire
        × (k'.cloud.ids.table ≡ k.cloud.ids.table)
        × (k'.cloud.ids.last ≡ k.cloud.ids.last + 1)
  unfolding serve reply
  serve-device ns (writes d) k (offset, small, inside, full, plain) free takes many =
      let ok : Sendable k.cloud d = record {
        offset_fits = offset;
        len_fits = omega arith;
        full = full;
        room = free;
      } in
      let (s', now, ran) =
        write_exchange_lem store setting k.cloud k.proxy k.state d ok small plain inside in
      let (left, sent) = write_reply_lem store setting nbd ns d takes many in
      (
        record {
          cloud = spent store setting k.cloud d;
          proxy = record (k.proxy) { servaddr = setting.from };
          state = s';
        },
        init_reply nbd setting.master_blank.status d.handler,
        rw (ran, sent) refl,
        now,
        refl,
        refl,
        refl,
      )
  serve-device ns (reads d) k (offset, small, inside, (text, more, holds, plain)) free takes many =
      let ok : Askable k.cloud d = record {
        offset_fits = offset;
        len_fits = omega arith;
        free = free;
      } in
      let (body, left, sent, short, size, starts) =
        read_reply_lem store setting nbd ns d (bytes k.state) text more small inside holds takes
          many in
      let ran =
        read_exchange_lem store setting k.cloud k.proxy k.state d text more ok inside holds plain
          short in
      (
        record {
          cloud = spent store setting k.cloud d;
          proxy = record (k.proxy) { servaddr = setting.from };
          state = k.state;
        },
        init_reply nbd setting.master_blank.status d.handler ++ body,
        rw (ran, sent) refl,
        refl,
        (body, text, more, refl, size, holds, starts),
        refl,
        refl,
      )

  -- The two programs are a block device. Take any requests, one behind the other: at most 4096
  -- bytes inside the block that the requests before left, an offset that fits its type, writes with
  -- their bytes and no zero among them, reads of ranges that hold a zero; no more of them than
  -- there are numbers left; and a socket that takes at least one byte at a time, in as many calls
  -- as each reply and its length need. Then all exchanges run to their ends, the slave's storage
  -- holds the block that the writes leave one after the other, the kernel reads one reply to each
  -- request, that to a read as long as was asked for, beginning with the bytes of the range as the
  -- writes before left it, up to its first zero, and no request waits that did not before.
  pub serve_all-device :
      (ns : List ℕ) (xs : List Call) (k : Cluster)
      → Fit (bytes k.state) xs
      → k.cloud.ids.last + length xs < 2 ^ 31
      → All (λ n. 0 < n) ns
      → All (Takes ns) xs
      → (k' : Cluster) × (wires : List Bytes) × (serve_all (map some ns) xs k ≡ done (k', wires))
        × (bytes k'.state ≡ after_all (bytes k.state) xs)
        × Told (bytes k.state) xs wires
        × (k'.cloud.ids.table ≡ k.cloud.ids.table)
  unfolding serve_all
  serve_all-device ns [] k fit free takes many = (k, [], refl, refl, tt, refl)
  serve_all-device ns (x ∷ xs) k (fits, later) free takes (enough, others) =
      let (k₁, wire, ran, now, told, same, spent_one) =
        serve-device ns x k fits (omega arith) takes enough in
      let (k', wires, rest, left, replies, kept) =
        serve_all-device ns xs k₁ (rw now later) (omega arith) takes others in
      (
        k',
        wire ∷ wires,
        rw (ran, rest) refl,
        left ∙ ap (λ b. after_all b xs) now,
        (told, rw (sym now) replies),
        kept ∙ same,
      )
