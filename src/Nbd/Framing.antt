-- ===== src/Nbd/Framing.antt =====
-- The requests and replies of the block device on the wire.
use greencloud.Base.{
  ℕ, ◌+◌, ◌≤◌, ◌<◌, ◌≡◌, ◌≢◌, refl, sym, ap, subst, ◌∙◌, Bool-cases, inl, inr, true, false, List,
  [], ◌∷◌, ◌++◌, map, Bytes, some, done, length, take, arith, take_all, take-append-drop, All,
  lt→ltb, ge→ltb, le→leb, length-append, length-take, take-append, drop-append, append-nil, poke,
  poke_start, replicate, length-replicate, ◌==◌, drop_all, if◌then◌else◌,
}
use greencloud.Data.{DriverData, is_read, reserve, reserve-empty, length-fresh, empty, fresh}
use greencloud.Data.Keys
use greencloud.Nbd.Order.{
  ntohl, ntohll, little, big_from, IsOctets, ntohl-IsOctets, ntohl-big_from, ntohll-IsOctets,
}
use greencloud.Nbd.Stream.{
  Arrivals, read_some, flat, rest_of, read_all-flat, flat-rest_of, write_all-positive,
}
use greencloud.Nbd.Driver.{Protocol, Request, decode, receive_request, init_reply, send_reply}

-- The chunks of a payload that begins in the chunk of its header.
abbrev pub chunks : Bytes → List Bytes → List Bytes
chunks [] cs = cs
chunks (b ∷ c) cs = (b ∷ c) ∷ cs

read_some-head :
    (head c : Bytes) (cs : List Bytes) (tail : Arrivals)
    → read_some (some (head ++ c) ∷ (map some cs ++ tail)) (length head)
      ≡ done (head, map some (chunks c cs) ++ tail)
unfolding read_some
read_some-head head [] cs tail =
    rw (append-nil head, ge→ltb (length head) (length head) (omega arith)) refl
read_some-head head (b ∷ c) cs tail =
    let longer : length head < length (head ++ b ∷ c) = omega (arith, length-append head (b ∷ c)) in
    rw
      (
        lt→ltb (length head) (length (head ++ b ∷ c)) longer,
        take-append (length head) head (b ∷ c) refl,
        drop-append (length head) head (b ∷ c) refl,
      )
      refl

poke_exact : (block bs : Bytes) → length block ≡ length bs → poke block 0 bs ≡ bs
poke_exact block bs same =
    poke_start block bs (omega arith)
    ∙ rw (drop_all {A = ℕ} block (length bs) (omega arith)) (append-nil bs)

whole : (head : Bytes) → poke (replicate (length head) 0) 0 head ≡ head
whole head = poke_exact (replicate (length head) 0) head (length-replicate (length head) 0)

-- What the code makes of the fields.
abbrev decoded : DriverData → Request → DriverData
decoded blank r = record blank {
  handler = r.handle;
  status = 0;
  offset = ntohll r.from;
  len = ntohl r.len;
  key = Keys.write;
}

-- What the request should become, by the bytes of its offset and its length in network order.
abbrev pub asked : DriverData → Bytes → Bytes → Bytes → DriverData
asked blank handle offset len = record blank {
  handler = handle;
  status = 0;
  offset = big_from 0 offset;
  len = big_from 0 len;
  key = Keys.write;
}

-- The struct of a reply as the protocol has it.
abbrev pub struct_of : Protocol → DriverData → Bytes
struct_of nbd d =
    nbd.reply (record { magic = ntohl nbd.reply_magic; error = d.status; handle = d.handler })

module _ (nbd : Protocol) where
  receive_request-decoded :
      (junk : ℕ → ℕ) (blank : DriverData) (head c : Bytes) (cs : List Bytes) (tail : Arrivals)
      → length head ≡ nbd.request_size
      → (nbd.request head).magic ≡ ntohl nbd.request_magic
      → ntohl (nbd.request head).type ≡ nbd.cmd_write
      → nbd.cmd_write ≢ nbd.cmd_read
      → ntohl (nbd.request head).len ≤ length (flat (chunks c cs))
      → (d : DriverData) × (left : List Bytes) × (receive_request nbd junk blank
            (some (head ++ c) ∷ (map some cs ++ tail))
          ≡ done (d, map some left ++ tail))
        × (record d { buff = blank.buff } ≡ decoded blank (nbd.request head))
        × (take d.len d.buff.cells ++ flat left ≡ flat (chunks c cs))
  unfolding receive_request decode
  receive_request-decoded junk blank head c cs tail size magic type other enough =
      let r = nbd.request head in
      let k = ntohl r.len in
      let came : read_some (some (head ++ c) ∷ (map some cs ++ tail)) nbd.request_size
          ≡ done (head, map some (chunks c cs) ++ tail) =
        rw size at (read_some-head head c cs tail) in
      let full : poke (replicate nbd.request_size 0) 0 head ≡ head = rw size at (whole head) in
      let no_read : (ntohl r.type == nbd.cmd_read) ≡ false = ground arith in
      let a_write : (ntohl r.type == nbd.cmd_write) ≡ true = ground arith in
      let good : (r.magic == ntohl nbd.request_magic) ≡ true = ground arith in
      let body = read_all-flat (chunks c cs) k tail enough in
      let room = length-fresh junk k in
      let taken = length-take k (flat (chunks c cs)) in
      let memory : poke (reserve junk k empty).cells 0 (take k (flat (chunks c cs)))
          ≡ take k (flat (chunks c cs)) =
        rw (reserve-empty junk k)
          (poke_exact (fresh junk k) (take k (flat (chunks c cs))) (omega arith)) in
      (
        record (decoded blank r) {
          buff = record { size = 0; cells = take k (flat (chunks c cs)) };
        },
        rest_of k (chunks c cs),
        rw (came, full, good, no_read, a_write, body, memory) refl,
        refl,
        rw (take_all k (take k (flat (chunks c cs))) (omega arith), flat-rest_of (chunks c cs) k)
            (take-append-drop k (flat (chunks c cs))),
      )

  -- A write request is received as it was sent, if its header comes in one piece and at least as
  -- many bytes of payload as its length says: the payload may begin in the same piece and come in
  -- any others. In the header stand, as bytes in network order,
  -- the number of requests, that of a write, which is not that of a read, an offset of eight bytes
  -- and a length of four. The request received has the header's handle, the numbers that these
  -- bytes are in network order, and so many bytes of the payload. Those behind stay in the socket.
  pub receive_request-write :
      (junk : ℕ → ℕ) (blank : DriverData) (head c magic type offset len : Bytes) (cs : List Bytes)
      (tail : Arrivals)
      → length head ≡ nbd.request_size
      → IsOctets 4 magic
      → IsOctets 4 type
      → IsOctets 8 offset
      → IsOctets 4 len
      → (nbd.request head).magic ≡ little magic
      → (nbd.request head).type ≡ little type
      → (nbd.request head).from ≡ little offset
      → (nbd.request head).len ≡ little len
      → big_from 0 magic ≡ nbd.request_magic
      → big_from 0 type ≡ nbd.cmd_write
      → nbd.cmd_write ≢ nbd.cmd_read
      → big_from 0 len ≤ length (flat (chunks c cs))
      → (d : DriverData) × (left : List Bytes) × (receive_request nbd junk blank
            (some (head ++ c) ∷ (map some cs ++ tail))
          ≡ done (d, map some left ++ tail))
        × (record d { buff = blank.buff } ≡ asked blank (nbd.request head).handle offset len)
        × (take (big_from 0 len) d.buff.cells ++ flat left ≡ flat (chunks c cs))
  receive_request-write junk blank head c magic type offset len cs tail size m t o l m_at t_at o_at
        l_at is_magic is_write other enough =
      let r = nbd.request head in
      let magics : r.magic ≡ ntohl nbd.request_magic =
        m_at ∙ sym (ntohl-big_from magic m) ∙ ap ntohl is_magic in
      let types : ntohl r.type ≡ nbd.cmd_write = ap ntohl t_at ∙ ntohl-IsOctets type t ∙ is_write in
      let offsets : ntohll r.from ≡ big_from 0 offset = ap ntohll o_at ∙ ntohll-IsOctets offset o in
      let lens : ntohl r.len ≡ big_from 0 len = ap ntohl l_at ∙ ntohl-IsOctets len l in
      let (d, left, came, fields, payload) =
        receive_request-decoded junk blank head c cs tail size magics types other
          (rw lens enough) in
      let shape : record d { buff = blank.buff } ≡ asked blank r.handle offset len =
        fields ∙ rw (offsets, lens) refl in
      let many : d.len ≡ big_from 0 len = ap (λ x. x.len) shape in
      (
        d,
        left,
        came,
        shape,
        subst (λ k. take k d.buff.cells ++ flat left ≡ flat (chunks c cs)) many payload,
      )

  -- With calls of `write` enough (as many as the struct and the length have bytes), each of which
  -- takes a byte at least, the reply stands on the wire in one piece: the struct of the number of
  -- replies in network order, of the status and of the handle, and behind it, for a read and for no
  -- other request, as many bytes as were asked for, which the buffer of a read must hold.
  pub send_reply-answer :
      (ns : List ℕ) (d : DriverData)
      → All (λ n. 0 < n) ns
      → (is_read d.key ≡ true → d.len ≤ length d.buff.cells)
      → length (struct_of nbd d) + d.len ≤ length ns
      → (left : List ℕ) × (send_reply nbd (map some ns) d
          ≡ done (
            struct_of nbd d ++ (if is_read d.key then take d.len d.buff.cells else []),
            map some left,
          ))
  unfolding send_reply init_reply
  send_reply-answer ns d p full many =
      let (left, head, p', more) = write_all-positive ns (struct_of nbd d) p (omega arith) in
      let size = length-take d.len d.buff.cells in
      let (left', body, _, _) =
        write_all-positive left (take d.len d.buff.cells) p' (omega arith) in
      elim (Bool-cases (is_read d.key)) [
        | inl reads ↦ (left', rw (head, reads, le→leb _ _ (full reads), body) refl)
        | inr plain ↦ (left, rw (head, plain, append-nil (struct_of nbd d)) refl)
      ]
