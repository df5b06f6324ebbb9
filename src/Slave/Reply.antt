-- ===== src/Slave/Reply.antt =====
-- The datagram of a slave's reply.
use greencloud.Base.{
  ℕ, ◌+◌, ◌-◌, ◌≤◌, ◌<◌, ◌≡◌, refl, ap, ◌∙◌, true, false, [], ◌∷◌, ◌++◌, Bytes, done, length,
  append_assoc, arith, length-append, if◌then◌else◌, sym, fails, undefined,
}
use greencloud.Base.Int.{ℤ}
use greencloud.Data.{DriverData, FactoryKey, is_read}
use greencloud.Wire.Decimal.{show, show_int}
use greencloud.Wire.Text.{
  zeros, put, put-zeros, NoNul, split_string-append, zeros-suc, put_payload, split_string-none,
}
use greencloud.Slave.Proxy.{buff_size, add_int, add_request_type, add_message, send_reply}

-- The text of a reply: the length, the number, and `0` for a read or `1` for anything else.
abbrev pub reply_head : ℕ → ℤ → ℕ → Bytes
reply_head len id type = show len ++ b';' ∷ (show_int id ++ b';' ∷ type ∷ b';' ∷ [])

abbrev pub type_of : FactoryKey → ℕ
type_of key = if is_read key then b'0' else b'1'

add_int-zeros :
    (xs src : Bytes) (at k : ℕ)
    → length xs ≡ at
    → length src + 1 ≤ k
    → add_int (xs ++ zeros k) at src
      ≡ done ((xs ++ (src ++ b';' ∷ [])) ++ zeros (k - (length src + 1)), at + length src + 1)
unfolding add_int
add_int-zeros xs src at k e h =
    let size = length-append src (b';' ∷ []) in
    rw (put-zeros xs (src ++ b';' ∷ []) at k e (omega arith)) (simp (append_assoc, size))

add_request_type-zeros :
    (xs : Bytes) (key : FactoryKey) (at k : ℕ)
    → length xs ≡ at
    → 2 ≤ k
    → add_request_type (xs ++ zeros k) at key
      ≡ done ((xs ++ type_of key ∷ b';' ∷ []) ++ zeros (k - 2), at + 2)
unfolding add_request_type
add_request_type-zeros xs key at k e h =
    rw (put-zeros xs (type_of key ∷ b';' ∷ []) at k e (omega arith)) (simp append_assoc)

put-zero :
    (xs : Bytes) (at k : ℕ)
    → length xs ≡ at
    → 0 < k
    → put (xs ++ zeros k) at (0 ∷ []) ≡ done (xs ++ zeros k)
put-zero xs at k e h =
    put-zeros xs (0 ∷ []) at k e h
    ∙ ap (λ z. done (xs ++ z)) (sym (zeros-suc (k - 1)) ∙ ap zeros (omega arith))

-- The room behind the text of a reply.
abbrev pub room : ℕ → ℤ → ℕ
room len id = buff_size + 1 - (length (show len) + 1) - (length (show_int id) + 1) - 2

-- What stands in the buffer before the message is added.
text_lem :
    (d : DriverData)
    → length (show d.len) + length (show_int d.req_id) + 5 ≤ buff_size
    → send_reply d ≡ (
        if is_read d.key
        then add_message
            (reply_head d.len d.req_id (type_of d.key) ++ zeros (room d.len d.req_id))
            (length (reply_head d.len d.req_id (type_of d.key)) + 1)
            d.buff.cells
        else done (reply_head d.len d.req_id (type_of d.key) ++ zeros (room d.len d.req_id)))
unfolding send_reply
text_lem d fits =
    let xs₁ = show d.len ++ b';' ∷ [] in
    let xs₂ = xs₁ ++ (show_int d.req_id ++ b';' ∷ []) in
    let xs₃ = xs₂ ++ type_of d.key ∷ b';' ∷ [] in
    let k₁ = buff_size + 1 - (length (show d.len) + 1) in
    let k₂ = k₁ - (length (show_int d.req_id) + 1) in
    let at₁ = 0 + length (show d.len) + 1 in
    let at₂ = at₁ + length (show_int d.req_id) + 1 in
    let size₁ : length xs₁ ≡ at₁ = omega (arith, length-append (show d.len) (b';' ∷ [])) in
    let size₂ : length xs₂ ≡ at₂ = omega (
      arith,
      length-append xs₁ (show_int d.req_id ++ b';' ∷ []),
      length-append (show_int d.req_id) (b';' ∷ []),
    ) in
    let size₃ : length xs₃ ≡ at₂ + 2 =
      omega (arith, length-append xs₂ (type_of d.key ∷ b';' ∷ [])) in
    let whole : xs₃ ≡ reply_head d.len d.req_id (type_of d.key) = simp append_assoc in
    rw
      (
        add_int-zeros [] (show d.len) 0 (buff_size + 1) refl (omega arith),
        add_int-zeros xs₁ (show_int d.req_id) at₁ k₁ size₁ (omega arith),
        add_request_type-zeros xs₂ d.key at₂ k₂ size₂ (omega arith),
        put-zero xs₃ (at₂ + 2) (k₂ - 2) size₃ (omega arith),
        ← size₃,
        whole,
      )
      refl

-- The head of a reply leaves room in the buffer.
abbrev pub HeadFits : DriverData → Type 0
HeadFits d = length (show d.len) + length (show_int d.req_id) + 5 ≤ buff_size

-- The reply to anything but a read is its head.
pub send_reply-head :
    (d : DriverData)
    → is_read d.key ≡ false
    → HeadFits d
    → send_reply d ≡ done (reply_head d.len d.req_id b'1' ++ zeros (room d.len d.req_id))
send_reply-head d other fits = text_lem d fits ∙ rw other refl

-- The reply to a read is its head, a terminator, and the bytes read, up to the first zero among
-- them.
pub send_reply-text :
    (d : DriverData) (text more : Bytes)
    → is_read d.key ≡ true
    → HeadFits d
    → d.buff.cells ≡ text ++ 0 ∷ more
    → NoNul text
    → length text < room d.len d.req_id
    → send_reply d
      ≡ done (
          reply_head d.len d.req_id b'0'
          ++ 0 ∷ (text ++ zeros (room d.len d.req_id - 1 - length text)))
unfolding add_message
send_reply-text d text more reads fits cells plain small =
    let k = room d.len d.req_id - 1 in
    let one : zeros (room d.len d.req_id) ≡ 0 ∷ zeros k = ap zeros (omega arith) ∙ zeros-suc k in
    text_lem d fits
    ∙ rw (reads, one, cells, split_string-append text more plain)
        (put_payload (reply_head d.len d.req_id b'0') text k (omega arith))

-- Bytes with no zero among them have no terminator, and the copy runs past their end.
pub send_reply-endless :
    (d : DriverData)
    → is_read d.key ≡ true
    → HeadFits d
    → NoNul d.buff.cells
    → send_reply d ≡ fails undefined
unfolding add_message
send_reply-endless d reads fits plain =
    text_lem d fits ∙ rw (reads, split_string-none d.buff.cells plain) refl
