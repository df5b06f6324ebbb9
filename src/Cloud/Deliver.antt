-- ===== src/Cloud/Deliver.antt =====
-- The datagram of a request: when it fits, and what the slave reads from it.
use greencloud.Base.{
  ℕ, ◌+◌, ◌-◌, ◌^◌, ◌≤◌, ◌<◌, ◌≡◌, refl, ◌∙◌, [], ◌∷◌, ◌++◌, Bytes, done, fails, undefined, length,
  append_assoc, lt→leb, length-append, arith, All-append,
}
use greencloud.Base.Int.{ℤ, pos}
use greencloud.Wire.Decimal.{show, show_int}
use greencloud.Wire.Decimal.Shape.{show-IsPlain, show_int-IsPlain, length-show-le}
use greencloud.Wire.Text.{
  zeros, length-zeros, put, put-zeros, NoNul, split_string-append, put_payload,
}
use greencloud.Slave.Parse.{All-plain}
use greencloud.Cloud.Slaves.Handshake.{buff_size}
use greencloud.Cloud.Send.{header, message}

pub header-NoNul : (off len : ℕ) (id : ℤ) (type : ℕ) → 0 < type → NoNul (header off len id type)
header-NoNul off len id type h =
    All-append _ (show off) _ (All-plain (show off) (show-IsPlain off)).0 (
      omega arith,
      All-append _ (show len) _ (All-plain (show len) (show-IsPlain len)).0 (
        omega arith,
        All-append _ (show_int id) _ (All-plain (show_int id) (show_int-IsPlain id)).0
            (omega arith, (h, (omega arith, tt))),
      ),
    )

pub length-header :
    (off len : ℕ) (id : ℤ) (type : ℕ)
    → length (header off len id type)
      ≡ length (show off) + length (show len) + length (show_int id) + 5
length-header off len id type = omega (
  arith,
  length-append (show off) (b';' ∷ (show len ++ b';' ∷ (show_int id ++ b';' ∷ type ∷ b';' ∷ []))),
  length-append (show len) (b';' ∷ (show_int id ++ b';' ∷ type ∷ b';' ∷ [])),
  length-append (show_int id) (b';' ∷ type ∷ b';' ∷ []),
)

-- The text, its terminator, the payload, and zeros to the end of the buffer.
abbrev pub framed : Bytes → Bytes → Bytes
framed text payload =
    text ++ 0 ∷ (payload ++ zeros (buff_size - (length text + 1) - length payload))

pub put_text :
    (text : Bytes)
    → length text + 1 ≤ buff_size
    → put (zeros buff_size) 0 (text ++ 0 ∷ [])
      ≡ done (text ++ 0 ∷ zeros (buff_size - (length text + 1)))
put_text text fits =
    put-zeros [] (text ++ 0 ∷ []) 0 buff_size refl (omega (arith, length-append text (0 ∷ [])))
    ∙ rw (append_assoc, length-append text (0 ∷ [])) refl

pub message_lem :
    (text payload : Bytes)
    → NoNul text
    → length text + 1 + length payload ≤ buff_size
    → message text payload ≡ done (framed text payload)
unfolding message
message_lem text payload plain fits =
    rw (put_text text (omega arith), split_string-append text _ plain)
      (put_payload text payload (buff_size - (length text + 1)) (omega arith))

put_over : (buf bs : Bytes) (at : ℕ) → length buf < at + length bs → put buf at bs ≡ fails undefined
unfolding put
put_over buf bs at h = rw (lt→leb (at + length bs) (length buf) h) refl

-- A message too long for the buffer is written past its end.
pub message_overflow :
    (text payload : Bytes)
    → NoNul text
    → length text + 1 ≤ buff_size
    → buff_size < length text + 1 + length payload
    → message text payload ≡ fails undefined
unfolding message
message_overflow text payload plain fits over =
    rw (put_text text fits, split_string-append text _ plain)
      (put_over (text ++ 0 ∷ zeros room) payload (length text + 1)
        (omega (arith, length-append text (0 ∷ zeros room), length-zeros room)))
  where
    room : ℕ
    room = buff_size - (length text + 1)

pub length-framed :
    (text payload : Bytes)
    → length text + 1 + length payload ≤ buff_size
    → length (framed text payload) ≡ buff_size
length-framed text payload fits = omega (
  arith,
  length-append text (0 ∷ (payload ++ zeros room)),
  length-append payload (zeros room),
  length-zeros room,
)
  where
    room : ℕ
    room = buff_size - (length text + 1) - length payload

-- Twenty digits of a 64-bit offset, ten of a 32-bit length and of a number: a header has at most 45
-- bytes, and at most 39 where the length has four digits.
pub length-header-le :
    (off len id digits : ℕ)
    → off < 2 ^ 64
    → 0 < digits
    → len < 10 ^ digits
    → id < 2 ^ 31
    → length (header off len (pos id) b'1') ≤ 35 + digits
length-header-le off len id digits ho hd hl hi = omega (
  arith,
  length-header off len (pos id) b'1',
  length-show-le 20 off (omega arith) (omega arith),
  length-show-le digits len hd hl,
  show_id,
)
  where
    show_id : length (show_int (pos id)) ≤ 10
    show_id = unfold show_int in length-show-le 10 id (omega arith) (omega arith)
