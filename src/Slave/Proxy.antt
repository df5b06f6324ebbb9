-- ===== src/Slave/Proxy.antt =====
-- `SlaveDriverProxy` of src/slave_driver_proxy.cpp.
use greencloud.Base.{
  ℕ, ◌+◌, ◌%◌, ◌^◌, [], ◌∷◌, ◌++◌, Bytes, Option, none, some, Outcome, done, fails, ◌>>=◌, ◌>>◌,
  guard, undefined, length, take, drop, poke, leb, if◌then◌else◌,
}
use greencloud.Base.Int.{int32, ℤ}
use greencloud.Data.{DriverData, FactoryKey, of_digit, is_read, is_write, reserve, empty}
use greencloud.Wire.Decimal.{show, show_int, strtoul}
use greencloud.Wire.Text.{zeros, put, split_string, next_parse}

abbrev pub buff_size : ℕ
buff_size = 4136

-- `m_socket` is `none` where the code has -1. `servaddr` is the address of the master, which each
-- datagram that comes in overwrites by its sender.
pub record SlaveDriverProxy : Type 0 where
  pub socket : Option ℕ
  pub servaddr : ℕ

-- The constructor, on what `socket` gives and on the address that `inet_aton` and `htons` make; a
-- failed `socket` is only reported.
unfoldable pub create : Option ℕ → ℕ → SlaveDriverProxy
create socket address = record { socket = socket; servaddr = address }

-- `GetSizeT`, `GetUint` and `GetInt` read the number at the start of a text and go on behind the
-- next `;` of that text, not behind the number.
unfoldable pub get_size_t : Bytes → Outcome (ℕ × Bytes)
get_size_t src = do rest ← next_parse src; done ((strtoul src).0, rest)

unfoldable pub get_uint : Bytes → Outcome (ℕ × Bytes)
get_uint src = do rest ← next_parse src; done ((strtoul src).0 % 2 ^ 32, rest)

unfoldable pub get_int : Bytes → Outcome (ℤ × Bytes)
get_int src = do rest ← next_parse src; done (int32 (strtoul src).0, rest)

-- One character for the key; it is skipped with the `;` and the terminator behind it.
unfoldable pub get_req_key : Bytes → Outcome (FactoryKey × Bytes)
get_req_key [] = fails undefined
get_req_key (c ∷ s) = do guard (leb 2 (length s)) undefined; done (of_digit c, drop 2 s)

-- `strcpy` into the memory of a vector.
unfoldable pub copy_string : Bytes → Bytes → Outcome Bytes
copy_string cells src = do (text, _) ← split_string src; put cells 0 (text ++ 0 ∷ [])

-- What `recvfrom` leaves in the zeroed buffer: a datagram cut at `BUFF_SIZE`, or nothing on an
-- error, which is reported and ignored.
unfoldable pub received : Option (Bytes × ℕ) → Bytes
received none = zeros (buff_size + 1)
received (some (datagram, from)) = poke (zeros (buff_size + 1)) 0 (take buff_size datagram)

abbrev pub sender : SlaveDriverProxy → Option (Bytes × ℕ) → SlaveDriverProxy
sender p none = p
sender p (some (datagram, from)) = record p { servaddr = from }

-- The fields that the parser does not set keep what `new` left there, `blank`.
unfoldable pub parse_request : (ℕ → ℕ) → DriverData → Bytes → Outcome DriverData
parse_request junk blank buf = do
  (offset, r₁) ← get_size_t buf
  (len, r₂) ← get_uint r₁
  (id, r₃) ← get_int r₂
  (key, r₄) ← get_req_key r₃
  let ret = record blank { offset = offset; len = len; req_id = id; key = key; buff = empty }
  if is_write key
      then (do
        cells ← copy_string (reserve junk (buff_size + 1) empty).cells r₄
        done (record ret { buff = record { size = 0; cells = cells } }))
      else done ret

unfoldable pub receive_request :
    (ℕ → ℕ)
    → DriverData
    → SlaveDriverProxy
    → Option (Bytes × ℕ)
    → Outcome (SlaveDriverProxy × DriverData)
receive_request junk blank p arrival = do
  d ← parse_request junk blank (received arrival)
  done (sender p arrival, d)

-- `AddInt`: a text and a `;` at a position, and the position behind them.
unfoldable pub add_int : Bytes → ℕ → Bytes → Outcome (Bytes × ℕ)
add_int buf at src = do buf' ← put buf at (src ++ b';' ∷ []); done (buf', at + length src + 1)

-- `AddRequestType`: every key but `READ` is sent as a write.
unfoldable pub add_request_type : Bytes → ℕ → FactoryKey → Outcome (Bytes × ℕ)
add_request_type buf at key = do
  buf' ← put buf at ((if is_read key then b'0' else b'1') ∷ b';' ∷ [])
  done (buf', at + 2)

-- `AddMessage` copies a string without its terminator.
unfoldable pub add_message : Bytes → ℕ → Bytes → Outcome Bytes
add_message buf at src = do (text, _) ← split_string src; put buf at text

-- The datagram that `SendReply` hands to `sendto`, whose failure is only reported.
unfoldable pub send_reply : DriverData → Outcome Bytes
send_reply d = do
  (buf₁, at₁) ← add_int (zeros (buff_size + 1)) 0 (show d.len)
  (buf₂, at₂) ← add_int buf₁ at₁ (show_int d.req_id)
  (buf₃, at₃) ← add_request_type buf₂ at₂ d.key
  buf₄ ← put buf₃ at₃ (0 ∷ [])
  if is_read d.key then add_message buf₄ (at₃ + 1) d.buff.cells else done buf₄

-- `Disconnect` closes the socket and forgets it.
unfoldable pub disconnect : SlaveDriverProxy → SlaveDriverProxy
disconnect p = record p { socket = none }
