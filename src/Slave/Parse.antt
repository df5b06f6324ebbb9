-- ===== src/Slave/Parse.antt =====
-- What the slave's parser makes of a well-formed request.
use greencloud.Base.{
  ℕ, ◌+◌, ◌%◌, ◌^◌, ◌≤◌, ◌<◌, ◌≡◌, refl, ap, [], ◌∷◌, ◌++◌, Bytes, done, length, poke, le→leb,
  length-append, arith, All,
}
use greencloud.Base.Int.{ℤ}
use greencloud.Data.{DriverData, reserve, reserve-empty, empty, length-fresh, of_digit}
use greencloud.Data.Keys.{write, read}
use greencloud.Wire.Decimal.{show, show_int}
use greencloud.Wire.Decimal.RoundTrip.{IsInt, strtoul-show, strtoul-show_int}
use greencloud.Wire.Decimal.Shape.{IsPlain, show-IsPlain, show_int-IsPlain}
use greencloud.Wire.Text.{
  NoNul, NoSemicolon, next_parse, next_parse-append, split_string-append, put,
}
use greencloud.Slave.Proxy.{
  buff_size, get_size_t, get_uint, get_int, get_req_key, copy_string, parse_request,
}

pub All-plain : (xs : Bytes) → All IsPlain xs → NoNul xs × NoSemicolon xs
All-plain [] h = (tt, tt)
All-plain (x ∷ xs) (hx, h) = let (a, b) = All-plain xs h in ((hx.0, a), (hx.1, b))

next_parse-show : (n : ℕ) (r : Bytes) → next_parse (show n ++ b';' ∷ r) ≡ done r
next_parse-show n r = next_parse-append (show n) r (All-plain (show n) (show-IsPlain n)).1

get_size_t-show : (n : ℕ) (r : Bytes) → n < 2 ^ 64 → get_size_t (show n ++ b';' ∷ r) ≡ done (n, r)
unfolding get_size_t
get_size_t-show n r h = rw (next_parse-show n r, strtoul-show n (b';' ∷ r) h refl) refl

get_uint-show : (n : ℕ) (r : Bytes) → n < 2 ^ 32 → get_uint (show n ++ b';' ∷ r) ≡ done (n, r)
unfolding get_uint
get_uint-show n r h =
    let small : n % 2 ^ 32 ≡ n = omega arith in
    rw (next_parse-show n r, strtoul-show n (b';' ∷ r) (omega arith) refl) (rw small refl)

get_int-show_int : (i : ℤ) (r : Bytes) → IsInt i → get_int (show_int i ++ b';' ∷ r) ≡ done (i, r)
unfolding get_int
get_int-show_int i r h =
    rw
      (
        next_parse-append (show_int i) r (All-plain (show_int i) (show_int-IsPlain i)).1,
        (strtoul-show_int i (b';' ∷ r) h refl).0,
      )
      refl

get_req_key-digit : (c : ℕ) (r : Bytes) → get_req_key (c ∷ b';' ∷ 0 ∷ r) ≡ done (of_digit c, r)
unfolding get_req_key
get_req_key-digit c r = ground arith

pub copy_string-append :
    (cells text ys : Bytes)
    → NoNul text
    → length text + 1 ≤ length cells
    → copy_string cells (text ++ 0 ∷ ys) ≡ done (poke cells 0 (text ++ 0 ∷ []))
unfolding copy_string put
copy_string-append cells text ys plain fits =
    rw
      (
        split_string-append text ys plain,
        le→leb (0 + length (text ++ 0 ∷ [])) (length cells)
            (omega (arith, length-append text (0 ∷ []))),
      )
      refl

-- A write request, with the payload as a string behind the header.
pub parse_request-write :
    (junk : ℕ → ℕ) (blank : DriverData) (off len : ℕ) (id : ℤ) (payload more : Bytes)
    → off < 2 ^ 64
    → len < 2 ^ 32
    → IsInt id
    → NoNul payload
    → length payload ≤ buff_size
    → parse_request junk blank (
        show off
        ++ b';'
          ∷ (show len ++ b';' ∷ (show_int id ++ b';' ∷ b'1' ∷ b';' ∷ 0 ∷ (payload ++ 0 ∷ more))))
      ≡ done (record blank {
        offset = off;
        len = len;
        req_id = id;
        key = write;
        buff = record {
          size = 0;
          cells = poke (reserve junk (buff_size + 1) empty).cells 0 (payload ++ 0 ∷ []);
        };
      })
unfolding parse_request
parse_request-write junk blank off len id payload more ho hl hi plain fits =
    rw
      (
        get_size_t-show off _ ho,
        get_uint-show len _ hl,
        get_int-show_int id _ hi,
        get_req_key-digit b'1' (payload ++ 0 ∷ more),
        copy_string-append (reserve junk (buff_size + 1) empty).cells payload more plain (
            omega (
              arith,
              ap length (reserve-empty junk (buff_size + 1)),
              length-fresh junk (buff_size + 1),
            )),
      )
      refl

-- A read request.
pub parse_request-read :
    (junk : ℕ → ℕ) (blank : DriverData) (off len : ℕ) (id : ℤ) (more : Bytes)
    → off < 2 ^ 64
    → len < 2 ^ 32
    → IsInt id
    → parse_request junk blank
        (show off ++ b';' ∷ (show len ++ b';' ∷ (show_int id ++ b';' ∷ b'0' ∷ b';' ∷ 0 ∷ more)))
      ≡ done (record blank { offset = off; len = len; req_id = id; key = read; buff = empty })
unfolding parse_request
parse_request-read junk blank off len id more ho hl hi =
    rw
      (
        get_size_t-show off _ ho,
        get_uint-show len _ hl,
        get_int-show_int id _ hi,
        get_req_key-digit b'0' more,
      )
      refl
