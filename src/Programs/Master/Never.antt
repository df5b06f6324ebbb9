-- ===== src/Programs/Master/Never.antt =====
-- No request and no reply that the master reads throws `Badkey`.
use greencloud.Base.{
  ℕ, zero, suc, ◌+◌, ◌-◌, ◌≢◌, List, [], ◌∷◌, Bytes, none, some, fails, bad_key, drop, length, poke,
  replicate, arith, Outcome-cases, inl, inr,
}
use greencloud.Base.Int.{ℤ, int32, bits32}
use greencloud.Data.{DriverData, reserve, empty}
use greencloud.Cloud.Ids.{take_id, id_to_handler}
use greencloud.Cloud.Slaves.{CloudStorage}
use greencloud.Cloud.Reply.{create_data_from_buff}
use greencloud.Wire.Decimal.{strtoul, strtol}
use greencloud.Wire.Text.{put, split_string-ne}
use greencloud.Slave.Proxy.{copy_string, buff_size}
use greencloud.Nbd.Stream.{Arrivals, read_some, read_all}
use greencloud.Nbd.Order.{ntohl}
use greencloud.Nbd.Driver.{Protocol, Request, receive_request, decode}

take_id-ne : (i : ℤ) (t : List (ℤ × Bytes)) → take_id i t ≢ fails bad_key
unfolding take_id
take_id-ne i [] e = absurd (ground arith)
take_id-ne i ((j, h) ∷ t) e = let rest = take_id-ne i t in absurd (ground arith)

read_all-ne : (stream : Arrivals) (k : ℕ) → read_all stream k ≢ fails bad_key
unfolding read_all
read_all-ne [] zero e = absurd (ground arith)
read_all-ne [] (suc k) e = absurd (ground arith)
read_all-ne (x ∷ rest) zero e = absurd (ground arith)
read_all-ne (none ∷ rest) (suc k) e = absurd (ground arith)
read_all-ne (some c ∷ rest) (suc k) e =
    let later = read_all-ne rest (suc k - length c) in absurd (ground arith)

copy_string-ne : (cells s : Bytes) → copy_string cells s ≢ fails bad_key
unfolding copy_string put
copy_string-ne cells s e = let split = split_string-ne s in absurd (ground arith)

pub create_data-ne :
    (junk : ℕ → ℕ) (blank : DriverData) (c : CloudStorage) (src : Bytes)
    → create_data_from_buff junk blank c src ≢ fails bad_key
unfolding create_data_from_buff id_to_handler
create_data-ne junk blank c src e =
    let taken = take_id-ne (int32 (bits32 (strtol (drop 1 (strtoul src).1)).0)) c.ids.table in
    let copied =
      copy_string-ne (reserve junk (buff_size + 1) empty).cells
        (drop 4 (strtol (drop 1 (strtoul src).1)).1) in
    absurd (ground arith)

decode-ne :
    (nbd : Protocol) (junk : ℕ → ℕ) (ret : DriverData) (r : Request) (stream : Arrivals)
    → decode nbd junk ret r stream ≢ fails bad_key
unfolding decode
decode-ne nbd junk ret r stream e =
    let body = read_all-ne stream (ntohl r.len) in absurd (ground arith)

read_some-ne : (stream : Arrivals) (k : ℕ) → read_some stream k ≢ fails bad_key
unfolding read_some
read_some-ne [] k e = absurd (ground arith)
read_some-ne (none ∷ rest) k e = absurd (ground arith)
read_some-ne (some c ∷ rest) k e = absurd (ground arith)

pub receive_request-ne :
    (nbd : Protocol) (junk : ℕ → ℕ) (blank : DriverData) (stream : Arrivals)
    → receive_request nbd junk blank stream ≢ fails bad_key
unfolding receive_request
receive_request-ne nbd junk blank stream e =
    elim (Outcome-cases (read_some stream nbd.request_size)) [
      | inl ((head, left), came) ↦
          let r : Request = nbd.request (poke (replicate nbd.request_size 0) 0 head) in
          let ret : DriverData = record blank { handler = r.handle; status = 0; buff = empty } in
          let decoded = decode-ne nbd junk ret r left in absurd (ground arith)
      | inr (x, failed) ↦ let never = read_some-ne stream nbd.request_size in absurd (ground arith)
    ]
