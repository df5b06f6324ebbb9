-- ===== src/Nbd/Driver.antt =====
-- `NBDDriverProxy::ReceiveRequest`, `InitReaply` and `SendReply` of src/nbd_driver_proxy.cpp, and
-- the tasks of include/nbd_tasks.hpp that call them.
use greencloud.Base.{
  ℕ, ◌==◌, ◌++◌, Bytes, Outcome, done, ◌>>=◌, ◌>>◌, guard, bad_magic, undefined, length, take, poke,
  leb, if◌then◌else◌, replicate,
}
use greencloud.Data.{DriverData, is_read, reserve, empty}
use greencloud.Data.Keys
use greencloud.Nbd.Order.{ntohl, ntohll}
use greencloud.Nbd.Stream.{Arrivals, Accepts, read_some, read_all, write_all}

-- `struct nbd_request` and `struct nbd_reply`, the numbers as the machine reads them from memory.
pub record Request : Type 0 where
  pub magic : ℕ
  pub type : ℕ
  pub handle : Bytes
  pub from : ℕ
  pub len : ℕ

pub record Reply : Type 0 where
  pub magic : ℕ
  pub error : ℕ
  pub handle : Bytes

-- What linux/nbd.h declares: the sizes and layouts of the two structs, the magic numbers and the
-- codes of the commands.
pub record Protocol : Type 0 where
  pub request_size : ℕ
  pub request : Bytes → Request
  pub reply : Reply → Bytes
  pub request_magic : ℕ
  pub reply_magic : ℕ
  pub cmd_read : ℕ
  pub cmd_write : ℕ
  pub cmd_disc : ℕ
  pub cmd_flush : ℕ
  pub cmd_trim : ℕ

module _ (nbd : Protocol) where
  -- The `switch` on the type. The fields that a case does not set keep what `new` left there, in
  -- `ret`.
  unfoldable pub decode :
      (ℕ → ℕ) → DriverData → Request → Arrivals → Outcome (DriverData × Arrivals)
  decode junk ret request stream =
      let type = ntohl request.type in
      let len = ntohl request.len in
      let from = ntohll request.from in
      if type == nbd.cmd_read
      then done (record ret { offset = from; len = len; key = Keys.read }, stream)
      else (if type == nbd.cmd_write
          then (do
            (cells, rest) ← read_all stream len
            let memory = poke (reserve junk len empty).cells 0 cells
            done (
              record ret {
                offset = from;
                len = len;
                key = Keys.write;
                buff = record { size = 0; cells = memory };
              },
              rest,
            ))
          else (if type == nbd.cmd_disc
              then done (record ret { key = Keys.disconnect }, stream)
              else (if type == nbd.cmd_flush
                  then done (record ret { key = Keys.flush }, stream)
                  else (if type == nbd.cmd_trim
                      then done (record ret { key = Keys.trim }, stream)
                      else done (record ret { key = Keys.bad_request }, stream)))))

  -- One `read` is to bring the whole struct; a shorter one is not noticed, and leaves the zeros of
  -- `memset` behind it.
  unfoldable pub receive_request : (ℕ → ℕ) → DriverData → Arrivals → Outcome (DriverData × Arrivals)
  unfolding decode
  receive_request junk blank stream = do
    (head, rest) ← read_some stream nbd.request_size
    let request = nbd.request (poke (replicate nbd.request_size 0) 0 head)
    guard (request.magic == ntohl nbd.request_magic) (bad_magic request.magic)
    decode junk (record blank { handler = request.handle; status = 0; buff = empty }) request rest

  unfoldable pub init_reply : ℕ → Bytes → Bytes
  init_reply status handler =
      nbd.reply (record { magic = ntohl nbd.reply_magic; error = status; handle = handler })

  -- The two calls of `WriteAll` run under `m_mutex`: what they write stands on the wire in one
  -- piece.
  unfoldable pub send_reply : Accepts → DriverData → Outcome (Bytes × Accepts)
  unfolding init_reply
  send_reply ws d = do
    (head, ws') ← write_all ws (init_reply d.status d.handler)
    if is_read d.key
        then (do
          guard (leb d.len (length d.buff.cells)) undefined
          (body, ws″) ← write_all ws' (take d.len d.buff.cells)
          done (head ++ body, ws″))
        else done (head, ws')
