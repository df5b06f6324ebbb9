-- ===== src/Programs/Serial.antt =====
-- release/greencloud.0.1.cpp, which serves one request after the other: `ThreadFunc`,
-- `HundelInputFD` and `RunGreenCloude`, over any storage and any driver. The type of a request is
-- its key.
pub mod Device
use greencloud.Base.{
  ℕ, Bool, true, false, List, [], ◌∷◌, Bytes, Option, none, some, Outcome, done, fails, ◌>>=◌,
  runtime_error, epoll_error, hangs, if◌then◌else◌, ◌==◌,
}
use greencloud.Data.{DriverData, FactoryKey}
use greencloud.Data.Keys
use greencloud.Storage.Iface.{BlockStore}

-- What one wait gives: an error, or a descriptor that is ready, with what is read from it: standard
-- input, an error or bytes behind what stands in the buffer, or the driver.
pub data Event : Type 0 where
  error : ℕ → Event
  input : ℕ → Option Bytes → Event
  request : Outcome DriverData → Event

-- `s_run_loop`.
pub data RunLoop : Type 0 where
  run : RunLoop
  stop : RunLoop

abbrev pub runs : RunLoop → Bool
runs run = true
runs stop = false

-- The memory that allocations hand out, and what `Disconnect` and `SendReply` of the driver come
-- to.
pub record Setting : Type 0 where
  pub junk : ℕ → ℕ
  pub disconnect : Outcome (Unit {0})
  pub send_reply : DriverData → Outcome (Unit {0})

-- `HundelInputFD`: whether the first byte is `q`.
unfoldable pub handle_input : ℕ → Option Bytes → Outcome Bool
handle_input junk none = fails runtime_error
handle_input junk (some []) = done (junk == 113)
handle_input junk (some (c ∷ cs)) = done (c == 113)

module _ (store : BlockStore) (setting : Setting) where
  open store use {State, write, read}

  -- The storage and the loop's variable; a record of the replies sent, the latest first, and of
  -- whether the driver was disconnected.
  pub record World : Type 0 where
    pub state : State
    pub run_loop : RunLoop
    pub replies : List DriverData
    pub disconnected : Bool

  unfoldable pub reply : DriverData → World → Outcome World
  reply d w = setting.send_reply d >>= λ _. done (record w { replies = d ∷ w.replies })

  unfoldable pub hang_up : World → Outcome World
  hang_up w = setting.disconnect >>= λ _. done (record w { disconnected = true })

  -- `ThreadFunc`, the `switch` on the type.
  unfoldable pub thread_func : FactoryKey → DriverData → World → Outcome World
  unfolding reply hang_up
  thread_func Keys.read d w =
      read setting.junk w.state d >>= λ r. reply r.1 (record w { state = r.0 })
  thread_func Keys.write d w = write w.state d >>= λ r. reply r.1 (record w { state = r.0 })
  thread_func Keys.disconnect d w = hang_up w >>= λ w'. done (record w' { run_loop = stop })
  thread_func _ d w = reply d w

  -- The loop of `RunGreenCloude`, with the events that it leaves; when no more come it waits on.
  unfoldable pub loop : List Event → World → Outcome (World × List Event)
  unfolding thread_func hang_up handle_input
  loop [] w = if runs w.run_loop then fails hangs else done (w, [])
  loop (error n ∷ vs) w = if runs w.run_loop then fails (epoll_error n) else done (w, error n ∷ vs)
  loop (input junk came ∷ vs) w =
      let rest = loop vs w in
      if runs w.run_loop
      then (handle_input junk came >>= λ quits.
          if quits then (hang_up w >>= λ w'. done (w', vs)) else rest)
      else done (w, input junk came ∷ vs)
  loop (request came ∷ vs) w =
      if runs w.run_loop
      then (came >>= λ d. thread_func d.key d w >>= λ w'. loop vs w')
      else done (w, request came ∷ vs)
