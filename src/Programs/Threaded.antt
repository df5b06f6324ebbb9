-- ===== src/Programs/Threaded.antt =====
-- release/greencloud.0.1.5.cpp, which serves each request in a detached thread of its own:
-- `ThreadFunc` and `RunGreenCloude`, over any storage and any driver. The storage does one
-- operation at a time under its mutex, and so does the driver send one reply at a time.
pub mod Picks
pub mod Commuting
pub mod Scheduled
pub mod Drained
pub mod Main
mod Tests
use greencloud.Base.{
  ℕ, zero, suc, Bool, true, false, List, [], ◌∷◌, ◌++◌, Option, none, some, Outcome, done, fails,
  ◌>>=◌, epoll_error, if◌then◌else◌,
}
use greencloud.Data.{DriverData, FactoryKey, is_disconnect}
use greencloud.Data.Keys
use greencloud.Storage.Iface.{BlockStore}
use greencloud.Programs.Serial.{Event, input, request, Setting, handle_input}

-- What happens next: the main thread wakes up, one of the threads that were started does the
-- storage's part of its request, or one of those that did sends its reply.
pub data Move : Type 0 where
  event : Event → Move
  serves : ℕ → Move
  sends : ℕ → Move

-- An element of a list, and the others; none at a number that there is not.
abbrev pub pick {ℓ} : {A : Type ℓ} → ℕ → List A → Option (A × List A)
pick k [] = none
pick zero (x ∷ xs) = some (x, xs)
pick (suc k) (x ∷ xs) = elim (pick k xs) [ none ↦ none | some (y, ys) ↦ some (y, x ∷ ys) ]

module _ (store : BlockStore) (setting : Setting) where
  open store use {State, write, read}

  -- The storage; the data of the threads that have not been at it, and of those that have not
  -- replied; the replies sent, the latest first; whether the driver was disconnected, and whether
  -- the main thread's loop is over, which ends the process and with it all threads.
  pub record World : Type 0 where
    pub state : State
    pub given : List DriverData
    pub served : List DriverData
    pub replies : List DriverData
    pub disconnected : Bool
    pub over : Bool

  -- `ThreadFunc`, the `switch` on the type: the data to be sent, if the thread does not end there.
  unfoldable pub operate : FactoryKey → DriverData → State → Outcome (State × Option DriverData)
  operate Keys.read d s = read setting.junk s d >>= λ r. done (r.0, some r.1)
  operate Keys.write d s = write s d >>= λ r. done (r.0, some r.1)
  operate Keys.disconnect d s = done (s, none)
  operate _ d s = done (s, some d)

  abbrev pub waiting : Option DriverData → List DriverData → List DriverData
  waiting none ds = ds
  waiting (some d) ds = d ∷ ds

  -- A thread whose storage operation is done waits for the driver.
  unfoldable pub serve : ℕ → World → Outcome World
  unfolding operate
  serve k w = elim (pick k w.given) [
    | none ↦ done w
    | some (d, ds) ↦ operate d.key d w.state >>= λ r.
        done (record w { state = r.0; given = ds; served = waiting r.1 w.served })
  ]

  -- `driver->SendReply(std::move(data))`.
  unfoldable pub send : ℕ → World → Outcome World
  send k w = elim (pick k w.served) [
    | none ↦ done w
    | some (d, ds) ↦
        setting.send_reply d >>= λ _. done (record w { served = ds; replies = d ∷ w.replies })
  ]

  unfoldable pub hang_up : World → Outcome World
  hang_up w = setting.disconnect >>= λ _. done (record w { disconnected = true; over = true })

  -- One turn of the loop of `RunGreenCloude`.
  unfoldable pub wake : Event → World → Outcome World
  unfolding handle_input hang_up
  wake (Event.error n) w = fails (epoll_error n)
  wake (input junk came) w = handle_input junk came >>= λ quits. if quits then hang_up w else done w
  wake (request came) w = came >>= λ d.
      if is_disconnect d.key then hang_up w else done (record w { given = w.given ++ d ∷ [] })

  unfoldable pub turn : Move → World → Outcome World
  unfolding wake serve send
  turn (event v) w = wake v w
  turn (serves k) w = serve k w
  turn (sends k) w = send k w

  unfoldable pub step : Move → World → Outcome World
  unfolding turn
  step m w = if w.over then done w else turn m w

  unfoldable pub run : List Move → World → Outcome World
  unfolding step
  run [] w = done w
  run (m ∷ ms) w = step m w >>= run ms
