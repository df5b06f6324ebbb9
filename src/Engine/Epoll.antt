-- ===== src/Engine/Epoll.antt =====
-- src/epoll.cpp and include/epoll.hpp, and what the engine's loop makes of it. What the kernel
-- answers is an argument.
use greencloud.Base.{
  ℕ, suc, ◌≤◌, ◌≡◌, refl, List, [], ◌∷◌, ◌++◌, Option, none, some, Outcome, done, fails, ◌>>=◌,
  false, epoll_error, undefined, or_fail, length, drop, replicate, get_elem?, if◌then◌else◌, ◌==◌,
  arith, length-append, length-drop,
}
use greencloud.Engine.Loop.{Event, error, time_out, ready}

-- The descriptors in `m_events`, which `WaitTimeOut` fills from the front, and those that are
-- watched, the latest first.
pub record Epoll : Type 0 where
  pub events : List ℕ
  pub watched : List ℕ

-- The answer of `epoll_wait`: a number of an error, or the descriptors that are ready.
pub data Answer : Type 0 where
  refuses : ℕ → Answer
  gives : List ℕ → Answer

-- The constructor, on the error of `epoll_create1`, if any.
unfoldable pub create : Option ℕ → ℕ → Outcome Epoll
create (some errno) max_events = fails (epoll_error errno)
create none max_events = done (record { events = replicate max_events 0; watched = [] })

-- `Add` and `Remove`, on the error of `epoll_ctl`, if any.
unfoldable pub add : Option ℕ → ℕ → Epoll → Outcome Epoll
add (some errno) fd m = fails (epoll_error errno)
add none fd m = done (record m { watched = fd ∷ m.watched })

abbrev without : ℕ → List ℕ → List ℕ
without fd [] = []
without fd (x ∷ xs) = let rest = without fd xs in if x == fd then rest else x ∷ rest

unfoldable pub remove : Option ℕ → ℕ → Epoll → Outcome Epoll
remove (some errno) fd m = fails (epoll_error errno)
remove none fd m = done (record m { watched = without fd m.watched })

-- `WaitTimeOut`, and `Wait`, to which the kernel never gives no descriptor.
unfoldable pub wait_time_out : Answer → Epoll → Outcome (Epoll × ℕ)
wait_time_out (refuses errno) m = fails (epoll_error errno)
wait_time_out (gives fds) m =
    done (record m { events = fds ++ drop (length fds) m.events }, length fds)

-- `operator[]`.
unfoldable pub at_index : Epoll → ℕ → Outcome ℕ
at_index m index = or_fail (get_elem? m.events index) undefined

-- What `RequestEngine::Run` learns from one wait: the first descriptor, if the wait did not time
-- out.
unfoldable pub next : Answer → Epoll → Outcome (Epoll × Event)
unfolding wait_time_out at_index
next a m = wait_time_out a m >>= λ r.
    if r.1 == 0 then done (r.0, time_out) else (at_index r.0 0 >>= λ fd. done (r.0, ready fd))

-- The kernel gives at most as many as it was asked for.
abbrev pub Answers : ℕ → Answer → Type 0
Answers n (refuses errno) = Unit
Answers n (gives fds) = length fds ≤ n

abbrev pub event_of : Answer → Event
event_of (refuses errno) = error errno
event_of (gives []) = time_out
event_of (gives (fd ∷ fds)) = ready fd

-- A wait of the engine comes to what its loop takes for an event, and leaves the monitor as large
-- as it was.
pub next-event_of :
    (fds : List ℕ) (m : Epoll)
    → Answers (length m.events) (gives fds)
    → (m' : Epoll) × (next (gives fds) m ≡ done (m', event_of (gives fds)))
      × (length m'.events ≡ length m.events)
      × (m'.watched ≡ m.watched)
unfolding next wait_time_out at_index
next-event_of [] m few = (m, refl, refl, refl)
next-event_of (fd ∷ fds) m few =
    let behind = drop (suc (length fds)) m.events in
    let came : (suc (length fds) == 0) ≡ false = ground arith in
    (
      record m { events = fd ∷ fds ++ behind },
      rw (next, came) refl,
      omega (arith, length-append fds behind, length-drop (suc (length fds)) m.events),
      refl,
    )
