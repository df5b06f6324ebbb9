-- ===== src/Programs/Slave/Main.antt =====
-- `main` of release/slave.cpp, over the mapped storage.
use greencloud.Base.{
  ℕ, ◌*◌, ◌%◌, ◌^◌, ◌≡◌, ◌↔◌, refl, ap, ◌∙◌, not, List, [], Bytes, Option, some, Outcome, Failure,
  done, fails, ◌>>=◌, ◌>>◌, guard, undefined, exits, bad_key, epoll_error, hangs, Outcome-cases,
  inl, inr, arith, ◌==◌,
}
use greencloud.Data.{DriverData}
use greencloud.Storage.Mmap
use greencloud.Storage.Instances.{mmap_store}
use greencloud.Engine.Loop.{Status, ready}
use greencloud.Slave.Proxy
use greencloud.Programs.Signals.{Signals, Action, Thread, main_thread_set_signals}
use greencloud.Programs.Catches.{Ending, exits_with, aborts, breaks, waits}
use greencloud.Programs.Slave.{
  Setting, Move, event, World, Engine, receive, set_up, step, run, begun,
}
use greencloud.Programs.Slave.Account.{IsServed}
use greencloud.Programs.Slave.Served.{Fresh, run-bad_key}

-- The numbers of the configuration; what `socket` gives, the address of the master, the bytes of
-- the storage's file, the error of `epoll_ctl`, and the datagrams that will arrive.
pub record Start : Type 0 where
  pub storage_size : ℕ
  pub socket : Option ℕ
  pub address : ℕ
  pub file : Bytes
  pub errno : ℕ
  pub arrivals : List (Option (Bytes × ℕ))

-- What the process shares when its driver and its storage are made.
unfoldable pub made : Start → World mmap_store
made s = record {
  arrivals = s.arrivals;
  proxy = Proxy.create s.socket s.address;
  state = Mmap.create s.file ((s.storage_size * 1048576) % 2 ^ 64);
  sent = [];
  received = [];
  dropped = [];
  answered = [];
  lost = [];
}

-- The `catch` clauses on what leaves the `try`; `Disconnect` of the driver only closes its socket.
unfoldable pub slave_ending : Failure → Ending
slave_ending (epoll_error errno) = exits_with 0
slave_ending undefined = breaks
slave_ending hangs = waits
slave_ending (exits n) = exits_with n
slave_ending bad_key = aborts
slave_ending _ = exits_with 2

module _ {Set : Type 0} (setting : Setting) (signals : Signals Set) where
  -- `main` up to `Run`, on a mask and an action that are not initialised.
  unfoldable pub start :
      Start → Set → Action Set → Thread Set → Outcome (Thread Set × Engine mmap_store)
  start s junk act t = do
    guard (not (s.storage_size == 0)) (exits 1)
    t' ← main_thread_set_signals signals junk act t
    e ← set_up mmap_store setting s.errno (made s)
    done (t', e)

  start-set_up :
      (s : Start) (junk : Set) (act : Action Set) (t t' : Thread Set) (e : Engine mmap_store)
      → start s junk act t ≡ done (t', e)
      → set_up mmap_store setting s.errno (made s) ≡ done e
  unfolding start
  start-set_up s junk act t t' e eq =
      elim (Outcome-cases (main_thread_set_signals signals junk act t)) [
        | inr (x, failed) ↦ absurd (ground arith)
        | inl (t″, quiet) ↦ elim (Outcome-cases (set_up mmap_store setting s.errno (made s))) [
          | inl (e″, up) ↦ ground arith
          | inr (x, failed) ↦ absurd (ground arith)
        ]
      ]

  made-Fresh : (s : Start) → Fresh mmap_store setting (made s)
  unfolding made
  made-Fresh s = record {
    none_received = refl;
    none_sent = refl;
    none_dropped = refl;
    none_answered = refl;
    none_lost = refl;
  }

  ending-aborts : (x : Failure) → slave_ending x ≡ aborts → x ≡ bad_key
  unfolding slave_ending
  ending-aborts x e = ground arith

  -- In every state that the slave reaches from `main` while its engine runs, when a request is there
  -- and its socket is ready, the main thread fails in a way that ends the process by an uncaught
  -- exception exactly if the key of the request is none of read, write and disconnect.
  pub start-aborts :
      (s : Start) (fd : ℕ) (junk : Set) (act : Action Set) (t t' : Thread Set)
      (w : World mmap_store) (ms : List Move) (e e' : Engine mmap_store) (d : DriverData)
      → s.socket ≡ some fd
      → start s junk act t ≡ done (t', e)
      → run mmap_store setting (begun mmap_store setting e) ms ≡ done e'
      → e'.status ≡ Status.run
      → receive mmap_store setting e'.world ≡ done (w, d)
      → ((x : Failure) × (step mmap_store setting e' (event (ready fd)) ≡ fails x)
          × (slave_ending x ≡ aborts))
        ↔ (¬ IsServed d.key)
  unfolding slave_ending made Proxy.create
  start-aborts s fd junk act t t' w ms e e' d bound started ran on came =
      let (throws, stays) =
        run-bad_key mmap_store setting s.errno fd (made s) w ms e e' d (made-Fresh s) bound
          (start-set_up s junk act t t' e started) ran on came in
      (
        (λ (x, failed, bad). throws (failed ∙ ap fails (ending-aborts x bad))),
        (λ other. (bad_key, stays other, refl)),
      )
