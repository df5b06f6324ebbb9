-- ===== src/Programs/Master/Creators.antt =====
-- The keys that the master's gateways can hand to its factory, and the tasks made of them.
use greencloud.Base.{
  ℕ, ◌≡◌, refl, subst, List, [], ◌∷◌, done, ◌==◌, poke, replicate, arith, Outcome-cases, Bool-cases,
  inl, inr,
}
use greencloud.Data.{DriverData, FactoryKey, FactoryKey-discrete, empty}
use greencloud.Data.Keys
use greencloud.Engine.Factory.{creator, add}
use greencloud.Engine.Loop.{add_task}
use greencloud.Engine.Gateways.{TaskInfo}
use greencloud.Nbd.Order.{ntohl}
use greencloud.Nbd.Stream.{Arrivals, read_some}
use greencloud.Nbd.Driver.{Protocol, Request, decode, receive_request}
use greencloud.Programs.Master.{
  ReTask, nbd_read, nbd_write, nbd_disconnect, nbd_flush, nbd_trim, nbd_bad_request, nbd_replay,
  stdin_exit, stdin_ignore, World, add_tasks, new_engine,
}

pub data KernelKey : FactoryKey → Type 0 where
  for_read : KernelKey Keys.read
  for_write : KernelKey Keys.write
  for_disconnect : KernelKey Keys.disconnect
  for_flush : KernelKey Keys.flush
  for_trim : KernelKey Keys.trim
  for_bad_request : KernelKey Keys.bad_request

decode-KernelKey :
    (nbd : Protocol) (junk : ℕ → ℕ) (ret d : DriverData) (r : Request) (stream rest : Arrivals)
    → decode nbd junk ret r stream ≡ done (d, rest)
    → KernelKey d.key
unfolding decode
decode-KernelKey nbd junk ret d r stream rest e =
    let t = ntohl r.type in
    elim (Bool-cases (t == nbd.cmd_read)) [
      | inl a ↦ let k : Keys.read ≡ d.key = ground arith in subst KernelKey k for_read
      | inr a ↦ elim (Bool-cases (t == nbd.cmd_write)) [
        | inl b ↦ let k : Keys.write ≡ d.key = ground arith in subst KernelKey k for_write
        | inr b ↦ elim (Bool-cases (t == nbd.cmd_disc)) [
          | inl c ↦
              let k : Keys.disconnect ≡ d.key = ground arith in subst KernelKey k for_disconnect
          | inr c ↦ elim (Bool-cases (t == nbd.cmd_flush)) [
            | inl f ↦ let k : Keys.flush ≡ d.key = ground arith in subst KernelKey k for_flush
            | inr f ↦ elim (Bool-cases (t == nbd.cmd_trim)) [
              | inl g ↦ let k : Keys.trim ≡ d.key = ground arith in subst KernelKey k for_trim
              | inr g ↦
                  let k : Keys.bad_request ≡ d.key = ground arith in
                  subst KernelKey k for_bad_request
            ]
          ]
        ]
      ]
    ]

-- The driver's requests have the keys of six tasks.
pub receive_request-KernelKey :
    (nbd : Protocol) (junk : ℕ → ℕ) (blank d : DriverData) (stream rest : Arrivals)
    → receive_request nbd junk blank stream ≡ done (d, rest)
    → KernelKey d.key
unfolding receive_request
receive_request-KernelKey nbd junk blank d stream rest e =
    elim (Outcome-cases (read_some stream nbd.request_size)) [
      | inl ((head, left), came) ↦
          let r : Request = nbd.request (poke (replicate nbd.request_size 0) 0 head) in
          let ret : DriverData = record blank { handler = r.handle; status = 0; buff = empty } in
          let later : decode nbd junk ret r left ≡ done (d, rest) = ground arith in
          decode-KernelKey nbd junk ret d r left rest later
      | inr (x, failed) ↦ absurd (ground arith)
    ]

-- The factory after `AddTasksToReqEngine`.
abbrev pub task_table : List (FactoryKey × (TaskInfo → ReTask))
task_table =
    (Keys.q_exit, stdin_exit)
    ∷ (Keys.ignore, stdin_ignore)
    ∷ (Keys.read, nbd_read)
    ∷ (Keys.write, nbd_write)
    ∷ (Keys.disconnect, nbd_disconnect)
    ∷ (Keys.flush, nbd_flush)
    ∷ (Keys.trim, nbd_trim)
    ∷ (Keys.bad_request, nbd_bad_request)
    ∷ (Keys.replay, nbd_replay)
    ∷ []

pub add_tasks-factory : (w : World) → (add_tasks (new_engine w)).factory ≡ task_table
unfolding add_tasks new_engine add_task add Keys.FactoryKey-discrete
add_tasks-factory w = refl

-- What the factory makes of a key, whatever the information.
abbrev pub Made : FactoryKey → (TaskInfo → ReTask) → Type 0
Made k make = creator FactoryKey-discrete task_table k ≡ done make

-- The tasks that the kernel's requests become hold their information.
pub data Holds : (TaskInfo → ReTask) → Type 0 where
  holds_read : Holds nbd_read
  holds_write : Holds nbd_write
  holds_disconnect : Holds nbd_disconnect
  holds_flush : Holds nbd_flush
  holds_trim : Holds nbd_trim
  holds_bad_request : Holds nbd_bad_request
  holds_replay : Holds nbd_replay

pub kernel-Made :
    (k : FactoryKey) → KernelKey k → (make : TaskInfo → ReTask) × Made k make × Holds make
unfolding creator Keys.FactoryKey-discrete
kernel-Made _ for_read = (nbd_read, refl, holds_read)
kernel-Made _ for_write = (nbd_write, refl, holds_write)
kernel-Made _ for_disconnect = (nbd_disconnect, refl, holds_disconnect)
kernel-Made _ for_flush = (nbd_flush, refl, holds_flush)
kernel-Made _ for_trim = (nbd_trim, refl, holds_trim)
kernel-Made _ for_bad_request = (nbd_bad_request, refl, holds_bad_request)

pub replay-Made : Made Keys.replay nbd_replay
unfolding creator Keys.FactoryKey-discrete
replay-Made = refl

pub exit-Made : Made Keys.q_exit stdin_exit
unfolding creator Keys.FactoryKey-discrete
exit-Made = refl

pub ignore-Made : Made Keys.ignore stdin_ignore
unfolding creator Keys.FactoryKey-discrete
ignore-Made = refl
