-- ===== src/Programs/Master/Conserved.antt =====
-- No request of the kernel is answered twice, and none is lost, in any order of events and tasks.
use greencloud.Base.{
  drop, zero, suc, ℕ, ◌+◌, ◌≡◌, Bool, List, [], ◌∷◌, ◌++◌, Bytes, none, some, done, get_elem?,
  arith, Outcome-cases, Bool-cases, inl, inr,
}
use greencloud.Base.Int.{ℤ, int32, bits32}
use greencloud.Data.{DriverData}
use greencloud.Cloud.Ids.{handler_to_id, id_to_handler, take_id, int_eq}
use greencloud.Cloud.Slaves.{CloudStorage, get_slave_data}
use greencloud.Cloud.Slaves.Handshake.{SlaveData}
use greencloud.Cloud.Send.{Packet}
use greencloud.Cloud.Send as Send
use greencloud.Cloud.Reply.{create_data_from_buff}
use greencloud.Engine.Gateways.{TaskInfo, null, info}
use greencloud.Nbd.Tasks.{execute_read, execute_write}
use greencloud.Pool.Threads.{remove_at}
use greencloud.Wire.Decimal.{strtoul, strtol}
use greencloud.Programs.Master.{
  ReTask, nbd_read, nbd_write, nbd_disconnect, nbd_flush, nbd_trim, nbd_bad_request, nbd_replay,
  stdin_exit, stdin_ignore, World, Setting, execute, answer, ask_read, ask_write, hang_up, leave,
}

-- The sum of a weight of the handles of requests, of tasks, and of the requests that wait for a
-- slave.
abbrev pub requests : (Bytes → ℕ) → List DriverData → ℕ
requests f [] = 0
requests f (d ∷ ds) = f d.handler + requests f ds

abbrev pub table : (Bytes → ℕ) → List (ℤ × Bytes) → ℕ
table f [] = 0
table f ((i, h) ∷ t) = f h + table f t

-- A number that is taken leaves with its handle.
table-take_id :
    (f : Bytes → ℕ) (i : ℤ) (t t' : List (ℤ × Bytes)) (h : Bytes)
    → take_id i t ≡ done (h, t')
    → table f t ≡ f h + table f t'
unfolding take_id
table-take_id f i [] t' h e = absurd (ground arith)
table-take_id f i ((j, g) ∷ t) t' h e = elim (Bool-cases (int_eq i j)) [
  | inl same ↦ ground arith
  | inr other ↦ elim (Outcome-cases (take_id i t)) [
    | inl ((h', t″), took) ↦ let later = table-take_id f i t t″ h' took in ground arith
    | inr (x, failed) ↦ absurd (ground arith)
  ]
]

pub create_data-table :
    (f : Bytes → ℕ) (junk : ℕ → ℕ) (blank : DriverData) (c c' : CloudStorage) (src : Bytes)
    (d : DriverData)
    → create_data_from_buff junk blank c src ≡ done (c', d)
    → table f c.ids.table ≡ f d.handler + table f c'.ids.table
unfolding create_data_from_buff id_to_handler
create_data-table f junk blank c c' src d e =
    let id = int32 (bits32 (strtol (drop 1 (strtoul src).1)).0) in
    elim (Outcome-cases (take_id id c.ids.table)) [
      | inl ((h, t'), took) ↦ let moved = table-take_id f id c.ids.table t' h took in ground arith
      | inr (x, failed) ↦ absurd (ground arith)
    ]

read-table :
    (f : Bytes → ℕ) (sends : Bool) (default : SlaveData) (c c' : CloudStorage) (d : DriverData)
    (p : Packet)
    → Send.read sends default c d ≡ done (c', p)
    → table f c'.ids.table ≡ f d.handler + table f c.ids.table
unfolding Send.read handler_to_id get_slave_data
read-table f sends default c c' d p e = ground arith

write-table :
    (f : Bytes → ℕ) (sends : Bool) (default : SlaveData) (c c' : CloudStorage) (d : DriverData)
    (p : Packet)
    → Send.write sends default c d ≡ done (c', p)
    → table f c'.ids.table ≡ f d.handler + table f c.ids.table
unfolding Send.write handler_to_id get_slave_data
write-table f sends default c c' d p e = ground arith

abbrev pub info_of : (Bytes → ℕ) → TaskInfo → ℕ
info_of f (info (some d)) = f d.handler
info_of f _ = 0

-- What a task will answer, drop or ask a slave for.
abbrev pub task_of : (Bytes → ℕ) → ReTask → ℕ
task_of f (nbd_read i) = info_of f i
task_of f (nbd_write i) = info_of f i
task_of f (nbd_disconnect i) = info_of f i
task_of f (nbd_flush i) = info_of f i
task_of f (nbd_trim i) = info_of f i
task_of f (nbd_bad_request i) = info_of f i
task_of f (nbd_replay i) = info_of f i
task_of f (stdin_exit i) = 0
task_of f (stdin_ignore i) = 0

abbrev pub tasks : (Bytes → ℕ) → List ReTask → ℕ
tasks f [] = 0
tasks f (t ∷ ts) = task_of f t + tasks f ts

-- Where a request can be behind its arrival: in a task, with a slave, answered, or dropped.
abbrev pub held : (Bytes → ℕ) → List ReTask → World → ℕ
held f ts w = tasks f ts + table f w.cloud.ids.table + requests f w.answered + requests f w.dropped

pub tasks-append :
    (f : Bytes → ℕ) (ts : List ReTask) (t : ReTask)
    → tasks f (ts ++ t ∷ []) ≡ tasks f ts + task_of f t
tasks-append f [] t = omega arith
tasks-append f (x ∷ ts) t = omega (arith, tasks-append f ts t)

pub tasks-remove_at :
    (f : Bytes → ℕ) (k : ℕ) (ts : List ReTask) (t : ReTask)
    → get_elem? ts k ≡ some t
    → tasks f ts ≡ task_of f t + tasks f (remove_at k ts)
tasks-remove_at f k [] t e = absurd (ground arith)
tasks-remove_at f zero (x ∷ ts) t e = ground arith
tasks-remove_at f (suc k) (x ∷ ts) t e = omega (arith, tasks-remove_at f k ts t e)

module _ (setting : Setting) where
  -- A task moves what it holds to the table, to the answers or to what is dropped.
  abbrev pub Moves : (Bytes → ℕ) → ℕ → World → World → Type 0
  Moves f n w w' = (held f [] w' ≡ n + held f [] w) × (w'.received ≡ w.received)

  answer-Moves :
      (f : Bytes → ℕ) (i : TaskInfo) (w w' : World)
      → answer setting i w ≡ done w'
      → Moves f (info_of f i) w w'
  unfolding answer
  answer-Moves f null w w' e = absurd (ground arith)
  answer-Moves f (info none) w w' e = absurd (ground arith)
  answer-Moves f (info (some d)) w w' e = ground arith

  ask_read-Moves :
      (f : Bytes → ℕ) (sends : Bool) (i : TaskInfo) (w w' : World)
      → ask_read setting sends i w ≡ done w'
      → Moves f (info_of f i) w w'
  unfolding ask_read execute_read
  ask_read-Moves f sends null w w' e = absurd (ground arith)
  ask_read-Moves f sends (info none) w w' e = absurd (ground arith)
  ask_read-Moves f sends (info (some d)) w w' e =
      elim (Outcome-cases (Send.read sends setting.default w.cloud d)) [
        | inl ((c, p), sent) ↦
            let moved = read-table f sends setting.default w.cloud c d p sent in ground arith
        | inr (x, failed) ↦ absurd (ground arith)
      ]

  ask_write-Moves :
      (f : Bytes → ℕ) (sends : Bool) (i : TaskInfo) (w w' : World)
      → ask_write setting sends i w ≡ done w'
      → Moves f (info_of f i) w w'
  unfolding ask_write execute_write
  ask_write-Moves f sends null w w' e = absurd (ground arith)
  ask_write-Moves f sends (info none) w w' e = absurd (ground arith)
  ask_write-Moves f sends (info (some d)) w w' e =
      elim (Outcome-cases (Send.write sends setting.default w.cloud d)) [
        | inl ((c, p), sent) ↦
            let moved = write-table f sends setting.default w.cloud c d p sent in ground arith
        | inr (x, failed) ↦ absurd (ground arith)
      ]

  hang_up-Moves :
      (f : Bytes → ℕ) (sends : Bool) (i : TaskInfo) (w w' : World)
      → hang_up setting sends i w ≡ done w'
      → Moves f (info_of f i) w w'
  unfolding hang_up
  hang_up-Moves f sends null w w' e = ground arith
  hang_up-Moves f sends (info none) w w' e = ground arith
  hang_up-Moves f sends (info (some d)) w w' e = ground arith

  pub execute-Moves :
      (f : Bytes → ℕ) (sends : Bool) (t : ReTask) (w w' : World)
      → execute setting sends t w ≡ done w'
      → Moves f (task_of f t) w w'
  unfolding execute leave
  execute-Moves f sends (nbd_read i) w w' e = ask_read-Moves f sends i w w' e
  execute-Moves f sends (nbd_write i) w w' e = ask_write-Moves f sends i w w' e
  execute-Moves f sends (nbd_disconnect i) w w' e = hang_up-Moves f sends i w w' e
  execute-Moves f sends (nbd_flush i) w w' e = answer-Moves f i w w' e
  execute-Moves f sends (nbd_trim i) w w' e = answer-Moves f i w w' e
  execute-Moves f sends (nbd_bad_request i) w w' e = answer-Moves f i w w' e
  execute-Moves f sends (nbd_replay i) w w' e = answer-Moves f i w w' e
  execute-Moves f sends (stdin_exit i) w w' e = ground arith
  execute-Moves f sends (stdin_ignore i) w w' e = ground arith
