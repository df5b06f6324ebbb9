-- ===== src/Programs/Master/System.antt =====
-- The master at work: its main thread handles events while the pool executes tasks, in any order.
use greencloud.Base.{ℕ, Bool, List, [], ◌∷◌, Option, none, some, Outcome, done, ◌>>=◌, get_elem?}
use greencloud.Data.{FactoryKey, FactoryKey-discrete}
use greencloud.Engine.Gateways.{TaskInfo}
use greencloud.Engine.Loop.{Status, Event, on_event}
use greencloud.Pool.Threads.{remove_at}
use greencloud.Programs.Master.{ReTask, World, Engine, Setting, execute}

-- Which task a thread of the pool takes is its queue's choice; here it may be any.
pub data Move : Type 0 where
  event : Event → Move
  -- a task at a position, and whether its datagram is sent
  work : ℕ → Bool → Move

module _ (setting : Setting) where
  unfoldable pub work_on : Bool → ℕ → Option ReTask → Engine → Outcome Engine
  work_on sends k none e = done e
  work_on sends k (some t) e = execute setting sends t e.world >>= λ w.
      done (record e { world = w; tasks = remove_at k e.tasks })

  unfoldable pub step : Engine → Move → Outcome Engine
  step e (event v) = on_event World FactoryKey TaskInfo ReTask FactoryKey-discrete v e
  step e (work k sends) = work_on sends k (get_elem? e.tasks k) e

  unfoldable pub run : Engine → List Move → Outcome Engine
  run e [] = done e
  run e (m ∷ ms) = step e m >>= λ e'. run e' ms

-- `Run` sets the status first.
abbrev pub begun : Engine → Engine
begun e = record e { status = Status.run }
