-- ===== src/Engine/Tests.antt =====
-- The engine at concrete inputs: a driver with two requests to come, and an idle gateway.
use greencloud.Base.{
  ◌≡◌, refl, false, List, [], ◌∷◌, ◌++◌, some, Outcome, done, fails, undefined, length, map, ◌>>=◌,
  arith,
}
use greencloud.Base.Int.{pos}
use greencloud.Data.{DriverData, FactoryKey, FactoryKey-discrete, empty}
use greencloud.Data.Keys
use greencloud.Engine.Factory.{creator}
use greencloud.Engine.Loop
use greencloud.Engine.Loop.{
  Status, Event, error, ready, time_out, loop, GateWay, RequestEngine, run_engine, runs, calls,
  count, on_event, serve, run_engine-calls, on_event-ready,
}
use greencloud.Engine.Epoll.{Epoll, Answer, gives, refuses, event_of}
use greencloud.Engine.Polled.{polled, polled-loop}
use greencloud.Engine.Gateways.{TaskInfo, read_driver}

abbrev request : FactoryKey → DriverData
request key = record {
  offset = 0;
  req_id = pos 0;
  handler = [];
  len = 0;
  key = key;
  status = 0;
  buff = empty;
}

abbrev receive : List DriverData → Outcome (List DriverData × DriverData)
receive [] = fails undefined
receive (d ∷ ds) = done (ds, d)

abbrev Engine : Type 0
Engine =
    RequestEngine (List DriverData) FactoryKey TaskInfo (FactoryKey × TaskInfo) FactoryKey-discrete

abbrev Gate : Type 0
Gate = GateWay (List DriverData) FactoryKey TaskInfo (FactoryKey × TaskInfo) FactoryKey-discrete

abbrev driver : Gate
driver = record { fd = 5; read = read_driver receive }

abbrev idle : Gate
idle = record { fd = 0; read = λ w. done (w, false, Keys.ignore, TaskInfo.null) }

abbrev engine : Engine
engine = record {
  status = Status.init;
  gateways = idle ∷ driver ∷ [];
  factory = (Keys.flush, λ i. (Keys.flush, i)) ∷ (Keys.disconnect, λ i. (Keys.disconnect, i)) ∷ [];
  tasks = [];
  world = request Keys.flush ∷ request Keys.disconnect ∷ [];
}

abbrev stopped : Engine
stopped = record engine {
  status = Status.stop;
  tasks =
      (Keys.flush, TaskInfo.info (some (request Keys.flush)))
      ∷ (Keys.disconnect, TaskInfo.info (some (request Keys.disconnect)))
      ∷ [];
  world = [];
}

abbrev events : List Event
events = ready 5 ∷ time_out ∷ ready 5 ∷ ready 0 ∷ []

run_engine-calls_example :
    (used : List Event) × (events ≡ used ++ ready 0 ∷ [])
    × (runs stopped.status ≡ false)
    × ((ts : List (FactoryKey × TaskInfo)) × (stopped.gateways ≡ engine.gateways)
        × (stopped.tasks ≡ engine.tasks ++ ts)
        × (length ts
            ≡ calls
                (List DriverData)
                FactoryKey
                TaskInfo
                (FactoryKey × TaskInfo)
                FactoryKey-discrete
                engine.gateways
                used))
unfolding run_engine Loop.loop on_event Loop.visit serve read_driver creator
    Keys.FactoryKey-discrete
run_engine-calls_example =
    run_engine-calls (List DriverData) FactoryKey TaskInfo (FactoryKey × TaskInfo)
      FactoryKey-discrete events engine stopped (ready 0 ∷ []) refl

abbrev answers : List Answer
answers = gives (5 ∷ []) ∷ gives [] ∷ gives (5 ∷ []) ∷ refuses 4 ∷ []

abbrev monitor : Epoll
monitor = record { events = 0 ∷ []; watched = 5 ∷ 0 ∷ [] }

abbrev running : Engine
running = record engine { status = Status.run }

polled-loop_example :
    (polled
        (List DriverData)
        FactoryKey
        TaskInfo
        (FactoryKey × TaskInfo)
        FactoryKey-discrete
        answers
        monitor
        running
      >>= λ r. done (r.0, map event_of r.1))
    ≡ loop
        (List DriverData)
        FactoryKey
        TaskInfo
        (FactoryKey × TaskInfo)
        FactoryKey-discrete
        (ready 5 ∷ time_out ∷ ready 5 ∷ error 4 ∷ [])
        running
polled-loop_example =
    polled-loop (List DriverData) FactoryKey TaskInfo (FactoryKey × TaskInfo) FactoryKey-discrete
      answers monitor running refl (omega arith, (omega arith, (omega arith, (tt, tt))))
