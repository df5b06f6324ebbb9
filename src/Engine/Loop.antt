-- ===== src/Engine/Loop.antt =====
-- `RequestEngine` of include/request_engine.hpp, over any gateways. The events are what
-- `Epoll::WaitTimeOut` of src/epoll.cpp gives.
use greencloud.Base.{
  ℕ, ◌+◌, ◌≡◌, refl, sym, ap, ◌∙◌, Bool, true, false, List, [], ◌∷◌, ◌++◌, append_assoc, Outcome,
  done, fails, ◌>>=◌, ◌>>◌, guard, epoll_error, hangs, length, length-append, append-nil, subst,
  ==_refl, if◌then◌else◌, ◌==◌, arith, Outcome-cases, Bool-cases, inl, inr,
}
use greencloud.Engine.Factory.{add, creator}

pub data Status : Type 0 where
  init : Status
  run : Status
  stop : Status

-- What one wait gives: an error, the end of its time, or a descriptor that is ready (at most one,
-- `MAX_EVENTS_TO_WAKE`).
pub data Event : Type 0 where
  error : ℕ → Event
  time_out : Event
  ready : ℕ → Event

abbrev pub runs : Status → Bool
runs run = true
runs _ = false

module _ (World Key Args Task : Type 0) (same : Discrete Key) where
  -- `GateWay`: its descriptor, and `Read`, with whether it calls `Stop` of the engine.
  pub record GateWay : Type 0 where
    pub fd : ℕ
    pub read : World → Outcome (World × Bool × Key × Args)

  pub record RequestEngine : Type 0 where
    pub status : Status
    pub gateways : List GateWay
    pub factory : List (Key × (Args → Task))
    -- the tasks handed to the thread pool, the oldest first
    pub tasks : List Task
    pub world : World

  -- `AddTask` and `AddGateWay`; the latter adds the descriptor to the monitor, which may fail.
  unfoldable pub add_task : RequestEngine → Key → (Args → Task) → RequestEngine
  add_task e k f = record e { factory = (add same e.factory k f).1 }

  unfoldable pub add_gate_way : ℕ → RequestEngine → GateWay → Outcome RequestEngine
  add_gate_way errno e g = do
    guard (errno == 0) (epoll_error errno)
    done (record e { gateways = e.gateways ++ g ∷ [] })

  -- The body of the loop over the gateways for one that is ready.
  unfoldable pub serve : GateWay → RequestEngine → Outcome RequestEngine
  serve g e = do
    (w, stops, key, args) ← g.read e.world
    make ← creator same e.factory key
    done (record e {
      world = w;
      status = if stops then Status.stop else e.status;
      tasks = e.tasks ++ make args ∷ [];
    })

  unfoldable pub visit : List GateWay → ℕ → RequestEngine → Outcome RequestEngine
  visit [] fd e = done e
  visit (g ∷ gs) fd e = (if g.fd == fd then serve g e else done e) >>= λ e'. visit gs fd e'

  unfoldable pub on_event : Event → RequestEngine → Outcome RequestEngine
  on_event (error n) e = fails (epoll_error n)
  on_event time_out e = done e
  on_event (ready fd) e = visit e.gateways fd e

  -- The loop, with the events that it leaves; when no more come it waits on.
  unfoldable pub loop : List Event → RequestEngine → Outcome (RequestEngine × List Event)
  loop [] e = if runs e.status then fails hangs else done (e, [])
  loop (v ∷ vs) e = if runs e.status then (on_event v e >>= λ e'. loop vs e') else done (e, v ∷ vs)

  -- `Run`; an earlier `Stop` is forgotten.
  unfoldable pub run_engine : List Event → RequestEngine → Outcome (RequestEngine × List Event)
  run_engine vs e = loop vs (record e { status = Status.run })

  -- How many of the gateways have a descriptor.
  abbrev pub count : List GateWay → ℕ → ℕ
  count [] fd = 0
  count (g ∷ gs) fd = (if g.fd == fd then 1 else 0) + count gs fd

  abbrev pub calls : List GateWay → List Event → ℕ
  calls gs [] = 0
  calls gs (ready fd ∷ vs) = count gs fd + calls gs vs
  calls gs (_ ∷ vs) = calls gs vs

  -- What an event leaves as it is, and the tasks it adds.
  abbrev pub Grows : ℕ → RequestEngine → RequestEngine → Type 0
  Grows n e e' =
      (ts : List Task) × (e'.gateways ≡ e.gateways) × (e'.tasks ≡ e.tasks ++ ts) × (length ts ≡ n)

  Grows-refl : (e : RequestEngine) → Grows 0 e e
  Grows-refl e = ([], refl, sym (append-nil e.tasks), refl)

  Grows-trans : (m n : ℕ) (a b c : RequestEngine) → Grows m a b → Grows n b c → Grows (m + n) a c
  Grows-trans m n a b c (ts, g, t, l) (ts', g', t', l') = (
    ts ++ ts',
    g' ∙ g,
    t' ∙ ap (λ l. l ++ ts') t ∙ append_assoc a.tasks ts ts',
    omega (arith, length-append ts ts'),
  )

  serve-Grows : (g : GateWay) (e e' : RequestEngine) → serve g e ≡ done e' → Grows 1 e e'
  unfolding serve
  serve-Grows g e e' eq = elim (Outcome-cases (g.read e.world)) [
    | inl ((w, stops, key, args), came) ↦ elim (Outcome-cases (creator same e.factory key)) [
      | inl (make, found) ↦
          let shape : record e {
            world = w;
            status = if stops then Status.stop else e.status;
            tasks = e.tasks ++ make args ∷ [];
          }
              ≡ e' =
            ground arith in
          subst (Grows 1 e) shape (make args ∷ [], refl, refl, refl)
      | inr (f, bad) ↦ absurd (ground arith)
    ]
    | inr (f, failed) ↦ absurd (ground arith)
  ]

  visit-Grows :
      (gs : List GateWay) (fd : ℕ) (e e' : RequestEngine)
      → visit gs fd e ≡ done e'
      → Grows (count gs fd) e e'
  unfolding visit
  visit-Grows [] fd e e' eq =
      let same : e ≡ e' = ground arith in subst (Grows 0 e) same (Grows-refl e)
  visit-Grows (g ∷ gs) fd e e' eq = elim (Bool-cases (g.fd == fd)) [
    | inl his ↦ elim (Outcome-cases (serve g e)) [
      | inl (m, served) ↦
          let later : visit gs fd m ≡ done e' = ground arith in
          rw his (
            Grows-trans 1 (count gs fd) e m e' (serve-Grows g e m served)
              (visit-Grows gs fd m e' later))
      | inr (f, failed) ↦ absurd (ground arith)
    ]
    | inr other ↦
        let later : visit gs fd e ≡ done e' = ground arith in
        let (ts, g, t, l) = visit-Grows gs fd e e' later in (ts, g, t, rw other (omega arith))
  ]

  pub event-Grows :
      (v : Event) (e e' : RequestEngine)
      → on_event v e ≡ done e'
      → Grows (calls e.gateways (v ∷ [])) e e'
  unfolding on_event
  event-Grows (error n) e e' eq = absurd (ground arith)
  event-Grows time_out e e' eq =
      let same : e ≡ e' = ground arith in subst (Grows 0 e) same (Grows-refl e)
  event-Grows (ready fd) e e' eq =
      let (ts, g, t, l) = visit-Grows e.gateways fd e e' eq in (ts, g, t, omega arith)

  calls-cons :
      (gs : List GateWay) (v : Event) (vs : List Event)
      → calls gs (v ∷ vs) ≡ calls gs (v ∷ []) + calls gs vs
  calls-cons gs (error n) vs = omega arith
  calls-cons gs time_out vs = omega arith
  calls-cons gs (ready fd) vs = omega arith

  ended :
      (vs rest : List Event) (e e' : RequestEngine)
      → ◌≡◌ {A = Outcome (RequestEngine × List Event)} (done (e, vs)) (done (e', rest))
      → runs e.status ≡ false
      → (used : List Event) × (vs ≡ used ++ rest)
        × (runs e'.status ≡ false)
        × Grows (calls e.gateways used) e e'
  ended vs rest e e' eq off =
      let same : e ≡ e' = ground arith in
      ([], ground arith, rw same at off, subst (Grows 0 e) same (Grows-refl e))

  loop-Grows :
      (vs : List Event) (e e' : RequestEngine) (rest : List Event)
      → loop vs e ≡ done (e', rest)
      → (used : List Event) × (vs ≡ used ++ rest)
        × (runs e'.status ≡ false)
        × Grows (calls e.gateways used) e e'
  unfolding loop
  loop-Grows [] e e' rest eq = elim (Bool-cases (runs e.status)) [
    | inl on ↦ absurd (ground arith)
    | inr off ↦ ended [] rest e e' (rw off at eq) off
  ]
  loop-Grows (v ∷ vs) e e' rest eq = elim (Bool-cases (runs e.status)) [
    | inr off ↦ ended (v ∷ vs) rest e e' (rw off at eq) off
    | inl on ↦ elim (Outcome-cases (on_event v e)) [
      | inl (m, now) ↦
          let later : loop vs m ≡ done (e', rest) = rw (on, now) at eq in
          let (used, split, off, grown) = loop-Grows vs m e' rest later in
          let first = event-Grows v e m now in
          let (_, kept, _, _) = first in
          let sum : calls e.gateways (v ∷ []) + calls m.gateways used
              ≡ calls e.gateways (v ∷ used) =
            rw kept (sym (calls-cons e.gateways v used)) in
          let both =
            Grows-trans (calls e.gateways (v ∷ [])) (calls m.gateways used) e m e' first grown in
          (v ∷ used, ap (◌∷◌ v) split, off, subst (λ n. Grows n e e') sum both)
      | inr (f, failed) ↦ absurd (ground arith)
    ]
  ]

  -- When `Run` returns, the engine was stopped: it has used the events up to some point, the others
  -- still wait, and it has handed the pool one task for each time that a gateway was ready, behind
  -- the tasks that were there, whatever the gateways read.
  pub run_engine-calls :
      (vs : List Event) (e e' : RequestEngine) (rest : List Event)
      → run_engine vs e ≡ done (e', rest)
      → (used : List Event) × (vs ≡ used ++ rest)
        × (runs e'.status ≡ false)
        × Grows (calls e.gateways used) e e'
  unfolding run_engine
  run_engine-calls vs e e' rest eq = loop-Grows vs (record e { status = Status.run }) e' rest eq

  visit_none :
      (gs : List GateWay) (fd : ℕ) (e : RequestEngine) → count gs fd ≡ 0 → visit gs fd e ≡ done e
  unfolding visit
  visit_none [] fd e h = refl
  visit_none (g ∷ gs) fd e h = elim (Bool-cases (g.fd == fd)) [
    | inl his ↦ absurd (let h' = rw his at h in omega arith)
    | inr other ↦ rw other (visit_none gs fd e (let h' = rw other at h in omega arith))
  ]

  visit_alone :
      (g : GateWay) (after : List GateWay) (e : RequestEngine)
      → count after g.fd ≡ 0
      → (r : Outcome RequestEngine) → (r >>= λ e'. visit after g.fd e') ≡ r
  visit_alone g after e h (done m) = visit_none after g.fd m h
  visit_alone g after e h (fails f) = refl

  visit_found :
      (g : GateWay) (after : List GateWay) (e : RequestEngine)
      → count after g.fd ≡ 0
      → (gs : List GateWay) → count gs g.fd ≡ 0
      → visit (gs ++ g ∷ after) g.fd e ≡ serve g e
  unfolding visit
  visit_found g after e last [] h = rw (==_refl g.fd) (visit_alone g after e last (serve g e))
  visit_found g after e last (x ∷ gs) h = elim (Bool-cases (x.fd == g.fd)) [
    | inl his ↦ absurd (let h' = rw his at h in omega arith)
    | inr other ↦ rw other (visit_found g after e last gs (let h' = rw other at h in omega arith))
  ]

  -- A gateway whose descriptor no other has is served alone when it is ready.
  pub on_event-ready :
      (before after : List GateWay) (g : GateWay) (e : RequestEngine)
      → e.gateways ≡ before ++ g ∷ after
      → count before g.fd ≡ 0
      → count after g.fd ≡ 0
      → on_event (ready g.fd) e ≡ serve g e
  unfolding on_event
  on_event-ready before after g e shape first last =
      ap (λ gs. visit gs g.fd e) shape ∙ visit_found g after e last before first
