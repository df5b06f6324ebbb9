-- ===== src/Engine/Polled.antt =====
-- `Run` of include/request_engine.hpp on the monitor of src/epoll.cpp, against the loop over events
-- of Engine/Loop.
use greencloud.Base.{
  ℕ, ◌≡◌, refl, List, [], ◌∷◌, map, Outcome, Outcome-cases, done, fails, ◌>>=◌, hangs, length, drop,
  length-drop, All, if◌then◌else◌, ◌==◌, arith, inl, inr, Bool-cases,
}
use greencloud.Engine.Loop.{runs, GateWay, RequestEngine, serve, visit, on_event, loop}
use greencloud.Engine.Epoll.{
  Epoll, Answer, refuses, gives, Answers, event_of, wait_time_out, at_index,
}

module _ (World Key Args Task : Type 0) (same : Discrete Key) where
  -- The loop over the gateways, each of which is compared with `(*m_fd_monitor)[0]`.
  unfoldable pub visit_at :
      List (GateWay World Key Args Task same)
      → Epoll
      → RequestEngine World Key Args Task same
      → Outcome (RequestEngine World Key Args Task same)
  visit_at [] m e = done e
  visit_at (g ∷ gs) m e = do
    fd ← at_index m 0
    e' ← if g.fd == fd then serve World Key Args Task same g e else done e
    visit_at gs m e'

  -- `Run` behind its first line, on the answers of `epoll_wait`, with those that it leaves.
  unfoldable pub polled :
      List Answer
      → Epoll
      → RequestEngine World Key Args Task same
      → Outcome (RequestEngine World Key Args Task same × List Answer)
  unfolding visit_at
  polled [] m e = if runs e.status then fails hangs else done (e, [])
  polled (a ∷ answers) m e =
      if runs e.status
      then (do
        (m', stt) ← wait_time_out a m
        e' ← if stt == 0 then done e else visit_at e.gateways m' e
        polled answers m' e')
      else done (e, a ∷ answers)

  visit_at-visit :
      (gs : List (GateWay World Key Args Task same)) (m : Epoll) (fd : ℕ)
      (e : RequestEngine World Key Args Task same)
      → at_index m 0 ≡ done fd
      → visit_at gs m e ≡ visit World Key Args Task same gs fd e
  unfolding visit_at visit
  visit_at-visit [] m fd e first = refl
  visit_at-visit (g ∷ gs) m fd e first =
      elim (Outcome-cases (if g.fd == fd then serve World Key Args Task same g e else done e)) [
        | inl (e', went) ↦ rw (first, went) (visit_at-visit gs m fd e' first)
        | inr (x, failed) ↦ rw (first, failed) refl
      ]

  -- What the engine does is what the loop over events does: over any answers of `epoll_wait` of at
  -- most one descriptor each, answers many as the monitor asks for, it ends in the same state, or
  -- by the same failure, and leaves the events of the answers that it leaves.
  pub polled-loop :
      (answers : List Answer) (m : Epoll) (e : RequestEngine World Key Args Task same)
      → length m.events ≡ 1
      → All (Answers 1) answers
      → (polled answers m e >>= λ r. done (r.0, map event_of r.1))
        ≡ loop World Key Args Task same (map event_of answers) e
  unfolding polled loop on_event wait_time_out at_index
  polled-loop [] m e one few = elim (Bool-cases (runs e.status)) [
    | inl on ↦ rw on refl
    | inr off ↦ rw off refl
  ]
  polled-loop (refuses errno ∷ answers) m e one (_, few) = elim (Bool-cases (runs e.status)) [
    | inl on ↦ rw on refl
    | inr off ↦ rw off refl
  ]
  polled-loop (gives [] ∷ answers) m e one (_, few) = elim (Bool-cases (runs e.status)) [
    | inl on ↦ rw on (polled-loop answers m e one few)
    | inr off ↦ rw off refl
  ]
  polled-loop (gives (fd ∷ []) ∷ answers) m e one (_, few) = elim (Bool-cases (runs e.status)) [
    | inr off ↦ rw off refl
    | inl on ↦
        let m' : Epoll = record m { events = fd ∷ drop 1 m.events } in
        let still : length m'.events ≡ 1 = omega (arith, length-drop 1 m.events) in
        let visited = visit_at-visit e.gateways m' fd e refl in
        elim (Outcome-cases (visit World Key Args Task same e.gateways fd e)) [
          | inl (e', went) ↦ rw (on, visited, went) (polled-loop answers m' e' still few)
          | inr (x, failed) ↦ rw (on, visited, failed) refl
        ]
  ]
  polled-loop (gives (fd ∷ fd' ∷ fds) ∷ answers) m e one (h, few) = absurd (omega arith)
