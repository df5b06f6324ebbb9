-- ===== src/Dispatcher/Tests.antt =====
-- A dispatcher with three callbacks, of which one goes before the message and the others behind it.
use greencloud.Base.{ℕ, ◌+◌, ◌≡◌, refl, Bool, true, false, List, [], ◌∷◌, done}
use greencloud.Dispatcher.Callbacks.{
  Hub, Op, attach, detach, notify_all, count, step, run, opened, set_link, remove,
}
use greencloud.Dispatcher.Life.{one_if, run-notify_all}

abbrev three : List Op
three = attach 1 ∷ attach 2 ∷ attach 3 ∷ detach 1 ∷ []

abbrev links : ℕ → Bool
links = set_link 1 false (set_link 3 true (set_link 2 true (set_link 1 true (λ i. false))))

abbrev hub : Hub
hub = record { exists = true; callbacks = 3 ∷ 2 ∷ []; linked = links; notified = []; stopped = [] }

run-notify_all_example :
    (h' : Hub) × (step hub notify_all ≡ done h')
    × (count 2 h'.notified ≡ count 2 hub.notified + one_if (hub.linked 2))
unfolding run step opened remove
run-notify_all_example = run-notify_all three hub 2 refl refl

remove_runs : remove 2 (1 ∷ 2 ∷ 3 ∷ 4 ∷ []) ≡ 1 ∷ 4 ∷ 3 ∷ []
unfolding remove
remove_runs = refl
