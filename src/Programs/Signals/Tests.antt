-- ===== src/Programs/Signals/Tests.antt =====
-- The signals, with sets given by their members.
use greencloud.Base.{ℕ, Bool, true, false, List, [], ◌∷◌, if◌then◌else◌, ◌==◌}
use greencloud.Nbd.Device
use greencloud.Programs.Signals.{Action, exit_loop, other, Signals, Thread}
use greencloud.Programs.Signals.Woken.{Woken}

abbrev signals : Signals (ℕ → Bool)
signals = record {
  sigint = 2;
  sigterm = 15;
  fill_set = λ m. (true, λ t. true);
  empty_set = λ m. (true, λ t. false);
  add_set = λ m s. (true, λ t. if t == s then true else m t);
  del_set = λ m s. (true, λ t. if t == s then false else m t);
  sets_mask = true;
  sets_action = λ s. true;
}

abbrev has : (ℕ → Bool) → ℕ → Bool
has m s = m s

abbrev unset : Action (ℕ → Bool)
unset = record { handler = other 0; flags = 7; mask = λ t. t == 3 }

abbrev quiet : Thread (ℕ → Bool)
quiet = record { blocked = λ t. false; actions = [] }

abbrev ending : Action (ℕ → Bool)
ending = record {
  handler = exit_loop;
  flags = 0;
  mask = λ t. if t == 15 then true else (if t == 2 then true else false);
}

abbrev ready : Thread (ℕ → Bool)
ready = record {
  blocked = λ t. if t == 15 then false else (if t == 2 then false else true);
  actions = (15, ending) ∷ (2, ending) ∷ [];
}

abbrev shut : Thread (ℕ → Bool)
shut = record quiet { blocked = λ t. true }

abbrev calls : List (ℕ × ℕ)
calls =
    (43776, 6)
    ∷ (43786, 36)
    ∷ (43779, 18446744073709551615)
    ∷ (43781, 18446744073709551615)
    ∷ (43780, 18446744073709551615)
    ∷ []
