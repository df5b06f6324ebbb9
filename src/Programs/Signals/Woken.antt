-- ===== src/Programs/Signals/Woken.antt =====
-- Which signals wake the main thread.
use greencloud.Base.{ℕ, ◌≡◌, Bool, true, false, ◌||◌, not, done, if◌then◌else◌, ◌==◌}
use greencloud.Programs.Signals.{exit_loop, Action, Signals, Thread, sig_empty, sig_add, action_of}

-- What signal.h documents of its sets, where a call succeeds: membership behind it.
pub record Documented {Set : Type 0} (signals : Signals Set) (has : Set → ℕ → Bool) : Type 0 where
  pub fills : (m m' : Set) → signals.fill_set m ≡ (true, m') → (s : ℕ) → has m' s ≡ true
  pub empties : (m m' : Set) → signals.empty_set m ≡ (true, m') → (s : ℕ) → has m' s ≡ false
  pub adds :
      (m m' : Set) (s : ℕ)
      → signals.add_set m s ≡ (true, m')
      → (t : ℕ) → has m' t ≡ (if t == s then true else has m t)
  pub deletes :
      (m m' : Set) (s : ℕ)
      → signals.del_set m s ≡ (true, m')
      → (t : ℕ) → has m' t ≡ (if t == s then false else has m t)

module _ {Set : Type 0} (signals : Signals Set) (has : Set → ℕ → Bool)
    (documented : Documented signals has) where
  abbrev pub is_ending : ℕ → Bool
  is_ending s = s == signals.sigint || s == signals.sigterm

  -- An action that runs `ExitLoop` with no flags, and blocks the two signals meanwhile.
  abbrev pub Ends : Action Set → Type 0
  Ends a = (a.handler ≡ exit_loop) × (a.flags ≡ 0) × ((s : ℕ) → has a.mask s ≡ is_ending s)

  -- The action that is set for both signals.
  abbrev Both : Action Set → Action Set → Type 0
  Both act a =
      (empty : Action Set) × (one : Action Set) × (sig_empty signals act ≡ done empty)
      × (sig_add signals empty signals.sigint ≡ done one)
      × (sig_add signals one signals.sigterm ≡ done a)

  -- Exactly the two are not blocked, and both have such an action.
  abbrev pub Woken : Action Set → Thread Set → Type 0
  Woken act t =
      ((s : ℕ) → has t.blocked s ≡ not (is_ending s))
      × (Ends (action_of signals signals.sigint t.actions act)
          × Ends (action_of signals signals.sigterm t.actions act))
