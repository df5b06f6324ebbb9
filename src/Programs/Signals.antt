-- ===== src/Programs/Signals.antt =====
-- `MainThreadSetSignals` of release/greencloud.0.5.cpp and the functions that it calls: the main
-- thread is to be woken by SIGINT and SIGTERM, and by no other signal.
pub mod Woken
pub mod Driver
mod Tests
use greencloud.Base.{
  ℕ, Bool, true, false, ◌&&◌, List, [], ◌∷◌, Outcome, done, fails, ◌>>=◌, ◌>>◌, guard,
  runtime_error, if◌then◌else◌, ◌==◌,
}

-- A handler that a signal can have; `ExitLoop` does nothing.
pub data Handler : Type 0 where
  exit_loop : Handler
  other : ℕ → Handler

-- `struct sigaction`, over the type of signal sets.
pub record Action (Set : Type 0) : Type 0 where
  pub handler : Handler
  pub flags : ℕ
  pub mask : Set

-- What signal.h gives: the numbers, the operations on sets with whether they succeed, and whether
-- `sigprocmask` and `sigaction` succeed.
pub record Signals (Set : Type 0) : Type 0 where
  pub sigint : ℕ
  pub sigterm : ℕ
  pub fill_set : Set → Bool × Set
  pub empty_set : Set → Bool × Set
  pub add_set : Set → ℕ → Bool × Set
  pub del_set : Set → ℕ → Bool × Set
  pub sets_mask : Bool
  pub sets_action : ℕ → Bool

-- What the kernel keeps for the thread: the signals that are blocked, and the actions set, the
-- latest first.
pub record Thread (Set : Type 0) : Type 0 where
  pub blocked : Set
  pub actions : List (ℕ × Action Set)

module _ {Set : Type 0} (signals : Signals Set) where
  -- `SetSigMask`, on a mask that is not initialised. Each call gives 0 or -1, so that the sum is 0
  -- exactly if all of them are.
  unfoldable pub set_sig_mask : Set → Thread Set → Outcome (Thread Set)
  set_sig_mask junk t =
      let (filled, m₁) = signals.fill_set junk in
      let (first, m₂) = signals.del_set m₁ signals.sigint in
      let (second, m₃) = signals.del_set m₂ signals.sigterm in
      guard (filled && (first && (second && signals.sets_mask))) runtime_error
      >> done (record t { blocked = m₃ })

  unfoldable pub sig_empty : Action Set → Outcome (Action Set)
  sig_empty act =
      let (empties, m) = signals.empty_set act.mask in
      guard empties runtime_error >> done (record { handler = exit_loop; flags = 0; mask = m })

  unfoldable pub sig_add : Action Set → ℕ → Outcome (Action Set)
  sig_add act sig =
      let (adds, m) = signals.add_set act.mask sig in
      guard adds runtime_error >> done (record act { mask = m })

  unfoldable pub set_action : Action Set → ℕ → Thread Set → Outcome (Thread Set)
  set_action act sig t =
      guard (signals.sets_action sig) runtime_error
      >> done (record t { actions = (sig, act) ∷ t.actions })

  -- On a mask and an action that are not initialised.
  unfoldable pub main_thread_set_signals : Set → Action Set → Thread Set → Outcome (Thread Set)
  main_thread_set_signals junk act t = do
    t₁ ← set_sig_mask junk t
    empty ← sig_empty act
    one ← sig_add empty signals.sigint
    both ← sig_add one signals.sigterm
    t₂ ← set_action both signals.sigint t₁
    set_action both signals.sigterm t₂

  abbrev pub action_of : ℕ → List (ℕ × Action Set) → Action Set → Action Set
  action_of sig [] default = default
  action_of sig ((s, a) ∷ rest) default = if s == sig then a else action_of sig rest default
