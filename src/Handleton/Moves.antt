-- ===== src/Handleton/Moves.antt =====
-- `GetInstance` by its accesses to what the threads share, in any order of the threads.
use greencloud.Base.{ℕ, ◌+◌, ◌-◌, List, [], ◌∷◌, Option, none, some, ltb, if◌then◌else◌}

-- Where the thread that holds the mutex is: there is none, it is before the second load, before the
-- construction, or before the store of the pointer.
pub data Inside : Type 0 where
  free : Inside
  entered : Inside
  building : Inside
  storing : ℕ → Inside

-- `s_instance` and what `s_ptr` owns, objects by the number of their construction; how many objects
-- were constructed; how many threads saw a null pointer and wait for the mutex; what the calls have
-- returned.
pub record Handleton : Type 0 where
  pub instance_ptr : Option ℕ
  pub owner : Option ℕ
  pub constructed : ℕ
  pub locking : ℕ
  pub inside : Inside
  pub returned : List ℕ

unfoldable pub started : Handleton
started = record {
  instance_ptr = none;
  owner = none;
  constructed = 0;
  locking = 0;
  inside = Inside.free;
  returned = [];
}

pub data Move : Type 0 where
  -- a call: the first load
  load : Move
  -- under the mutex: its lock, the second load, `new` with `reset`, the store
  lock : Move
  reload : Move
  build : Move
  store : Move
  release : Move

abbrev pub locks : Inside → Handleton → Option Handleton
locks free h =
    if ltb 0 h.locking
    then some (record h { locking = h.locking - 1; inside = Inside.entered })
    else none
locks _ h = none

abbrev pub reloads : Inside → Option ℕ → Handleton → Option Handleton
reloads entered none h = some (record h { inside = Inside.building })
reloads entered (some a) h = some (record h { inside = Inside.free; returned = a ∷ h.returned })
reloads _ _ h = none

abbrev pub builds : Inside → Handleton → Option Handleton
builds building h = some (record h {
  constructed = h.constructed + 1;
  owner = some h.constructed;
  inside = Inside.storing h.constructed;
})
builds _ h = none

abbrev pub stores : Inside → Handleton → Option Handleton
stores (storing a) h =
    some (record h { instance_ptr = some a; inside = Inside.free; returned = a ∷ h.returned })
stores _ h = none

-- A move, if it can be made. `ReleaseResources` destroys what `s_ptr` owns, and nothing else.
unfoldable pub step : Handleton → Move → Option Handleton
step h load = elim h.instance_ptr [
  | none ↦ some (record h { locking = h.locking + 1 })
  | some a ↦ some (record h { returned = a ∷ h.returned })
]
step h lock = locks h.inside h
step h reload = reloads h.inside h.instance_ptr h
step h build = builds h.inside h
step h store = stores h.inside h
step h release = some (record h { owner = none })

unfoldable pub run : Handleton → List Move → Option Handleton
run h [] = some h
run h (m ∷ ms) = elim (step h m) [ none ↦ none | some h' ↦ run h' ms ]
