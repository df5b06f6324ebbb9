-- ===== src/Dispatcher/Callbacks.antt =====
-- The vector of a `Dispatcher`, and the links of its callbacks back to it.
use greencloud.Base.{
  ℕ, ◌+◌, Bool, true, false, not, ◌&&◌, List, [], ◌∷◌, ◌++◌, Outcome, done, ◌>>=◌, ◌>>◌, guard,
  undefined, if◌then◌else◌, ◌==◌, leb,
}

-- The last element and the others, in order.
abbrev pub last_of : ℕ → List ℕ → ℕ
last_of x [] = x
last_of x (y ∷ xs) = last_of y xs

abbrev pub but_last : ℕ → List ℕ → List ℕ
but_last x [] = []
but_last x (y ∷ xs) = x ∷ but_last y xs

-- `Remove`: the first occurrence is swapped with the last element, which is then popped.
unfoldable pub remove : ℕ → List ℕ → List ℕ
remove c [] = []
remove c (x ∷ xs) =
    let rest = remove c xs in
    if x == c then (elim xs [ [] ↦ [] | y ∷ ys ↦ last_of y ys ∷ but_last y ys ]) else x ∷ rest

abbrev pub count : ℕ → List ℕ → ℕ
count i [] = 0
count i (x ∷ xs) = (if x == i then 1 else 0) + count i xs

-- A dispatcher with the callbacks made for it: whether it still exists, its vector, which callbacks
-- have a link to it (`m_dispatcher`), and the calls of `Notify` and of the observers' stop methods.
pub record Hub : Type 0 where
  pub exists : Bool
  pub callbacks : List ℕ
  pub linked : ℕ → Bool
  pub notified : List ℕ
  pub stopped : List ℕ

pub data Op : Type 0 where
  -- the constructor and the destructor of a callback
  attach : ℕ → Op
  detach : ℕ → Op
  notify_all : Op
  -- the destructor of the dispatcher
  close : Op

abbrev pub set_link : ℕ → Bool → (ℕ → Bool) → ℕ → Bool
set_link c b linked i = if i == c then b else linked i

-- A callback is constructed where none is; a call through a link to a dispatcher that is gone is
-- undefined.
unfoldable pub step : Hub → Op → Outcome Hub
step h (attach c) = do
  guard (h.exists && not (h.linked c)) undefined
  done (record h { callbacks = h.callbacks ++ c ∷ []; linked = set_link c true h.linked })
step h (detach c) =
    if h.linked c
    then (do
      guard h.exists undefined
      done (record h { callbacks = remove c h.callbacks; linked = set_link c false h.linked }))
    else done h
step h notify_all = do
  guard h.exists undefined
  done (record h { notified = h.notified ++ h.callbacks })
step h close = do
  guard h.exists undefined
  done (record h {
    exists = false;
    linked = λ i. h.linked i && leb (count i h.callbacks) 0;
    stopped = h.stopped ++ h.callbacks;
  })

unfoldable pub run : Hub → List Op → Outcome Hub
run h [] = done h
run h (o ∷ os) = step h o >>= λ h'. run h' os

unfoldable pub opened : Hub
opened = record { exists = true; callbacks = []; linked = λ i. false; notified = []; stopped = [] }
