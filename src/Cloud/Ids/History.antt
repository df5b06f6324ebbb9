-- ===== src/Cloud/Ids/History.antt =====
-- Any history of requests sent and replies taken, in any order.
use mathlib.Core.List.{Perm, perm_middle}
use mathlib.Core.List.Perm
use greencloud.Base.{
  ◌+◌, ◌≡◌, List, [], ◌∷◌, ◌++◌, Bytes, Outcome, done, ◌>>=◌, Outcome-cases, inl, inr, arith, ltb,
  ◌^◌, Bool-cases, subst,
}
use greencloud.Base.Int.{ℤ, pos}
use greencloud.Cloud.Ids.{Ids, initial, handler_to_id, take_id, id_to_handler}
use greencloud.Cloud.Ids.Table.{IsValid, Falls, take_id-perm, take_id-Falls}

-- A request with a handle goes out, or a reply with a number comes in.
pub data Event : Type 0 where
  request : Bytes → Event
  reply : ℤ → Event

-- The table, with what has been sent and what has been answered, newest first.
pub record Trace : Type 0 where
  pub ids : Ids
  pub sent : List (ℤ × Bytes)
  pub answered : List (ℤ × Bytes)

unfoldable pub step : Trace → Event → Outcome Trace
step t (request h) =
    handler_to_id t.ids h >>= λ p. done (record t { ids = p.0; sent = (p.1, h) ∷ t.sent })
step t (reply i) =
    id_to_handler t.ids i >>= λ p. done (record t { ids = p.0; answered = (i, p.1) ∷ t.answered })

unfoldable pub run : Trace → List Event → Outcome Trace
run t [] = done t
run t (e ∷ es) = step t e >>= λ u. run u es

unfoldable pub started : Trace
started = record { ids = initial; sent = []; answered = [] }

-- What was sent is what was answered and what still waits, under distinct numbers.
pub record Settled (t : Trace) : Type 0 where
  pub valid : IsValid t.ids
  pub distinct : Falls (t.ids.last + 1) t.sent
  pub settled : Perm t.sent (t.answered ++ t.ids.table)

request-Settled : (t u : Trace) (h : Bytes) → step t (request h) ≡ done u → Settled t → Settled u
unfolding step handler_to_id
request-Settled t u h e s = elim (Bool-cases (ltb (t.ids.last + 1) (2 ^ 31))) [
  | inl room ↦
      let new : ℤ × Bytes = (pos (t.ids.last + 1), h) in
      let shape : record t {
        ids = record { last = t.ids.last + 1; table = new ∷ t.ids.table };
        sent = new ∷ t.sent;
      }
          ≡ u =
        ground arith in
      subst Settled shape (record {
        valid = (omega arith, s.valid);
        distinct = (omega arith, s.distinct);
        settled =
            Perm.trans (Perm.cons new s.settled) (Perm.symm (perm_middle t.answered t.ids.table));
      })
  | inr full ↦ absurd (ground arith)
]

reply-Settled : (t u : Trace) (i : ℤ) → step t (reply i) ≡ done u → Settled t → Settled u
unfolding step id_to_handler
reply-Settled t u i e s = elim (Outcome-cases (take_id i t.ids.table)) [
  | inl ((h, l'), took) ↦
      let shape : record t {
        ids = record { last = t.ids.last; table = l' };
        answered = (i, h) ∷ t.answered;
      }
          ≡ u =
        ground arith in
      subst Settled shape (record {
        valid = take_id-Falls (t.ids.last + 1) i t.ids.table l' h took s.valid;
        distinct = s.distinct;
        settled = Perm.trans s.settled (
            Perm.trans (Perm.append (Perm.refl t.answered) (take_id-perm i t.ids.table l' h took))
              (perm_middle t.answered l'));
      })
  | inr (f, failed) ↦ absurd (ground arith)
]

step-Settled : (t u : Trace) (e : Event) → step t e ≡ done u → Settled t → Settled u
step-Settled t u (request h) e s = request-Settled t u h e s
step-Settled t u (reply i) e s = reply-Settled t u i e s

run-Settled : (t u : Trace) (es : List Event) → run t es ≡ done u → Settled t → Settled u
unfolding run
run-Settled t u [] e s = let same : t ≡ u = ground arith in subst Settled same s
run-Settled t u (x ∷ es) e s = elim (Outcome-cases (step t x)) [
  | inl (v, now) ↦
      let later : run v es ≡ done u = rw now at e in
      run-Settled v u es later (step-Settled t v x now s)
  | inr (f, failed) ↦ absurd (ground arith)
]

started-Settled : Settled started
unfolding started initial
started-Settled = record { valid = tt; distinct = tt; settled = Perm.refl [] }

-- In every history that runs to its end the numbers handed out are distinct, and the requests sent
-- are, in some order, those answered, each under the number and with the handle that it was sent
-- with, and those that still wait: none is answered twice or with another's handle.
pub run-started :
    (es : List Event) (u : Trace)
    → run started es ≡ done u
    → Falls (u.ids.last + 1) u.sent × Perm u.sent (u.answered ++ u.ids.table)
run-started es u e = let s = run-Settled started u es e started-Settled in (s.distinct, s.settled)
