-- ===== src/Cloud/Ids.antt =====
-- `CloudStorage::HandlerToId` and `IdToHandler` of src/cloud_storage.cpp: the table that remembers
-- the handle of each request sent to a slave, under a number. Both run under `m_mutex`, so each is
-- one step.
pub mod Table
pub mod History
use greencloud.Base.{
  ℕ, ◌+◌, ◌^◌, Bool, true, false, List, [], ◌∷◌, Bytes, Outcome, done, fails, ◌>>=◌, ◌>>◌, guard,
  undefined, ltb, ◌==◌, if◌then◌else◌,
}
use greencloud.Base.Int.{ℤ, pos, negsuc}

-- `m_req_id` and `m_list`, newest first.
pub record Ids : Type 0 where
  pub last : ℕ
  pub table : List (ℤ × Bytes)

unfoldable pub initial : Ids
initial = record { last = 0; table = [] }

-- `==` on `int`.
abbrev pub int_eq : ℤ → ℤ → Bool
int_eq (pos a) (pos b) = a == b
int_eq (negsuc a) (negsuc b) = a == b
int_eq (pos a) (negsuc b) = false
int_eq (negsuc a) (pos b) = false

-- `++m_req_id` overflows an `int` behind 2^31 - 1.
unfoldable pub handler_to_id : Ids → Bytes → Outcome (Ids × ℤ)
handler_to_id t h =
    let id = t.last + 1 in
    do
      guard (ltb id (2 ^ 31)) undefined
      done (record { last = id; table = (pos id, h) ∷ t.table }, pos id)

-- The loop tests `iter->first` before `iter != end`, so an unknown number dereferences the end of
-- the list; `return false` is never reached. `m_list.remove(*iter)` compares pairs with `==`, and
-- the arrays in them by address: it removes the found node alone.
unfoldable pub take_id : ℤ → List (ℤ × Bytes) → Outcome (Bytes × List (ℤ × Bytes))
take_id i [] = fails undefined
take_id i ((j, h) ∷ l) =
    if int_eq i j then done (h, l) else (take_id i l >>= λ p. done (p.0, (j, h) ∷ p.1))

unfoldable pub id_to_handler : Ids → ℤ → Outcome (Ids × Bytes)
unfolding take_id
id_to_handler t i = take_id i t.table >>= λ p. done (record t { table = p.1 }, p.0)
