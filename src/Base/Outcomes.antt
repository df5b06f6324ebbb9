-- ===== src/Base/Outcomes.antt =====
-- What a C++ call can come to: a value, or a failure that ends it.
use mathlib.Core.Logic.{◌⊎◌, inl, inr}
use mathlib.Core.Path.{◌≡◌, refl}
use Prim.Native.Nat.{ℕ}
use mathlib.Core.Bool.{Bool, true, false}
use mathlib.Core.Option.{Option, none, some}

-- `undefined` is behaviour that the C++ standard leaves open: an access out of bounds, the end of a
-- container dereferenced, a signed overflow. `exits` is a call of `exit`.
pub data Failure : Type 0 where
  undefined : Failure
  exits : ℕ → Failure
  runtime_error : Failure
  bad_magic : ℕ → Failure
  bad_key : Failure
  epoll_error : ℕ → Failure
  ioctl_error : ℕ → Failure
  sem_error : ℕ → Failure
  sem_time_out : ℕ → Failure
  hangs : Failure

pub data Outcome {ℓ} (A : Type ℓ) : Type ℓ where
  done : A → Outcome A
  fails : Failure → Outcome A

infixl 5 ◌>>=◌ ◌>>◌
abbrev pub ◌>>=◌ {ℓ κ} : {A : Type ℓ} {B : Type κ} → Outcome A → (A → Outcome B) → Outcome B
done a >>= f = f a
fails e >>= f = fails e

abbrev pub ◌>>◌ {ℓ} : {B : Type ℓ} → Outcome (Unit {0}) → Outcome B → Outcome B
m >> k = m >>= λ _. k

abbrev pub guard : Bool → Failure → Outcome (Unit {0})
guard true e = done tt
guard false e = fails e

abbrev pub or_fail {ℓ} : {A : Type ℓ} → Option A → Failure → Outcome A
or_fail none e = fails e
or_fail (some a) e = done a

pub Outcome-cases {ℓ} :
    {A : Type ℓ} (r : Outcome A) → ((a : A) × (r ≡ done a)) ⊎ ((e : Failure) × (r ≡ fails e))
Outcome-cases (done a) = inl (a, refl)
Outcome-cases (fails e) = inr (e, refl)
