-- ===== src/Pool/Semaphore.antt =====
-- src/semaphore.cpp and include/semaphore.hpp: a counting semaphore, for one thread at a time. What
-- the system answers besides the count is an argument.
use greencloud.Base.{
  ℕ, ◌+◌, ◌-◌, ◌^◌, Option, none, some, Outcome, done, fails, ◌>>◌, guard, sem_error, sem_time_out,
  hangs, ltb, if◌then◌else◌, ◌==◌,
}

pub record Semaphore : Type 0 where
  pub value : ℕ

-- `SEM_VALUE_MAX`, and the numbers of the errors.
abbrev pub value_max : ℕ
value_max = 2 ^ 31 - 1

abbrev pub eagain : ℕ
eagain = 11

abbrev pub eoverflow : ℕ
eoverflow = 75

abbrev pub etimedout : ℕ
etimedout = 110

-- The constructor: `sem_init` with 0, which may fail.
unfoldable pub init : Option ℕ → Outcome Semaphore
init none = done (record { value = 0 })
init (some errno) = fails (sem_error errno)

-- `sem_post` fails only on a count that is full.
unfoldable pub post : Semaphore → Outcome Semaphore
post s = do
  guard (ltb s.value value_max) (sem_error eoverflow)
  done (record { value = s.value + 1 })

-- `Wait`: a signal may interrupt it; with a count of 0 and no other thread it waits for ever.
unfoldable pub wait : Option ℕ → Semaphore → Outcome Semaphore
wait (some errno) s = fails (sem_error errno)
wait none s = if s.value == 0 then fails hangs else done (record { value = s.value - 1 })

-- `TryWait` does not tell its caller whether it took one: EAGAIN is no error.
unfoldable pub try_wait : Option ℕ → Semaphore → Outcome Semaphore
try_wait (some errno) s = if errno == eagain then done s else fails (sem_error errno)
try_wait none s = if s.value == 0 then done s else done (record { value = s.value - 1 })

-- `TimedWait`, on what `clock_gettime` answers.
unfoldable pub timed_wait : Option ℕ → Option ℕ → Semaphore → Outcome Semaphore
timed_wait (some errno) interrupted s = fails (sem_error errno)
timed_wait none (some errno) s =
    if errno == etimedout then fails (sem_time_out errno) else fails (sem_error errno)
timed_wait none none s =
    if s.value == 0 then fails (sem_time_out etimedout) else done (record { value = s.value - 1 })

-- `GetVal`.
unfoldable pub get_val : Option ℕ → Semaphore → Outcome ℕ
get_val none s = done s.value
get_val (some errno) s = fails (sem_error errno)
