-- ===== src/Breaker.antt =====
-- app/resilience/circuit_breaker.py: the circuit breaker in front of the payment provider.
-- `monotonic()` readings and durations are whole ticks; a reading never goes back, so that an
-- elapsed time is a difference of numbers.
pub mod Step
pub mod Safety
pub mod Streak
pub mod Abandoned
use async_payment_processing.Prelude.{
  ℕ, ◌+◌, ◌-◌, Bool, true, false, Option, none, some, Error, provider_permanent,
  provider_unavailable, provider_ambiguous_outcome, breaker_open, value_error, runtime_error,
  cancelled, base_exception, Result, ok, err, ltb, leb, if◌then◌else◌,
}

-- `CircuitBreakerState`
pub data State : Type 0 where
  closed opened half_open : State

pub record Breaker : Type 0 where
  pub failure_threshold : ℕ
  pub recovery_timeout : ℕ
  pub state : State
  pub failure_count : ℕ
  pub opened_at : Option ℕ

-- `CircuitBreaker.__init__`; a negative timeout has no counterpart here.
unfoldable pub init : ℕ → ℕ → Result Breaker
init threshold timeout =
    if ltb threshold 1
    then err value_error
    else ok (record {
      failure_threshold = threshold;
      recovery_timeout = timeout;
      state = State.closed;
      failure_count = 0;
      opened_at = none;
    })

before_open : ℕ → Option ℕ → Breaker → Result Bool × Breaker
before_open now none b = (err runtime_error, b)
before_open now (some at) b =
    if ltb (now - at) b.recovery_timeout
    then (err breaker_open, b)
    else (ok true, record b { state = State.half_open })

before_call_at : State → ℕ → Breaker → Result Bool × Breaker
unfolding before_open
before_call_at State.closed now b = (ok false, b)
before_call_at State.half_open now b = (err breaker_open, b)
before_call_at State.opened now b = before_open now b.opened_at b

-- `_before_call`: whether the call may be made, and whether it is the half-open probe.
unfoldable pub before_call : ℕ → Breaker → Result Bool × Breaker
unfolding before_call_at
before_call now b = before_call_at b.state now b

-- The state goes to OPEN, and the time is kept.
abbrev trip : ℕ → Breaker → Breaker
trip now b = record b { state = State.opened; opened_at = some now }

abbrev reset : Breaker → Breaker
reset b = record b { failure_count = 0; opened_at = none }

success_at : State → Bool → Breaker → Breaker
success_at State.half_open true b = reset (record b { state = State.closed })
success_at State.closed false b = reset b
success_at _ _ b = b

-- `_record_success`
pub record_success : Bool → Breaker → Breaker
unfolding success_at
record_success is_half_open_probe b = success_at b.state is_half_open_probe b

count_failure : ℕ → Breaker → Breaker
count_failure now b =
    let counted = record b { failure_count = b.failure_count + 1 } in
    if leb b.failure_threshold (b.failure_count + 1) then trip now counted else counted

failure_at : State → Bool → ℕ → Breaker → Breaker
unfolding count_failure
failure_at State.half_open true now b = trip now b
failure_at State.closed false now b = count_failure now b
failure_at _ _ now b = b

-- `_record_failure`
pub record_failure : Bool → ℕ → Breaker → Breaker
unfolding failure_at
record_failure is_half_open_probe now b = failure_at b.state is_half_open_probe now b

reopen_at : State → Bool → ℕ → Breaker → Breaker
reopen_at State.half_open true now b = trip now b
reopen_at _ _ now b = b

-- `_record_cancelled_probe`
pub record_cancelled_probe : Bool → ℕ → Breaker → Breaker
unfolding reopen_at
record_cancelled_probe is_half_open_probe now b = reopen_at b.state is_half_open_probe now b

-- `_record_inconclusive_probe`
pub record_inconclusive_probe : Bool → ℕ → Breaker → Breaker
unfolding reopen_at
record_inconclusive_probe is_half_open_probe now b = reopen_at b.state is_half_open_probe now b

-- The `except` clauses of `call`, in their order. An exception outside Exception other than
-- CancelledError matches none of them.
record_error : Error → Bool → ℕ → Breaker → Breaker
unfolding record_cancelled_probe record_failure record_success record_inconclusive_probe
record_error cancelled probe now b = record_cancelled_probe probe now b
record_error provider_unavailable probe now b = record_failure probe now b
record_error provider_ambiguous_outcome probe now b = record_failure probe now b
record_error (provider_permanent status_code) probe now b = record_success probe b
record_error base_exception probe now b = b
record_error _ probe now b = record_inconclusive_probe probe now b

-- What `call` records when the awaited operation has ended.
unfoldable pub after_call {ℓ} : {A : Type ℓ} → Result A → Bool → ℕ → Breaker → Breaker
unfolding record_error record_success
after_call (ok a) probe now b = record_success probe b
after_call (err e) probe now b = record_error e probe now b

module _ {ℓ} {A : Type ℓ} where
  admitted : Result Bool → Result A → (Breaker → Breaker) → ℕ → Breaker → Result A × Breaker
  unfolding after_call
  admitted (err e) result meanwhile later b = (err e, b)
  admitted (ok probe) result meanwhile later b =
      (result, after_call result probe later (meanwhile b))

  -- `call`: the operation ends with `result` at the time `later`; what other calls do to the breaker
  -- while this one is awaited is `meanwhile`.
  unfoldable pub call : ℕ → Result A → (Breaker → Breaker) → ℕ → Breaker → Result A × Breaker
  unfolding admitted before_call
  call now result meanwhile later b =
      let (admission, b') = before_call now b in admitted admission result meanwhile later b'
