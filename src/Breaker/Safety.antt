-- ===== src/Breaker/Safety.antt =====
-- Theorems on `_before_call` and the `except` clauses of `call`: app/resilience/circuit_breaker.py.
use async_payment_processing.Prelude.{
  ℕ, ◌-◌, ◌<◌, ◌≡◌, ◌≢◌, Bool, true, false, base_exception, breaker_open, runtime_error, none, some,
  Result, ok, err, arith, ◌↔◌, ◌⊎◌, if◌then◌else◌,
}
use async_payment_processing.Breaker.{
  Breaker, State, init, before_call, after_call, call, provider_permanent,
}
use async_payment_processing.Breaker.Step.{
  System, Step, admit, refuse, end_call, end_probe, Reach, here, next, IsSafe, admit-IsSafe,
  refuse-IsSafe, end_call-IsSafe, end_probe-IsSafe,
}

pub Step-IsSafe : {s t : System} → Step s t → IsSafe s → IsSafe t
Step-IsSafe {s} (admit now probe e) h = admit-IsSafe s now probe e h
Step-IsSafe {s} (refuse now x e) h = refuse-IsSafe s now x e h
Step-IsSafe {s} (end_call now r ne some_call) h = end_call-IsSafe s now r h
Step-IsSafe {s} (end_probe now r ne some_probe) h = end_probe-IsSafe s now r ne some_probe h

-- A new breaker with no call awaited.
abbrev pub idle : Breaker → System
idle b = record { breaker = b; calls = 0; probes = 0 }

init-IsSafe :
    (threshold timeout : ℕ) {b : Breaker} → init threshold timeout ≡ ok b → IsSafe (idle b)
unfolding init
init-IsSafe threshold timeout e = ground arith

-- From a new breaker every sequence of steps of its calls, none of which ends in an exception outside
-- Exception and CancelledError, keeps this: a closed breaker has counted fewer failures than the
-- threshold, an open one knows when it opened, and exactly one probe is awaited while it is half open
-- and none otherwise.
pub Reach-IsSafe :
    (threshold timeout : ℕ) {b : Breaker} {s : System}
    → init threshold timeout ≡ ok b
    → Reach (idle b) s
    → IsSafe s
Reach-IsSafe threshold timeout e here = init-IsSafe threshold timeout e
Reach-IsSafe threshold timeout e (next r st) = Step-IsSafe st (Reach-IsSafe threshold timeout e r)

-- Less than the recovery timeout has passed since the breaker opened.
abbrev pub IsCooling : ℕ → Breaker → Type 0
IsCooling now b = elim b.opened_at [ none ↦ ⊥ | some at ↦ now - at < b.recovery_timeout ]

-- In a safe state `_before_call` ends in no RuntimeError, and it refuses a call exactly when a probe
-- is awaited, or the breaker is open and the recovery timeout has not passed.
pub before_call-refuses :
    (s : System) (now : ℕ)
    → IsSafe s
    → ((before_call now s.breaker).0 ≢ err runtime_error)
      × (((before_call now s.breaker).0 ≡ err breaker_open)
          ↔ ((s.probes ≡ 1) ⊎ ((s.breaker.state ≡ State.opened) × IsCooling now s.breaker)))
unfolding before_call
before_call-refuses s now h = (ground arith, (ground arith, ground arith))

-- A call that is refused changes nothing and ends in the breaker's error, whatever the operation
-- would have given; a call that is admitted ends as the operation ends.
pub call-passes :
    (now later : ℕ) (result : Result (Unit {0})) (meanwhile : Breaker → Breaker) (b : Breaker)
    → ((b.state ≡ State.half_open) → call now result meanwhile later b ≡ (err breaker_open, b))
      × ((b.state ≡ State.opened)
          → IsCooling now b
          → call now result meanwhile later b ≡ (err breaker_open, b))
      × ((b.state ≡ State.closed) → (call now result meanwhile later b).0 ≡ result)
unfolding call
call-passes now later result meanwhile b = (ground arith, ground arith, ground arith)

-- The provider answered: with a result, or with a permanent rejection.
abbrev pub answered : Result (Unit {0}) → Bool
answered (ok a) = true
answered (err (provider_permanent status_code)) = true
answered (err e) = false

-- The end of a half-open probe settles the breaker, if it is no exception outside Exception and
-- CancelledError: it closes, with its count reset, exactly when the provider answered; otherwise it
-- is open from now on.
pub after_call-probe :
    (now : ℕ) (r : Result (Unit {0})) (b : Breaker)
    → b.state ≡ State.half_open
    → r ≢ err base_exception
    → after_call r true now b ≡ (
        if answered r
        then record b { state = State.closed; failure_count = 0; opened_at = none }
        else record b { state = State.opened; opened_at = some now })
unfolding after_call
after_call-probe now r b h ne = ground arith
