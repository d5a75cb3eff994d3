-- ===== src/Breaker/Step.antt =====
-- Calls through one breaker, begun and ended in any order: app/resilience/circuit_breaker.py, `call`.
use async_payment_processing.Prelude.{
  ℕ, ◌+◌, ◌-◌, ◌<◌, ◌≡◌, ◌≢◌, Bool, true, false, Error, base_exception, none, Result, ok, err,
  arith,
}
use async_payment_processing.Breaker.{Breaker, State, before_call, after_call}

-- The breaker, with the numbers of ordinary calls and of probes that are awaited.
pub record System : Type 0 where
  pub breaker : Breaker
  pub calls : ℕ
  pub probes : ℕ

-- The await of a call that was admitted begins.
abbrev pub start : Bool → Breaker → System → System
start false b s = record s { breaker = b; calls = s.calls + 1 }
start true b s = record s { breaker = b; probes = s.probes + 1 }

-- A call is admitted or refused, and an awaited call ends, with a result or with an exception that
-- `call` records: any but those outside Exception and CancelledError.
pub data Step (s : System) : System → Type 0 where
  admit :
      (now : ℕ) (probe : Bool) {b : Breaker}
      → before_call now s.breaker ≡ (ok probe, b)
      → Step s (start probe b s)
  refuse :
      (now : ℕ) (e : Error) {b : Breaker}
      → before_call now s.breaker ≡ (err e, b)
      → Step s (record s { breaker = b })
  end_call :
      (now : ℕ) (r : Result (Unit {0}))
      → r ≢ err base_exception
      → 0 < s.calls
      → Step s (record s { breaker = after_call r false now s.breaker; calls = s.calls - 1 })
  end_probe :
      (now : ℕ) (r : Result (Unit {0}))
      → r ≢ err base_exception
      → 0 < s.probes
      → Step s (record s { breaker = after_call r true now s.breaker; probes = s.probes - 1 })

pub data Reach (s : System) : System → Type 0 where
  here : Reach s s
  next : {t u : System} → Reach s t → Step t u → Reach s u

-- What holds between two steps of the calls of one breaker.
pub record IsSafe (s : System) : Type 0 where
  pub positive : 0 < s.breaker.failure_threshold
  pub below : s.breaker.state ≡ State.closed → s.breaker.failure_count < s.breaker.failure_threshold
  pub timed : s.breaker.state ≡ State.opened → s.breaker.opened_at ≢ none
  pub one_probe : s.breaker.state ≡ State.half_open → s.probes ≡ 1
  pub no_probe : s.breaker.state ≢ State.half_open → s.probes ≡ 0

pub admit-IsSafe :
    (s : System) (now : ℕ) (probe : Bool) {b : Breaker}
    → before_call now s.breaker ≡ (ok probe, b)
    → IsSafe s
    → IsSafe (start probe b s)
unfolding before_call
admit-IsSafe s now probe e h = ground arith

pub refuse-IsSafe :
    (s : System) (now : ℕ) (e : Error) {b : Breaker}
    → before_call now s.breaker ≡ (err e, b)
    → IsSafe s
    → IsSafe (record s { breaker = b })
unfolding before_call
refuse-IsSafe s now e q h = ground arith

pub end_call-IsSafe :
    (s : System) (now : ℕ) (r : Result (Unit {0}))
    → IsSafe s
    → IsSafe (record s { breaker = after_call r false now s.breaker; calls = s.calls - 1 })
unfolding after_call
end_call-IsSafe s now r h = ground arith

pub end_probe-IsSafe :
    (s : System) (now : ℕ) (r : Result (Unit {0}))
    → r ≢ err base_exception
    → 0 < s.probes
    → IsSafe s
    → IsSafe (record s { breaker = after_call r true now s.breaker; probes = s.probes - 1 })
unfolding after_call
end_probe-IsSafe s now r ne some_probe h = ground arith
