-- ===== src/Breaker/Abandoned.antt =====
-- Calls through one breaker that may also end in an exception outside Exception and CancelledError,
-- which no `except` clause of `call` matches: app/resilience/circuit_breaker.py.
use async_payment_processing.Prelude.{
  ℕ, ◌-◌, ◌<◌, ◌≡◌, true, false, base_exception, breaker_open, ok, err, arith,
}
use async_payment_processing.Breaker.{Breaker, State, init, before_call, after_call}
use async_payment_processing.Breaker.Step.{
  System, Step, admit, refuse, end_call, end_probe, Reach, IsSafe,
}
use async_payment_processing.Breaker.Safety.{idle, Reach-IsSafe}

-- The end of an awaited call, or of a probe, in such an exception.
abbrev pub escaped_call : ℕ → System → System
escaped_call now s = record s {
  breaker = after_call {A = Unit {0}} (err base_exception) false now s.breaker;
  calls = s.calls - 1;
}

abbrev pub escaped_probe : ℕ → System → System
escaped_probe now s = record s {
  breaker = after_call {A = Unit {0}} (err base_exception) true now s.breaker;
  probes = s.probes - 1;
}

pub data AnyStep (s : System) : System → Type 0 where
  recorded : {t : System} → Step s t → AnyStep s t
  escape_call : (now : ℕ) → 0 < s.calls → AnyStep s (escaped_call now s)
  escape_probe : (now : ℕ) → 0 < s.probes → AnyStep s (escaped_probe now s)

pub data AnyReach (s : System) : System → Type 0 where
  stay : AnyReach s s
  further : {t u : System} → AnyReach s t → AnyStep t u → AnyReach s u

-- No probe is awaited, and the breaker is as it was left.
record IsStuck (b : Breaker) (s : System) : Type 0 where
  same : s.breaker ≡ b
  half : s.breaker.state ≡ State.half_open
  alone : s.probes ≡ 0

Step-IsStuck : (b : Breaker) {s t : System} → Step s t → IsStuck b s → IsStuck b t
unfolding before_call after_call
Step-IsStuck b {s} (admit now probe e) h = ground arith
Step-IsStuck b {s} (refuse now x e) h = ground arith
Step-IsStuck b {s} (end_call now r ne some_call) h = ground arith
Step-IsStuck b {s} (end_probe now r ne some_probe) h = ground arith

AnyStep-IsStuck : (b : Breaker) {s t : System} → AnyStep s t → IsStuck b s → IsStuck b t
unfolding after_call
AnyStep-IsStuck b (recorded st) h = Step-IsStuck b st h
AnyStep-IsStuck b {s} (escape_call now some_call) h = ground arith
AnyStep-IsStuck b {s} (escape_probe now some_probe) h = ground arith

AnyReach-IsStuck : (b : Breaker) {s t : System} → AnyReach s t → IsStuck b s → IsStuck b t
AnyReach-IsStuck b stay h = h
AnyReach-IsStuck b (further r st) h = AnyStep-IsStuck b st (AnyReach-IsStuck b r h)

stuck-refuses :
    (b : Breaker) (now : ℕ) → b.state ≡ State.half_open → before_call now b ≡ (err breaker_open, b)
unfolding before_call
stuck-refuses b now h = ground arith

abandoned-IsStuck :
    (s : System) (now : ℕ)
    → IsSafe s
    → s.breaker.state ≡ State.half_open
    → IsStuck s.breaker (escaped_probe now s)
unfolding after_call
abandoned-IsStuck s now h half = ground arith

-- Once the probe of a half-open breaker, in a state that interleaved calls have reached, ends in an
-- exception outside Exception and CancelledError, the breaker never changes again: after every further
-- sequence of steps, of whatever ends, it is as it was, no probe is awaited, and a call at any time is
-- refused.
pub abandoned_probe :
    (threshold timeout : ℕ) {b : Breaker} {s t : System} (now : ℕ)
    → init threshold timeout ≡ ok b
    → Reach (idle b) s
    → s.breaker.state ≡ State.half_open
    → AnyReach (escaped_probe now s) t
    → (t.breaker ≡ s.breaker)
      × (t.probes ≡ 0)
      × ((later : ℕ) → before_call later t.breaker ≡ (err breaker_open, t.breaker))
abandoned_probe threshold timeout {b} {s} {t} now e r half later_steps =
    let h =
      AnyReach-IsStuck s.breaker later_steps
        (abandoned-IsStuck s now (Reach-IsSafe threshold timeout e r) half) in
    (h.same, h.alone, λ later. stuck-refuses t.breaker later h.half)
