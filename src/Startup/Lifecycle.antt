-- ===== src/Startup/Lifecycle.antt =====
-- app/worker/main.py, `run_worker`: how the worker starts and stops.
use async_payment_processing.Prelude.{
  Bool, true, false, ◌&&◌, ◌||◌, List, [], ◌∷◌, ◌++◌, if◌then◌else◌, ok, err, Result, ◌>>◌, Error,
  caught,
}
use async_payment_processing.Startup.{Settings, get_settings, Components, build}

-- What the worker does that takes, uses or gives back something. A task ends when it is awaited, or on
-- its own before.
pub data Action : Type 0 where
  opens_database opens_provider_client opens_webhook_client : Action
  checks_connection : Action
  connects fails_to_connect : Action
  declares starts : Action
  relay_starts reconciliation_starts : Action
  waits : Action
  relay_ends reconciliation_ends : Action
  stops_broker : Action
  closes_provider_client closes_webhook_client closes_database : Action

-- What `run_worker` meets: how each call ends, whether a task is done when the wait ends, how the tasks
-- end, and whether the reconciliation ends while the relay is awaited.
pub record World : Type 0 where
  pub check : Result (Unit {0})
  pub connect : Result (Unit {0})
  pub declare : Result (Unit {0})
  pub start : Result (Unit {0})
  pub wait : Result (Unit {0})
  pub relay_done : Bool
  pub relay_end : Result (Unit {0})
  pub reconciliation_done : Bool
  pub reconciliation_end : Result (Unit {0})
  pub reconciliation_done_later : Bool
  pub stop : Result (Unit {0})
  pub close_provider : Result (Unit {0})
  pub close_webhook : Result (Unit {0})
  pub close_database : Result (Unit {0})

-- The actions of a part of the function, and how it ends.
pub record Trace : Type 0 where
  pub actions : List Action
  pub result : Result (Unit {0})

-- The `try` block, with the variables that the `finally` clause reads; both tasks are made, or none.
pub record Attempt : Type 0 where
  pub trace : Trace
  pub broker_connected : Bool
  pub broker_started : Bool
  pub has_tasks : Bool

-- `await`, and what follows if it raises nothing.
abbrev pub awaits : Action → Result (Unit {0}) → Trace → Trace
awaits a (ok done) rest = record { actions = a ∷ rest.actions; result = rest.result }
awaits a (err e) rest = record { actions = a ∷ []; result = err e }

abbrev pub follows : Action → Attempt → Attempt
follows a t = record t { trace = record { actions = a ∷ t.trace.actions; result = t.trace.result } }

-- A done task is awaited: it raises what it has ended with.
abbrev pub joined : Bool → Result (Unit {0}) → Result (Unit {0})
joined done end = if done then end else ok tt

abbrev pub ended : Bool → Action → List Action
ended done a = if done then a ∷ [] else []

unfoldable pub running : World → Attempt
running w = record {
  trace = record {
    actions =
        relay_starts ∷ reconciliation_starts ∷ waits ∷ ended w.relay_done relay_ends
        ++ ended w.reconciliation_done reconciliation_ends;
    result =
        w.wait
        >> joined w.relay_done w.relay_end
        >> joined w.reconciliation_done w.reconciliation_end;
  };
  broker_connected = true;
  broker_started = true;
  has_tasks = true;
}

-- The `try` block ends with an exception before there are tasks.
abbrev pub fails : Action → Error → Bool → Attempt
fails a e connected = record {
  trace = record { actions = a ∷ []; result = err e };
  broker_connected = connected;
  broker_started = false;
  has_tasks = false;
}

after_start : World → Result (Unit {0}) → Attempt
unfolding running
after_start w (err e) = fails starts e true
after_start w (ok done) = follows starts (running w)

after_declare : World → Result (Unit {0}) → Attempt
unfolding after_start
after_declare w (err e) = fails declares e true
after_declare w (ok done) = follows declares (after_start w w.start)

after_connect : World → Result (Unit {0}) → Attempt
unfolding after_declare
after_connect w (err e) = fails fails_to_connect e false
after_connect w (ok done) = follows connects (after_declare w w.declare)

after_check : World → Result (Unit {0}) → Attempt
unfolding after_connect
after_check w (err e) = fails checks_connection e false
after_check w (ok done) = follows checks_connection (after_connect w w.connect)

unfoldable pub attempt : World → Attempt
unfolding after_check
attempt w = after_check w w.check

-- The last lines of the `finally` clause.
unfoldable pub close_all : World → Trace
close_all w = awaits closes_provider_client w.close_provider (
    awaits closes_webhook_client w.close_webhook
      (awaits closes_database w.close_database (record { actions = []; result = ok tt })))

-- `with suppress(Exception): await broker.stop()`
unfoldable pub stop_broker : Bool → World → Trace
unfolding close_all
stop_broker true w = awaits stops_broker (caught w.stop) (close_all w)
stop_broker false w = close_all w

-- A task that is not done is awaited; a task that ends meanwhile is not, and what it raised is lost.
unfoldable pub leave_reconciliation : Bool → World → Trace → Trace
leave_reconciliation awaited_relay w rest =
    if w.reconciliation_done
    then rest
    else if awaited_relay && w.reconciliation_done_later
    then awaits reconciliation_ends (ok tt) rest
    else awaits reconciliation_ends w.reconciliation_end rest

unfoldable pub leave_tasks : World → Trace → Trace
unfolding leave_reconciliation
leave_tasks w rest =
    if w.relay_done
    then leave_reconciliation false w rest
    else awaits relay_ends w.relay_end (leave_reconciliation true w rest)

-- The `finally` clause.
unfoldable pub cleanup : Attempt → World → Trace
unfolding leave_tasks stop_broker
cleanup t w =
    let rest = stop_broker (t.broker_started || t.broker_connected) w in
    if t.has_tasks then leave_tasks w rest else rest

-- An exception of the `finally` clause takes the place of the one before.
abbrev pub finished : Attempt → Trace → Trace
finished t last = record {
  actions = t.trace.actions ++ last.actions;
  result = last.result >> t.trace.result;
}

-- What comes before the `try` block is not covered by its `finally` clause.
built : World → Result Components → Trace
unfolding attempt cleanup
built w (err e) = record { actions = []; result = err e }
built w (ok c) = let t = attempt w in finished t (cleanup t w)

opened : Trace → Trace
opened t = record {
  actions = opens_database ∷ opens_provider_client ∷ opens_webhook_client ∷ t.actions;
  result = t.result;
}

configured : World → Result Settings → Trace
unfolding built opened
configured w (err e) = record { actions = []; result = err e }
configured w (ok s) = opened (built w (build s))

-- `run_worker`
unfoldable pub run_worker : Settings → World → Trace
unfolding configured
run_worker s w = configured w (get_settings s)
