-- ===== src/Startup/Orderly.antt =====
-- The actions of the worker under the monitor: app/worker/main.py, `run_worker`.
use async_payment_processing.Prelude.{
  ◌≡◌, refl, ◌⊎◌, inl, inr, Bool, true, false, Option, none, some, List, [], ◌∷◌, ◌++◌, ok, err,
  caught, Error, Result-cases, Bool-cases, ◌&&◌, not, ◌||◌,
}
use async_payment_processing.Startup.{Settings, get_settings, Components, build}
use async_payment_processing.Startup.Lifecycle.{
  Action, World, Trace, Attempt, attempt, running, cleanup, close_all, stop_broker, leave_tasks,
  leave_reconciliation, run_worker,
}
use async_payment_processing.Startup.Monitor.{Held, nothing_held, clients_held, held_after, allow}

held_after-append :
    (xs ys : List Action) (h : Option Held)
    → held_after (xs ++ ys) h ≡ held_after ys (held_after xs h)
held_after-append [] [] none = refl
held_after-append [] (y ∷ ys) none = refl
held_after-append (x ∷ xs) [] none = refl
held_after-append (x ∷ xs) (y ∷ ys) none = refl
held_after-append [] ys (some h) = refl
held_after-append (x ∷ xs) ys (some h) = held_after-append xs ys (allow x h)

-- No step of the `finally` clause raises: a task that it awaits ends with no exception, the broker is
-- stopped without a cancellation, and both clients are closed.
pub record IsQuiet (w : World) : Type 0 where
  pub relay : w.relay_done ≡ false → w.relay_end ≡ ok tt
  pub reconciliation : w.reconciliation_done ≡ false → w.reconciliation_end ≡ ok tt
  pub stop : caught w.stop ≡ ok tt
  pub close_provider : w.close_provider ≡ ok tt
  pub close_webhook : w.close_webhook ≡ ok tt
  pub close_database : w.close_database ≡ ok tt

-- What a `try` block leaves to the `finally` clause.
abbrev left : World → Bool → Bool → Held
left w connected tasks = record clients_held {
  broker = connected;
  relay = tasks && not w.relay_done;
  reconciliation = tasks && not w.reconciliation_done;
}

-- What the `finally` clause is given: the tasks only run if the broker was connected.
abbrev IsLeft : World → Attempt → Type 0
IsLeft w t =
    let connected = t.broker_started || t.broker_connected in
    (held_after t.trace.actions (some clients_held) ≡ some (left w connected t.has_tasks))
    × (t.has_tasks ≡ true → connected ≡ true)

running-held :
    (w : World) (h : Held)
    → h ≡ record clients_held { broker = true }
    → held_after (running w).trace.actions (some h) ≡ some (left w true true)
unfolding running
running-held w h same = elim (Bool-cases w.relay_done) [
  | inl r ↦ elim (Bool-cases w.reconciliation_done) [
    | inl c ↦ rw (same, r, c)
    | inr c ↦ rw (same, r, c)
  ]
  | inr r ↦ elim (Bool-cases w.reconciliation_done) [
    | inl c ↦ rw (same, r, c)
    | inr c ↦ rw (same, r, c)
  ]
]

attempt-IsLeft : (w : World) → IsLeft w (attempt w)
unfolding attempt
attempt-IsLeft w = elim (Result-cases w.check) [
  | inl (x, e) ↦ rw e (refl, λ t. cc)
  | inr (u, e) ↦ elim (Result-cases w.connect) [
    | inl (x, f) ↦ rw (e, f) (refl, λ t. cc)
    | inr (u, f) ↦ elim (Result-cases w.declare) [
      | inl (x, g) ↦ rw (e, f, g) (refl, λ t. refl)
      | inr (u, g) ↦ elim (Result-cases w.start) [
        | inl (x, k) ↦ rw (e, f, g, k) (refl, λ t. refl)
        | inr (u, k) ↦ rw (e, f, g, k) (running-held w _ refl, λ t. refl)
      ]
    ]
  ]
]

module _ (w : World) (quiet : IsQuiet w) where
  close_all-held :
      (held_after (close_all w).actions (some clients_held) ≡ some nothing_held)
      × ((close_all w).result ≡ ok tt)
  unfolding close_all
  close_all-held = rw (quiet.close_provider, quiet.close_webhook, quiet.close_database) (refl, refl)

  stop_broker-held :
      (connected : Bool)
      → (held_after
            (stop_broker connected w).actions
            (some (record clients_held { broker = connected }))
          ≡ some nothing_held)
        × ((stop_broker connected w).result ≡ ok tt)
  unfolding stop_broker
  stop_broker-held true = rw (quiet.stop) close_all-held
  stop_broker-held false = close_all-held

  leave_tasks-held :
      (rest : Trace)
      → (held_after rest.actions (some (record clients_held { broker = true })) ≡ some nothing_held)
        × (rest.result ≡ ok tt)
      → (held_after (leave_tasks w rest).actions (some (left w true true)) ≡ some nothing_held)
        × ((leave_tasks w rest).result ≡ ok tt)
  unfolding leave_tasks leave_reconciliation
  leave_tasks-held rest h = elim (Bool-cases w.relay_done) [
    | inl r ↦ elim (Bool-cases w.reconciliation_done) [
      | inl c ↦ rw (r, c) h
      | inr c ↦ rw (r, c, quiet.reconciliation c) h
    ]
    | inr r ↦ elim (Bool-cases w.reconciliation_done) [
      | inl c ↦ rw (r, c, quiet.relay r) h
      | inr c ↦ elim (Bool-cases w.reconciliation_done_later) [
        | inl l ↦ rw (r, c, quiet.relay r, l) h
        | inr l ↦ rw (r, c, quiet.relay r, l, quiet.reconciliation c) h
      ]
    ]
  ]

  cleanup-held :
      (t : Attempt)
      → IsLeft w t
      → (held_after
            (cleanup t w).actions
            (some (left w (t.broker_started || t.broker_connected) t.has_tasks))
          ≡ some nothing_held)
        × ((cleanup t w).result ≡ ok tt)
  unfolding cleanup
  cleanup-held t (held, tasks) = elim (Bool-cases t.has_tasks) [
    | inl e ↦ rw (e, tasks e) (leave_tasks-held (stop_broker true w) (stop_broker-held true))
    | inr e ↦ rw e (stop_broker-held (t.broker_started || t.broker_connected))
  ]

  built-held :
      (held_after ((attempt w).trace.actions ++ (cleanup (attempt w) w).actions) (some clients_held)
        ≡ some nothing_held)
      × ((cleanup (attempt w) w).result ≡ ok tt)
  built-held =
      let left_so = attempt-IsLeft w in
      let (held, fine) = cleanup-held (attempt w) left_so in
      (
        rw
            (
              held_after-append (attempt w).trace.actions (cleanup (attempt w) w).actions
                  (some clients_held),
              left_so.0,
            )
            held,
        fine,
      )

-- If the components accept the settings, then however far the worker comes, and however its tasks end
-- before the shutdown, it takes, uses and gives back what it needs in a right order, ends with what
-- its `try` block ended with and then holds nothing: its tasks are over, the broker is stopped if it
-- was connected, and both clients and the database are closed. If the components refuse the settings,
-- the worker ends with that exception and leaves the database and both clients open. The settings
-- are valid, and no step of the `finally` clause raises.
pub run_worker-orderly :
    (s r : Settings) (w : World)
    → get_settings s ≡ ok r
    → IsQuiet w
    → let final = held_after (run_worker s w).actions (some nothing_held) in
      ((c : Components) × (build r ≡ ok c)
        × (final ≡ some nothing_held)
        × ((run_worker s w).result ≡ (attempt w).trace.result))
      ⊎ ((e : Error) × (build r ≡ err e)
          × (final ≡ some clients_held)
          × ((run_worker s w).result ≡ err e))
unfolding run_worker
run_worker-orderly s r w h quiet = elim (Result-cases (build r)) [
  | inr (c, made) ↦
      let (held, fine) = built-held w quiet in inl (c, made, rw (h, made) held, rw (h, made, fine))
  | inl (e, refused) ↦ inr (e, refused, rw (h, refused), rw (h, refused))
]
