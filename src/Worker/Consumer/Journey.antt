-- ===== src/Worker/Consumer/Journey.antt =====
-- The way of one event through the queues: app/worker/consumer.py and app/integrations/rabbitmq.
use async_payment_processing.Prelude.{
  ℕ, zero, suc, ◌≤◌, ◌≡◌, refl, ◌≢◌, ◌⊎◌, inl, inr, Option, none, some, List, [], ◌∷◌, arith,
  is_some, if◌then◌else◌, ok, err, Result, permanent_event, cancelled, base_exception, ◌-◌, take,
  ap,
}
use async_payment_processing.Schemas.{EventEnvelope}
use async_payment_processing.Worker.Publisher.{
  Queue, payments_new, payments_dlq, message_ttl, new_message, retry_message, publish_retry,
  bound_queue,
}
use async_payment_processing.Worker.Consumer.{
  ack, reject, nack, Handled, after_process, retry_or_reject,
}
use async_payment_processing.Worker.Consumer.Retries.{route, dead_letter_queue}

-- Where an event is: in a queue, processed, or dropped by an exchange that knows no queue for it.
pub data Place : Type 0 where
  waits : Queue → EventEnvelope → Place
  processed dropped : Place

abbrev pub arrives : Option Queue → EventEnvelope → Place
arrives none event = dropped
arrives (some q) event = waits q event

-- What becomes of a delivery from the queue of new events: a retry goes where its message is routed,
-- with the body of that message; a rejected event goes to the dead-letter queue; an unsettled or
-- refused one is delivered again.
abbrev pub after_delivery : EventEnvelope → Handled → Place
after_delivery event h = elim h.retried [
  | some m ↦ arrives (route m) m.body
  | none ↦ elim h.settlement [
    | none ↦ waits payments_new event
    | some s ↦ elim s [
      | ack ↦ processed
      | reject ↦ arrives (dead_letter_queue payments_new) event
      | nack ↦ waits payments_new event
    ]
  ]
]

-- One move of the event, over a broker that confirms every publication: `outcome` is what the
-- processor does at each attempt. A queue with a time limit passes the event on when it is over.
pub move : (ℕ → Result (Unit {0})) → Place → Place
move outcome (waits payments_new event) =
    after_delivery event (after_process (λ m. ok tt) event (outcome event.attempt))
move outcome (waits q event) =
    if is_some (message_ttl q) then arrives (dead_letter_queue q) event else waits q event
move outcome processed = processed
move outcome dropped = dropped

-- The attempt with which the event is delivered at a place, if it is.
abbrev pub delivered : Place → List ℕ → List ℕ
delivered (waits payments_new event) rest = event.attempt ∷ rest
delivered _ rest = rest

-- The attempts that are delivered in a number of moves, and the place after them.
pub journey : ℕ → (ℕ → Result (Unit {0})) → Place → List ℕ × Place
journey zero outcome p = ([], p)
journey (suc moves) outcome p =
    let (rest, last) = journey moves outcome (move outcome p) in (delivered p rest, last)

-- Where the relay puts the event.
abbrev pub published : EventEnvelope → Place
published event = arrives (route (new_message event)) (new_message event).body

-- The event at one of its attempts.
abbrev pub attempt_of : ℕ → EventEnvelope → EventEnvelope
attempt_of n event = record event { attempt = n }

after_process-class :
    (event : EventEnvelope) (r : Result (Unit {0}))
    → r ≢ err cancelled
    → r ≢ err base_exception
    → (r ≡ ok tt)
      ⊎ (r ≡ err permanent_event)
      ⊎ ((r ≢ ok tt) × (after_process (λ m. ok tt) event r ≡ retry_or_reject (λ m. ok tt) event))
unfolding after_process
after_process-class event r nc nb = ground arith

module _ (outcome : ℕ → Result (Unit {0})) (event : EventEnvelope) where
  processed-rests : (n : ℕ) → journey n outcome processed ≡ ([], processed)
  unfolding journey move
  processed-rests zero = refl
  processed-rests (suc n) = rw (processed-rests n) refl

  dead-rests :
      (n : ℕ) (e : EventEnvelope)
      → journey n outcome (waits payments_dlq e) ≡ ([], waits payments_dlq e)
  unfolding journey move
  dead-rests zero e = refl
  dead-rests (suc n) e = rw (dead-rests n e) refl

  ends_ok :
      (n a : ℕ)
      → outcome a ≡ ok tt
      → journey (suc n) outcome (waits payments_new (attempt_of a event)) ≡ (a ∷ [], processed)
  unfolding journey move after_process
  ends_ok n a e = rw (e, processed-rests n) refl

  ends_dead :
      (n a : ℕ)
      → outcome a ≡ err permanent_event
      → journey (suc n) outcome (waits payments_new (attempt_of a event))
        ≡ (a ∷ [], waits payments_dlq (attempt_of a event))
  unfolding journey move after_process bound_queue
  ends_dead n a e = rw (e, dead-rests n) refl

  goes_on :
      (n : ℕ)
      → after_process (λ m. ok tt) (attempt_of 1 event) (outcome 1)
        ≡ retry_or_reject (λ m. ok tt) (attempt_of 1 event)
      → journey (suc (suc n)) outcome (waits payments_new (attempt_of 1 event)) ≡ (
        1 ∷ (journey n outcome (waits payments_new (attempt_of 2 event))).0,
        (journey n outcome (waits payments_new (attempt_of 2 event))).1,
      )
  unfolding journey move retry_or_reject publish_retry retry_message bound_queue
  goes_on n e = rw e refl

  goes_on_again :
      (n : ℕ)
      → after_process (λ m. ok tt) (attempt_of 2 event) (outcome 2)
        ≡ retry_or_reject (λ m. ok tt) (attempt_of 2 event)
      → journey (suc (suc n)) outcome (waits payments_new (attempt_of 2 event)) ≡ (
        2 ∷ (journey n outcome (waits payments_new (attempt_of 3 event))).0,
        (journey n outcome (waits payments_new (attempt_of 3 event))).1,
      )
  unfolding journey move retry_or_reject publish_retry retry_message bound_queue
  goes_on_again n e = rw e refl

  ends_last :
      (n : ℕ)
      → after_process (λ m. ok tt) (attempt_of 3 event) (outcome 3)
        ≡ retry_or_reject (λ m. ok tt) (attempt_of 3 event)
      → journey (suc n) outcome (waits payments_new (attempt_of 3 event))
        ≡ (3 ∷ [], waits payments_dlq (attempt_of 3 event))
  unfolding journey move retry_or_reject bound_queue
  ends_last n e = rw (e, dead-rests n) refl

  -- The way of an event has ended at its attempt `n`.
  abbrev pub HasEnded : List ℕ × Place → ℕ → Type 0
  HasEnded x n =
      (x.0 ≡ take n (1 ∷ 2 ∷ 3 ∷ []))
      × (((x.1 ≡ processed) × (outcome n ≡ ok tt))
          ⊎ ((x.1 ≡ waits payments_dlq (attempt_of n event))
              × ((outcome n ≡ err permanent_event) ⊎ ((n ≡ 3) × (outcome n ≢ ok tt)))))

  -- The journey from an attempt on.
  abbrev from : ℕ → ℕ → List ℕ × Place
  from n a = journey n outcome (waits payments_new (attempt_of a event))

  third :
      (n : ℕ)
      → outcome 3 ≢ err cancelled
      → outcome 3 ≢ err base_exception
      → ((from (suc n) 3).0 ≡ 3 ∷ [])
        × ((((from (suc n) 3).1 ≡ processed) × (outcome 3 ≡ ok tt))
            ⊎ (((from (suc n) 3).1 ≡ waits payments_dlq (attempt_of 3 event))
                × (outcome 3 ≢ ok tt)))
  third n nc nb = elim (after_process-class (attempt_of 3 event) (outcome 3) nc nb) [
    | inl done ↦ rw (ends_ok n 3 done) (refl, inl (refl, done))
    | inr (inl failed) ↦ rw (ends_dead n 3 failed) (refl, inr (refl, λ e. ground arith))
    | inr (inr (ne, again)) ↦ rw (ends_last n again) (refl, inr (refl, ne))
  ]

  -- Over a broker that confirms every publication, and unless the processor ends in an exception
  -- outside Exception, a published event that carries its first attempt has ended its way after five
  -- moves between the queues, whatever the processor does: it was delivered at most three times, with
  -- the attempts 1, 2 and 3 in this order; and either it was processed at the last of them, or it
  -- waits in the DLQ with this attempt, which failed for good or was the third.
  pub journey-ends :
      (moves : ℕ)
      → ((k : ℕ) → outcome k ≢ err cancelled)
      → ((k : ℕ) → outcome k ≢ err base_exception)
      → 5 ≤ moves
      → (n : ℕ) × (1 ≤ n)
        × (n ≤ 3)
        × HasEnded (journey moves outcome (published (attempt_of 1 event))) n
  unfolding bound_queue
  journey-ends moves nc nb enough =
      rw (five moves enough)
        (elim (after_process-class (attempt_of 1 event) (outcome 1) (nc 1) (nb 1)) [
          | inl done ↦ (1, omega arith, omega arith, rw (ends_ok _ 1 done) (refl, inl (refl, done)))
          | inr (inl failed) ↦ (
            1,
            omega arith,
            omega arith,
            rw (ends_dead _ 1 failed) (refl, inr (refl, inl failed)),
          )
          | inr (inr (ne, again)) ↦
              elim (after_process-class (attempt_of 2 event) (outcome 2) (nc 2) (nb 2)) [
                | inl done ↦ (
                  2,
                  omega arith,
                  omega arith,
                  rw (goes_on _ again, ends_ok _ 2 done) (refl, inl (refl, done)),
                )
                | inr (inl failed) ↦ (
                  2,
                  omega arith,
                  omega arith,
                  rw (goes_on _ again, ends_dead _ 2 failed) (refl, inr (refl, inl failed)),
                )
                | inr (inr (ne', again')) ↦
                    let (attempts, last) = third (moves - 5) (nc 3) (nb 3) in
                    (
                      3,
                      omega arith,
                      omega arith,
                      rw (goes_on _ again, goes_on_again _ again')
                          (
                            ap (λ l. 1 ∷ 2 ∷ l) attempts,
                            elim last [
                              | inl done ↦ inl done
                              | inr (dead, ne'') ↦ inr (dead, inr (refl, ne''))
                            ],
                          ),
                    )
              ]
        ])
    where
      five : (n : ℕ) → 5 ≤ n → n ≡ suc (suc (suc (suc (suc (n - 5)))))
      five n le = omega arith
