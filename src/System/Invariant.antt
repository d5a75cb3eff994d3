-- ===== src/System/Invariant.antt =====
-- The invariant of the system, step by step: app/services, app/worker and app/integrations/rabbitmq.
use async_payment_processing.Prelude.{
  ◌+◌, ◌≤◌, ◌≡◌, refl, ap, ◌∙◌, ◌⊎◌, inl, inr, true, some, List, arith, is_some, tally,
}
use async_payment_processing.Schemas.{EventEnvelope}
use async_payment_processing.Models.{Database}
use async_payment_processing.Repositories.Outbox.Found.{find_event}
use async_payment_processing.Services.Reconciliation.{Config}
use async_payment_processing.Worker.Publisher.{
  payments_dlq, message_ttl, payments_new, Queue, bound_queue,
}
use async_payment_processing.Worker.Consumer.{Settlement, ack, reject, nack}
use async_payment_processing.Worker.Consumer.Retries.{dead_letter_queue}
use async_payment_processing.Flow.Handled.{IsHandled, IsHandled-later}
use async_payment_processing.Flow.Reach.{Reach, empty, Reach-IsSound, Reach-Advances}
use async_payment_processing.Flow.Reach
use async_payment_processing.System.Broker.{BrokerContract}
use async_payment_processing.System.Step.{
  SystemState, SystemStep, SystemReach, IsInitial, local, publishes, relays, settles, expires,
  requeues, starts, continues, is_attempt, handle_payment_queue_message,
}
use async_payment_processing.System.Accounted.{IsAccounted}
use async_payment_processing.System.Transactions.{local-IsAccounted, relays-IsAccounted}
use async_payment_processing.System.Messages.{
  publishes-IsAccounted, moves-IsAccounted, acks-IsAccounted,
}
use async_payment_processing.System.Settled.{handle_payment_queue_message-acks}

-- A queue with a time limit has a queue for what is over.
ttl-dead_letter_queue :
    (q : Queue) → is_some (message_ttl q) ≡ true → dead_letter_queue q ≡ some payments_new
unfolding bound_queue
ttl-dead_letter_queue Queue.payments_new h = cc
ttl-dead_letter_queue Queue.payments_retry_1 h = refl
ttl-dead_letter_queue Queue.payments_retry_2 h = refl
ttl-dead_letter_queue Queue.payments_dlq h = cc

new-dead_letter_queue : dead_letter_queue payments_new ≡ some payments_dlq
unfolding bound_queue
new-dead_letter_queue = refl

Settles-IsAccounted :
    (B : BrokerContract) (log : List EventEnvelope) (db : Database) (s t : B.State)
    (event : EventEnvelope) (x : Settlement)
    → B.Settles s event x t
    → (x ≡ ack
        → (1 ≤ tally (is_attempt event.event_id (event.attempt + 1)) log)
          ⊎ IsHandled event.event_type event.payment_id db)
    → IsAccounted log (B.held s) db
    → IsAccounted log (B.held t) db
Settles-IsAccounted B log db s t event ack moves done h =
    acks-IsAccounted log (B.held s) (B.held t) db event (λ test. B.acks-held s t event test moves)
      (done refl) h
Settles-IsAccounted B log db s t event reject moves done h =
    moves-IsAccounted log (B.held s) (B.held t) db
      (λ test. B.rejects-held s t event payments_dlq test moves new-dead_letter_queue) h
Settles-IsAccounted B log db s t event nack moves done h =
    moves-IsAccounted log (B.held s) (B.held t) db (λ test. B.nacks-held s t event test moves) h

module _ {c : Config} {B : BrokerContract} where
  pub SystemReach-Reach : {s : SystemState c B} → SystemReach c B s → Reach c empty s.db
  SystemReach-Reach (starts (at_empty, none_held, no_log)) = rw at_empty Reach.here
  SystemReach-Reach (continues r (local st own)) = Reach.next (SystemReach-Reach r) st
  SystemReach-Reach (continues r (publishes own routed p)) = SystemReach-Reach r
  SystemReach-Reach (continues r (relays confirms tx locked size logged)) =
      Reach.next (SystemReach-Reach r) (Reach.relay confirms tx locked size)
  SystemReach-Reach (continues r (settles confirms p w event worker x l a t)) = SystemReach-Reach r
  SystemReach-Reach (continues r (expires h m)) = SystemReach-Reach r
  SystemReach-Reach (continues r (requeues m)) = SystemReach-Reach r

  initial-IsAccounted :
      (s : SystemState c B) → IsInitial c B s → IsAccounted s.log (B.held s.broker) s.db
  unfolding find_event
  initial-IsAccounted s (at_empty, none_held, no_log) =
      rw (at_empty, none_held, no_log)
        (record {
          envelopes = tt;
          found = tt;
          known = refl;
          valid = refl;
          arrived = λ test. omega arith;
          marked = λ k e f. cc;
          kept = λ k n e f l. cc;
        })

  SystemStep-IsAccounted :
      {s t : SystemState c B}
      → SystemStep c B s t
      → IsAccounted s.log (B.held s.broker) s.db
      → IsAccounted t.log (B.held t.broker) t.db
  SystemStep-IsAccounted {s} {t} (local st own) h =
      local-IsAccounted s.log (B.held s.broker) s.db t.db st own h
  SystemStep-IsAccounted {s} {t} (publishes {m} {q} own routed p) h =
      publishes-IsAccounted s.log (B.held s.broker) (B.held t.broker) s.db m
        (λ test. B.publishes-held s.broker t.broker m q test p routed) own h
  SystemStep-IsAccounted {s} (relays confirms tx locked size logged) h =
      relays-IsAccounted s.log (B.held s.broker) s.db confirms tx locked size logged h
  SystemStep-IsAccounted {s} {t} (settles {x} confirms penv wenv event worker ended l after moves)
        h =
      Settles-IsAccounted B s.log s.db s.broker t.broker event x moves
        (λ is_ack.
          elim (handle_payment_queue_message-acks s.log confirms penv wenv event worker
            (ended ∙ ap some is_ack) l) [
              | inl next ↦ inl next
              | inr handled ↦ inr (
                  IsHandled-later event.event_type event.payment_id
                    (handle_payment_queue_message confirms penv wenv event worker).1.db s.db
                    (Reach-Advances after) handled)
            ])
        h
  SystemStep-IsAccounted {s} {t} (expires {q} over moves) h =
      moves-IsAccounted s.log (B.held s.broker) (B.held t.broker) s.db
        (λ test.
          B.expires-held s.broker t.broker q payments_new test moves (ttl-dead_letter_queue q over))
        h
  SystemStep-IsAccounted {s} {t} (requeues moves) h =
      moves-IsAccounted s.log (B.held s.broker) (B.held t.broker) s.db
        (λ test. B.requeues-held s.broker t.broker test moves) h

  pub SystemReach-IsAccounted :
      {s : SystemState c B} → SystemReach c B s → IsAccounted s.log (B.held s.broker) s.db
  SystemReach-IsAccounted {s} (starts h) = initial-IsAccounted s h
  SystemReach-IsAccounted (continues r st) = SystemStep-IsAccounted st (SystemReach-IsAccounted r)
