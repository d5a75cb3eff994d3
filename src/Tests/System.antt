-- ===== src/Tests/System.antt =====
-- A run of the whole system over a broker whose queues are one list.
use async_payment_processing.Prelude.{
  ◌+◌, ◌≡◌, refl, ap, Bool, true, false, none, some, List, [], ◌∷◌, ◌++◌, arith, if◌then◌else◌, ok,
  err, tally, tally-append, provider_unavailable, All,
}
use mathlib.Core.List.{mem-cons_self}
use async_payment_processing.Services.Create.{insert_both}
use async_payment_processing.Repositories.Payments.{add}
use async_payment_processing.Repositories.Outbox.{add_event}
use async_payment_processing.Schemas.{provider_payment_request}
use async_payment_processing.Schemas.{EventEnvelope}
use async_payment_processing.Breaker
use async_payment_processing.Prelude.Sort.{sort_by}
use async_payment_processing.Models.{Database, OutboxEvent}
use async_payment_processing.Models.Rows.{find}
use async_payment_processing.Schemas.{is_pending, is_terminal, validate_envelope}
use async_payment_processing.Repositories.Outbox.Found.{find_event}
use async_payment_processing.Repositories.Outbox.{get_unpublished_batch, mark_published}
use async_payment_processing.Repositories.Session.{commit, loads}
use async_payment_processing.Services.Relay.{process_batch, publish_all}
use async_payment_processing.Worker.Payment
use async_payment_processing.Worker.Dispatcher
use async_payment_processing.Worker.Dispatcher.{Worker}
use async_payment_processing.Worker.Publisher.{
  Message, Queue, new_message, retry_message, publish_retry, payments_retry_1, of_queue,
  bound_queue,
}
use async_payment_processing.Worker.Consumer.{Settlement, ack, reject, nack, handle, after_process}
use async_payment_processing.Flow.{is_request, is_webhook_as}
use async_payment_processing.Flow.Reach.{empty, insert}
use async_payment_processing.Flow.Reach
use async_payment_processing.System.Broker.{BrokerContract}
use async_payment_processing.System.Step.{
  SystemState, SystemReach, local, publishes, relays, settles, starts, continues, fresh, again,
}
use async_payment_processing.System.Processable.{IsProcessable, SystemReach-IsProcessable}
use async_payment_processing.System.Lossless.{IsCarried, SystemReach-IsCarried}
use async_payment_processing.Tests.Flow.{payment_env, webhook_env, closed}
use async_payment_processing.Tests.Samples.{
  config, tx_at, order, order-valid, new_row, request_row, db_pending, process_event,
}

-- An acknowledgement takes the message out of the list; all else leaves it.
abbrev Settles : List EventEnvelope → EventEnvelope → Settlement → List EventEnvelope → Type 0
Settles s m ack t =
    (xs : List EventEnvelope) × (ys : List EventEnvelope) × (s ≡ xs ++ m ∷ ys) × (t ≡ xs ++ ys)
Settles s m reject t = t ≡ s
Settles s m nack t = t ≡ s

publish-tally :
    (s t : List EventEnvelope) (m : Message) (q : Queue) (test : EventEnvelope → Bool)
    → t ≡ m.body ∷ s
    → bound_queue m.exchange m.routing_key ≡ some q
    → tally test t ≡ (if test m.body then 1 else 0) + tally test s
publish-tally s t m q test e routed = rw e

ack-tally :
    (s t : List EventEnvelope) (m : EventEnvelope) (test : EventEnvelope → Bool)
    → Settles s m ack t
    → tally test s ≡ (if test m then 1 else 0) + tally test t
ack-tally s t m test (xs, ys, e, f) =
    rw (e, f) (omega (arith, tally-append test xs (m ∷ ys), tally-append test xs ys))

abbrev one_list : BrokerContract
one_list = record {
  State = List EventEnvelope;
  held = λ s. s;
  Publishes = λ s m t. t ≡ m.body ∷ s;
  Settles = Settles;
  Expires = λ s q t. t ≡ s;
  Requeues = λ s t. t ≡ s;
  publishes-held = publish-tally;
  acks-held = ack-tally;
  rejects-held = λ s t m q test e d. ap (tally test) e;
  nacks-held = λ s t m test e. ap (tally test) e;
  expires-held = λ s t q q' test e d. ap (tally test) e;
  requeues-held = λ s t test e. ap (tally test) e;
}

abbrev state_of : Database → List EventEnvelope → List EventEnvelope → SystemState config one_list
state_of db held log = record { db = db; broker = held; log = log }

-- After the relay has marked the event.
abbrev db_relayed : Database
db_relayed = record db_pending { outbox = record request_row { published_at = some 2 } ∷ [] }

abbrev second : EventEnvelope
second = record process_event { attempt = 2 }

abbrev retry : Message
retry = record (new_message second) { routing_key = of_queue payments_retry_1 }

created : SystemReach config one_list (state_of db_pending [] [])
unfolding commit insert_both add add_event find
created =
    continues {s = state_of empty [] []} (starts (refl, refl, refl))
      (local (insert (tx_at 1) 50 order "order-123" "abc" order-valid) tt)

published :
    SystemReach config one_list (state_of db_pending (process_event ∷ []) (process_event ∷ []))
unfolding find_event validate_envelope bound_queue
published = continues created (publishes (fresh 50 request_row process_event refl refl) refl refl)

relayed :
    SystemReach config one_list (state_of db_relayed (process_event ∷ []) (process_event ∷ []))
unfolding process_batch publish_all commit validate_envelope get_unpublished_batch mark_published
    sort_by
relayed = continues published (relays (λ m. ok tt) (tx_at 2) (λ k. false) 10 (λ k h. h))

republished :
    SystemReach config one_list
      (state_of db_relayed (second ∷ process_event ∷ []) (second ∷ process_event ∷ []))
unfolding retry_message bound_queue
republished =
    continues relayed (publishes (again process_event {m = retry} mem-cons_self refl) refl refl)

-- The provider is down, so that the event is retried.
abbrev down : Payment.Env
down = record payment_env { provider = λ d. err provider_unavailable }

acknowledged :
    SystemReach config one_list (state_of db_relayed (second ∷ []) (second ∷ process_event ∷ []))
unfolding handle validate_envelope Dispatcher.process Payment.process Payment.load_provider_request
    loads after_process find provider_payment_request Payment.after_provider Breaker.call
    publish_retry
acknowledged = continues republished (
    settles {x = ack} (λ m. ok tt) down webhook_env process_event
      (record { db = db_relayed; breaker = closed }) refl (omega arith) Reach.here
      (second ∷ [], [], refl, refl))

row_found : find 101 db_relayed.payments ≡ some new_row
unfolding find
row_found = refl

SystemReach-IsCarried_example :
    (is_pending new_row.status ≡ true
      → (e : OutboxEvent) × (is_request 101 e ≡ true) × IsCarried db_relayed.outbox (second ∷ []) e)
    × (is_terminal new_row.status ≡ true
        → new_row.webhook_sent_at ≡ none
        → (e : OutboxEvent) × (is_webhook_as 101 new_row.webhook_event_id e ≡ true)
          × IsCarried db_relayed.outbox (second ∷ []) e)
SystemReach-IsCarried_example =
    SystemReach-IsCarried 101 new_row (omega arith) acknowledged row_found

SystemReach-IsProcessable_example : All (IsProcessable db_relayed) (second ∷ [])
SystemReach-IsProcessable_example = SystemReach-IsProcessable (omega arith) acknowledged
