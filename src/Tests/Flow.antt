-- ===== src/Tests/Flow.antt =====
-- One payment through the service, step by step.
use async_payment_processing.Flow.Complete.{
  event_with, IsAnswered, IsTaken, answered_row, told_row, process-completes,
}
use async_payment_processing.Breaker
use async_payment_processing.Schemas.{EventEnvelope, provider_payment_request}
use async_payment_processing.Flow.Sent.{process-sends_once}
use async_payment_processing.Repositories.Payments.{update, clashes_other}
use async_payment_processing.Repositories.Outbox.{add_event, has_event}
use async_payment_processing.Prelude.{
  ◌≡◌, refl, false, none, some, [], ◌∷◌, arith, ok, ◌++◌, true, if◌then◌else◌, err, database_error,
}
use async_payment_processing.Schemas.{PaymentStatus}
use async_payment_processing.Breaker.{Breaker, State}
use async_payment_processing.Models.{Payment as PaymentRow}
use async_payment_processing.Models.Rows.{find, replace}
use async_payment_processing.Repositories.Session.{save_with_event, commit, loads}
use async_payment_processing.Services.Reconciliation
use async_payment_processing.Worker.Payment
use async_payment_processing.Worker.Webhook
use async_payment_processing.Flow.{IsSound}
use async_payment_processing.Flow.Batch.{run-IsSound}
use async_payment_processing.Services.Reconciliation.Loop.{Turn, run}
use async_payment_processing.Flow.Later.{Advances}
use async_payment_processing.Flow.Reach.{Reach-IsSound, Reach-Advances, next, set_sent, here}
use async_payment_processing.Tests.Samples.{
  config, tx_at, answer, new_row, db_pending, db_unknown, db_final, final-Reach, pending-IsSound,
  unknown-IsSound, process_event, webhook_envelope,
}

abbrev pub closed : Breaker
closed = record {
  failure_threshold = 5;
  recovery_timeout = 15;
  state = State.closed;
  failure_count = 0;
  opened_at = none;
}

abbrev pub payment_env : Payment.Env
payment_env = record {
  started = 2;
  ended = 3;
  provider = λ d. ok answer;
  others = λ db. db;
  other_calls = λ b. b;
  tx = tx_at 3;
  reads = true;
}

abbrev pub webhook_env : Webhook.Env
webhook_env = record { deliver = λ d e a. ok tt; others = λ db. db; tx = tx_at 4; reads = true }

abbrev pub lookup_env : Reconciliation.Env
lookup_env = record {
  before = λ db. db;
  renew_tx = tx_at 41;
  started = 41;
  ended = 42;
  lookup = ok (some answer);
  others = λ db. db;
  other_calls = λ b. b;
  persist_tx = tx_at 43;
  processed_at = 43;
}

Reach-IsSound_example : IsSound 5 db_final
Reach-IsSound_example = Reach-IsSound {c = config} {db = db_final} (omega arith) final-Reach

Reach-Advances_example : Advances db_final (Webhook.mark_sent (tx_at 3) 101 102 db_final).1
Reach-Advances_example =
    Reach-Advances {c = config} {s = db_final} (next here (set_sent (tx_at 3) 101 102))

-- Two turns of the reconciliation.
abbrev lookup_turn : Turn
lookup_turn = record {
  before = λ db. db;
  other_calls = λ b. b;
  tx = tx_at 40;
  locked = λ k. false;
  env = λ k. lookup_env;
  wait = ok tt;
}

run-IsSound_example : IsSound 5 (run config (lookup_turn ∷ lookup_turn ∷ []) db_unknown closed).1
run-IsSound_example =
    run-IsSound config (lookup_turn ∷ lookup_turn ∷ []) db_unknown closed
      ((λ t h. h, λ k. (λ t h. h, λ t h. h)), ((λ t h. h, λ k. (λ t h. h, λ t h. h)), tt))
      unknown-IsSound

pending_found : find 101 db_pending.payments ≡ some new_row
unfolding find
pending_found = refl

unknown_found :
    find 101 db_unknown.payments
    ≡ some (record new_row { status = PaymentStatus.unknown; updated_at = 2 })
unfolding find
unknown_found = refl

abbrev final_row : PaymentRow
final_row = record (Payment.resolved 2 102 answer new_row) { updated_at = 2 }

final_found : find 101 db_final.payments ≡ some final_row
unfolding Payment.apply_provider_result save_with_event commit update add_event find replace
final_found = refl

-- Neither the provider's id nor the fresh id of the event is taken.
free :
    (clashes_other (Payment.resolved 2 102 answer new_row) db_pending.payments ≡ false)
    × (has_event 102 db_pending.outbox ≡ false)
unfolding clashes_other has_event
free = (refl, refl)

unsent_free :
    clashes_other (record final_row { webhook_sent_at = some 4 }) db_final.payments ≡ false
unfolding clashes_other Payment.apply_provider_result save_with_event commit update add_event
    replace find
unsent_free = refl

process-sends_once_example :
    let (result, db') = Webhook.process webhook_env webhook_envelope db_final in
    (result ≡ ok tt)
    × (find 101 db'.payments ≡ some (record final_row { webhook_sent_at = some 4; updated_at = 4 }))
    × ((later : Webhook.Env)
        → Webhook.process later webhook_envelope db'
          ≡ ((if later.reads then ok tt else err database_error), db'))
process-sends_once_example =
    process-sends_once 5 webhook_env webhook_envelope db_final final_row
      (Reach-IsSound {c = config} {db = db_final} (omega arith) final-Reach) refl final_found refl
      refl refl (λ d. refl) final_found refl refl unsent_free

-- The payment is processed at 3, and its webhook, under the id 103, is sent at 4.
abbrev told : EventEnvelope
told = record webhook_envelope { event_id = 103; occurred_at = 3 }

answered : IsAnswered 5 payment_env process_event db_pending closed new_row answer
unfolding find clashes_other has_event
answered = record {
  sound = pending-IsSound;
  sound_later = pending-IsSound;
  asks = refl;
  found = refl;
  found_later = refl;
  waits = refl;
  closed = refl;
  answers = λ d. refl;
  reads = refl;
  alive = refl;
  free = refl;
  fresh = refl;
}

abbrev done_row : PaymentRow
done_row = answered_row payment_env answer new_row

taken :
    IsTaken webhook_env told
      (Payment.process payment_env process_event db_pending closed).1
      done_row
unfolding find replace clashes_other Payment.process Payment.apply_provider_result
    Payment.load_provider_request loads provider_payment_request Payment.after_provider Breaker.call
    save_with_event update add_event
taken = record { takes = λ d. refl; found_later = refl; reads = refl; alive = refl; free = refl }

process-completes_example :
    let (r, db', b') = Payment.process payment_env process_event db_pending closed in
    let (r', db'') = Webhook.process webhook_env told db' in
    (r ≡ ok tt)
    × (db'.outbox ≡ db_pending.outbox ++ event_with told 3 ∷ [])
    × (r' ≡ ok tt)
    × (find 101 db''.payments ≡ some (told_row webhook_env done_row))
process-completes_example =
    process-completes 5 payment_env webhook_env process_event db_pending closed new_row answer
      answered taken
