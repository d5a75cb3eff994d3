-- ===== src/Flow/Envelopes.antt =====
-- The payloads of the outbox rows, and the turns of the relay: app/services.
use async_payment_processing.Prelude.{ℕ, ◌≤◌, ◌≡◌, inl, inr, ok, All, All-append, List, [], ◌∷◌}
use async_payment_processing.Models.{Database}
use async_payment_processing.Services.Relay.Loop.{Turn, run}
use async_payment_processing.Services.Relay.Marks.{IsEnvelope, waiting, waiting_as, confirmed_as}
use async_payment_processing.Services.Relay.Turns.{turn-keeps}
use async_payment_processing.Services.Relay.Drained.{HasGood, IsQuiet, run-delivers}
use async_payment_processing.Services.Reconciliation.{Config}
use async_payment_processing.Flow.Outbox.{HasGrown, Step-HasGrown, IsLocal-cases}
use async_payment_processing.Flow.Reach.{Step, Reach, empty}

-- Every event of the outbox has its own envelope as its payload.
abbrev pub AllEnvelopes : Database → Type 0
AllEnvelopes db = All IsEnvelope db.outbox

pub HasGrown-AllEnvelopes : (t u : Database) → HasGrown t u → AllEnvelopes t → AllEnvelopes u
HasGrown-AllEnvelopes t u (inl same) a = rw same a
HasGrown-AllEnvelopes t u (inr (e, same, fresh, waits, envelope)) a =
    rw same (All-append IsEnvelope t.outbox (e ∷ []) a (envelope, tt))

Step-AllEnvelopes : {c : Config} {t u : Database} → Step c t u → AllEnvelopes t → AllEnvelopes u
Step-AllEnvelopes {c} {t} {u} st a = elim (IsLocal-cases st) [
  | inl own ↦ HasGrown-AllEnvelopes t u (Step-HasGrown st own) a
  | inr (broker, tx, locked, size, same) ↦ rw same (turn-keeps broker tx locked size t a).0
]

pub Reach-AllEnvelopes : {c : Config} {t : Database} → Reach c empty t → AllEnvelopes t
Reach-AllEnvelopes Reach.here = tt
Reach-AllEnvelopes (Reach.next r s) = Step-AllEnvelopes s (Reach-AllEnvelopes r)

-- From every database that transactions reach from the empty one, the loop of the relay delivers all
-- events that wait: if a batch holds at least one event and at least as many turns as events wait
-- meet a server, a broker and rows that serve them, whatever fails in the other turns, apart from a
-- cancellation, and whatever others commit that leaves the outbox alone, then the loop ends with no
-- exception when it is stopped, no event waits any more, and for each event that waited the broker
-- has confirmed a message with its id.
pub Reach-delivers :
    {c : Config} {db : Database} (batch_size : ℕ) (ts : List Turn)
    → Reach c empty db
    → 1 ≤ batch_size
    → All IsQuiet ts
    → HasGood (waiting db.outbox) ts
    → let (confirmed, result, db') = run batch_size ts db in
      (result ≡ ok tt)
      × (waiting db'.outbox ≡ 0)
      × ((k : ℕ) → 1 ≤ waiting_as k db.outbox → 1 ≤ confirmed_as k confirmed)
Reach-delivers {db} batch_size ts reach le q g =
    run-delivers batch_size ts db le (Reach-AllEnvelopes reach) q g
