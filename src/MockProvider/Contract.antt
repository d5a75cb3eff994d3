-- ===== src/MockProvider/Contract.antt =====
-- The contract of the mock provider, as an abstract service: mock-provider/app/main.py.
use async_payment_processing.Prelude.{ℕ, ◌≡◌, true, false, none, some, List, [], ◌∷◌, arith, All}
pub mod Refines
pub mod Runs
use async_payment_processing.Prelude.Maps.{update}
use async_payment_processing.MockProvider.Payments.{
  ProcessPaymentRequest, ProcessPaymentResponse, IdempotencyRecord, Records, Reply, http_error,
  replied, malformed, same_request, look_up,
}
use async_payment_processing.MockProvider.Step.{Provider, Answered}

-- There is a record of this payment, with this response.
abbrev pub HasResponse : Records → ProcessPaymentRequest → ProcessPaymentResponse → Type 0
HasResponse records payment r =
    (existing : IdempotencyRecord) × (records payment.payment_id ≡ some existing)
    × (same_request existing.request payment ≡ true)
    × (existing.response ≡ r)

-- There is a record under its key, of another payment.
abbrev pub HasConflict : Records → ProcessPaymentRequest → Type 0
HasConflict records payment =
    (existing : IdempotencyRecord) × (records payment.payment_id ≡ some existing)
    × (same_request existing.request payment ≡ false)

-- The reply that the records give reason for. A conflict is told only of another payment.
abbrev pub Explained : Records → ProcessPaymentRequest → Reply → Type 0
Explained records payment (http_error code) = code ≡ 409 → HasConflict records payment
Explained records payment (replied r) = HasResponse records payment r
Explained records payment (malformed r) = HasResponse records payment r

-- What the service shows of itself.
pub record View : Type 0 where
  pub records : Records
  pub history : List Answered

abbrev pub view : Provider → View
view s = record { records = s.records; history = s.history }

-- The abstract service: it makes a record where there is none, and it replies as its records say.
pub data Service (x : View) : View → Type 0 where
  silent : Service x x
  creates :
      {y : View}
      → Service x y
      → (payment : ProcessPaymentRequest) (response : ProcessPaymentResponse)
      → y.records payment.payment_id ≡ none
      → Service x (record y {
        records =
            update y.records payment.payment_id
              (some (record { request = payment; response = response }));
      })
  replies :
      {y : View}
      → Service x y
      → (payment : ProcessPaymentRequest) (reply : Reply) → Explained y.records payment reply
      → Service x (record y { history = record { payment = payment; reply = reply } ∷ y.history })

-- A record stays, with the replies that it explains.
abbrev pub Extends : Records → Records → Type 0
Extends r r' = (k : ℕ) (x : IdempotencyRecord) → r k ≡ some x → r' k ≡ some x

pub Extends-update :
    (r : Records) (k : ℕ) (x : IdempotencyRecord) → r k ≡ none → Extends r (update r k (some x))
Extends-update r k x free j y q = ground arith

pub Explained-Extends :
    (r r' : Records) (payment : ProcessPaymentRequest) (reply : Reply)
    → Extends r r'
    → Explained r payment reply
    → Explained r' payment reply
Explained-Extends r r' payment (http_error code) e h =
    λ q. let (x, at, other) = h q in (x, e payment.payment_id x at, other)
Explained-Extends r r' payment (replied a) e (x, at, same, rest) =
    (x, e payment.payment_id x at, same, rest)
Explained-Extends r r' payment (malformed a) e (x, at, same, rest) =
    (x, e payment.payment_id x at, same, rest)

pub All-Explained-Extends :
    (r r' : Records) (h : List Answered)
    → Extends r r'
    → All (λ a. Explained r a.payment a.reply) h
    → All (λ a. Explained r' a.payment a.reply) h
All-Explained-Extends r r' [] e h = tt
All-Explained-Extends r r' (a ∷ as') e h =
    (Explained-Extends r r' a.payment a.reply e h.0, All-Explained-Extends r r' as' e h.1)

-- In the abstract service records stay, and every reply ever given is explained by the records.
pub Service-keeps : {x y : View} → Service x y → Extends x.records y.records
Service-keeps silent k z q = q
Service-keeps (creates {y} s payment response free) k z q =
    Extends-update y.records payment.payment_id _ free k z (Service-keeps s k z q)
Service-keeps (replies s payment reply e) k z q = Service-keeps s k z q

pub Service-explains :
    {x y : View}
    → Service x y
    → All (λ a. Explained x.records a.payment a.reply) x.history
    → All (λ a. Explained y.records a.payment a.reply) y.history
Service-explains silent h = h
Service-explains (creates {y} s payment response free) h =
    All-Explained-Extends y.records _ y.history (Extends-update y.records payment.payment_id _ free)
      (Service-explains s h)
Service-explains (replies s payment reply e) h = (e, Service-explains s h)
