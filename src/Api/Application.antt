-- ===== src/Api/Application.antt =====
-- app/main.py and app/api/router.py: all endpoints behind the middleware, and the life of the process.
use async_payment_processing.Prelude.{
  ℕ, String, ◌≡◌, refl, ap, ◌≢◌, ◌⊎◌, inl, inr, Bool, true, Option, none, some, List, [], ◌∷◌,
  arith, Bool-cases, ◌>>=◌, ok, err, Result, unexpected, false, if◌then◌else◌,
}
use async_payment_processing.Models.{Database}
use async_payment_processing.Repositories.Session.{Tx}
use async_payment_processing.Services.Create.{Hashing}
use async_payment_processing.Api.Text.{is_ascii}
use async_payment_processing.Api.Answer.{Answer, answered, http_error, raised, verify_api_key}
use async_payment_processing.Api.Payments.{Request, UrlParser, create_payment, get_payment}
use async_payment_processing.Api.Health.{Checks, live, ready}
use async_payment_processing.Api.Middleware.{
  with_header, request_id, HttpExchange, MiddlewareOutcome, Vars, request_id_middleware,
}
use async_payment_processing.Api.Access.{verify_api_key_lem}
use async_payment_processing.Startup.{Settings, get_settings}

-- The endpoint to which a request is routed, with what it reads of the request. A request to create a
-- payment may have a body that is no JSON, or that cannot be read for another reason; and FastAPI adds
-- /docs, /redoc and /openapi.json, which stay open.
pub data Call : Type 0 where
  creates_payment : Request → Call
  creates_unreadable : (no_json : Bool) (x_api_key : Option String) → Call
  gets_payment : (x_api_key : Option String) (payment_id : ℕ) → Call
  asks_live asks_ready : (x_api_key : Option String) → Call
  asks_docs : Call

abbrev pub key_of : Call → Option String
key_of (creates_payment request) = request.x_api_key
key_of (creates_unreadable no_json x_api_key) = x_api_key
key_of (gets_payment x_api_key payment_id) = x_api_key
key_of (asks_live x_api_key) = x_api_key
key_of (asks_ready x_api_key) = x_api_key
key_of asks_docs = none

-- The API key is asked for: a dependency runs only after the body was read.
abbrev pub is_guarded : Call → Bool
is_guarded (creates_unreadable no_json x_api_key) = false
is_guarded asks_docs = false
is_guarded _ = true

-- What an endpoint meets; `docs_status` is the code of FastAPI's own pages.
pub record EndpointEnv : Type 0 where
  pub hashing : Hashing
  pub parse : UrlParser
  pub tx : Tx
  pub event_id : ℕ
  pub others : Database → Database
  pub connection : Result (Unit {0})
  pub is_os_error : Bool
  pub docs_status : ℕ

-- The status code of an answer; FastAPI turns an HTTPException into a response.
abbrev respond {ℓ} : {A : Type ℓ} → (A → ℕ) → Answer A → Result ℕ
respond status (answered a) = ok (status a)
respond status (http_error code) = ok code
respond status (raised e) = err e

-- The endpoints of `router`, and what FastAPI answers for itself: an unreadable body, with 422 if it
-- is no JSON and with 400 otherwise, and its own pages.
unfoldable pub endpoint : String → EndpointEnv → Call → Database → Result ℕ × Database
endpoint api_key w (creates_payment request) db =
    let (answer, db') = create_payment w.hashing w.tx w.event_id w.others api_key request db in
    (respond (λ a. 202) answer, db')
endpoint api_key w (creates_unreadable no_json x_api_key) db =
    (ok (if no_json then 422 else 400), db)
endpoint api_key w (gets_payment x_api_key payment_id) db =
    (respond (λ a. 200) (get_payment w.parse api_key x_api_key payment_id db), db)
endpoint api_key w (asks_live x_api_key) db = (respond (λ a. 200) (live api_key x_api_key), db)
endpoint api_key w (asks_ready x_api_key) db = (
  respond (λ (c : Checks). c.status_code) (ready api_key x_api_key w.is_os_error w.connection),
  db,
)
endpoint api_key w asks_docs db = (ok w.docs_status, db)

-- A request to `app`: the middleware around the endpoint.
unfoldable pub app :
    String
    → EndpointEnv
    → (uuid : String) → HttpExchange
    → Vars
    → Call
    → Database
    → MiddlewareOutcome × Database
unfolding endpoint
app api_key w uuid x before call db =
    let (result, db') = endpoint api_key w call db in
    (request_id_middleware uuid x result before, db')

-- `lifespan`: what the process opens and closes around its requests.
pub data LifespanAction : Type 0 where
  opens_database serves closes_database : LifespanAction

unfoldable pub lifespan :
    Settings
    → (configured served closed : Result (Unit {0})) → List LifespanAction × Result (Unit {0})
unfolding get_settings
lifespan settings configured served closed = elim (get_settings settings >>= λ s. configured) [
  | err e ↦ ([], err e)
  | ok done ↦ (
    opens_database ∷ serves ∷ closes_database ∷ [],
    elim closed [ err e ↦ err e | ok done ↦ served ],
  )
]

refused :
    (api_key : String) (x : Option String)
    → is_ascii api_key ≡ true
    → x ≢ some api_key
    → (verify_api_key api_key x ≡ http_error 401) ⊎ (verify_api_key api_key x ≡ raised unexpected)
refused api_key none ascii ne = inl ((verify_api_key_lem api_key none ascii).1 refl)
refused api_key (some key) ascii ne =
    let answer = (verify_api_key_lem api_key (some key) ascii).2 key refl (λ e. ne (ap some e)) in
    elim (Bool-cases (is_ascii key)) [ inl t ↦ inl (rw t at answer) | inr t ↦ inr (rw t at answer) ]

endpoint-refuses :
    (api_key : String) (w : EndpointEnv) (call : Call) (db : Database)
    → is_ascii api_key ≡ true
    → key_of call ≢ some api_key
    → is_guarded call ≡ true
    → (endpoint api_key w call db ≡ (ok 401, db))
      ⊎ (endpoint api_key w call db ≡ (err unexpected, db))
unfolding endpoint create_payment get_payment live ready
endpoint-refuses api_key w (creates_payment request) db ascii ne guarded =
    elim (refused api_key request.x_api_key ascii ne) [
      | inl e ↦ inl (rw (e, endpoint, create_payment) refl)
      | inr e ↦ inr (rw (e, endpoint, create_payment) refl)
    ]
endpoint-refuses api_key w (creates_unreadable no_json x_api_key) db ascii ne guarded =
    absurd (ground arith)
endpoint-refuses api_key w asks_docs db ascii ne guarded = absurd (ground arith)
endpoint-refuses api_key w (gets_payment x_api_key payment_id) db ascii ne guarded =
    elim (refused api_key x_api_key ascii ne) [
      | inl e ↦ inl (rw (e, endpoint, get_payment) refl)
      | inr e ↦ inr (rw (e, endpoint, get_payment) refl)
    ]
endpoint-refuses api_key w (asks_live x_api_key) db ascii ne guarded =
    elim (refused api_key x_api_key ascii ne) [
      | inl e ↦ inl (rw (e, endpoint, live) refl)
      | inr e ↦ inr (rw (e, endpoint, live) refl)
    ]
endpoint-refuses api_key w (asks_ready x_api_key) db ascii ne guarded =
    elim (refused api_key x_api_key ascii ne) [
      | inl e ↦ inl (rw (e, endpoint, ready) refl)
      | inr e ↦ inr (rw (e, endpoint, ready) refl)
    ]

endpoint-open :
    (api_key : String) (w : EndpointEnv) (call : Call) (db : Database)
    → is_guarded call ≡ false
    → (endpoint api_key w call db).1 ≡ db
unfolding endpoint
endpoint-open api_key w (creates_payment request) db g = absurd (ground arith)
endpoint-open api_key w (creates_unreadable no_json x_api_key) db g = refl
endpoint-open api_key w (gets_payment x_api_key payment_id) db g = refl
endpoint-open api_key w (asks_live x_api_key) db g = refl
endpoint-open api_key w (asks_ready x_api_key) db g = refl
endpoint-open api_key w asks_docs db g = refl

-- A request without the API key, which is ASCII, has no effect, whatever it holds and whatever the
-- database and its connection do. At an endpoint of the program whose request could be read, the
-- response has the code 401, or the exception goes on that a header with a character outside ASCII
-- raises; a creation with an unreadable body is answered 422 or 400 and writes nothing, whatever its
-- key. Every response has the request's id in its header, the one that the client has chosen unless
-- that is missing or empty, and no variable is left in the context.
pub app-guards :
    (api_key : String) (w : EndpointEnv) (uuid : String) (x : HttpExchange) (before : Vars)
    (call : Call) (db : Database)
    → is_ascii api_key ≡ true
    → let (outcome, db') = app api_key w uuid x before call db in
      (key_of call ≢ some api_key
        → (db' ≡ db)
          × (is_guarded call ≡ true
              → (outcome.result ≡ ok (401, request_id x.x_request_id uuid))
                ⊎ (outcome.result ≡ err unexpected)))
      × ((no_json : Bool) (key : Option String)
          → call ≡ creates_unreadable no_json key
          → (db' ≡ db)
            × (outcome.result
                ≡ ok ((if no_json then 422 else 400), request_id x.x_request_id uuid)))
      × ((code : ℕ) (id : String)
          → outcome.result ≡ ok (code, id)
          → id ≡ request_id x.x_request_id uuid)
      × (outcome.context ≡ [])
unfolding app request_id_middleware
app-guards api_key w uuid x before call db ascii = (
  λ ne. elim (Bool-cases (is_guarded call)) [
    | inl g ↦ elim (endpoint-refuses api_key w call db ascii ne g) [
      | inl stop ↦ rw stop (refl, λ asked. inl refl)
      | inr stop ↦ rw stop (refl, λ asked. inr refl)
    ]
    | inr g ↦ (endpoint-open api_key w call db g, λ asked. cc)
  ],
  λ no_json key same. rw (same, endpoint) (refl, refl),
  λ code id h. named (endpoint api_key w call db).0 h,
  refl,
)
  where
    named :
        (r : Result ℕ) {code : ℕ} {id : String}
        → with_header (request_id x.x_request_id uuid) r ≡ ok (code, id)
        → id ≡ request_id x.x_request_id uuid
    named (ok code) h = ground arith
    named (err e) h = cc
