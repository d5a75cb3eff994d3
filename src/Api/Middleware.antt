-- ===== src/Api/Middleware.antt =====
-- app/core/middleware.py, `request_id_middleware`, with the processor `merge_contextvars` of
-- app/core/logging.py, which adds the context to each entry. The durations are left out.
use async_payment_processing.Prelude.{
  ℕ, String, Option, none, some, List, [], ◌∷◌, ◌++◌, map, if◌then◌else◌, ok, err, Result,
  cancelled, base_exception,
}
use async_payment_processing.Api.Text.{is_empty}

-- The variables of the context, those that were bound last first.
abbrev pub Vars : Type 0
Vars = List (String × String)

abbrev clear_contextvars : Vars → Vars
clear_contextvars vars = []

abbrev bind_contextvars : Vars → Vars → Vars
bind_contextvars new vars = new ++ vars

pub data Event : Type 0 where
  request_started request_failed : Event
  request_finished : (status_code : ℕ) → Event
  -- An entry of an endpoint, or of what it calls.
  inner : String → Event

pub record LogEntry : Type 0 where
  pub event : Event
  pub context : Vars

-- A request as the middleware reads it, and what is logged in `call_next`.
pub record HttpExchange : Type 0 where
  pub x_request_id : Option String
  pub method : String
  pub path : String
  pub events : List String

-- What the middleware leaves: its entries, the status code and the header `X-Request-ID` of the response,
-- or the exception, and the context.
pub record MiddlewareOutcome : Type 0 where
  pub entries : List LogEntry
  pub result : Result (ℕ × String)
  pub context : Vars

-- `request.headers.get("X-Request-ID") or str(uuid4())`
abbrev pub request_id : Option String → String → String
request_id none uuid = uuid
request_id (some id) uuid = if is_empty id then uuid else id

abbrev pub bound_vars : String → HttpExchange → Vars
bound_vars id x = ("request_id", id) ∷ ("method", x.method) ∷ ("path", x.path) ∷ []

abbrev pub entry : Vars → Event → LogEntry
entry vars e = record { event = e; context = vars }

-- The clauses after `call_next`: an exception outside Exception is not logged.
abbrev pub closing : Result ℕ → List Event
closing (ok status_code) = request_finished status_code ∷ []
closing (err cancelled) = []
closing (err base_exception) = []
closing (err e) = request_failed ∷ []

abbrev pub with_header : String → Result ℕ → Result (ℕ × String)
with_header id (ok status_code) = ok (status_code, id)
with_header id (err e) = err e

-- `request_id_middleware`: the fresh id, the request, how `call_next` ends, and the context before.
unfoldable pub request_id_middleware : String → HttpExchange → Result ℕ → Vars → MiddlewareOutcome
request_id_middleware uuid x result before =
    let id = request_id x.x_request_id uuid in
    let vars = bind_contextvars (bound_vars id x) (clear_contextvars before) in
    record {
      entries = map (entry vars) (request_started ∷ map inner x.events ++ closing result);
      result = with_header id result;
      context = clear_contextvars vars;
    }
