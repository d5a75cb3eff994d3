-- ===== src/Api/Health.antt =====
-- app/api/health.py, with `check_connection` of app/core/database.py.
use async_payment_processing.Prelude.{
  ℕ, String, Bool, true, false, Option, if◌then◌else◌, ok, err, Result, integrity_error,
  database_error, runtime_error, unexpected,
}
use async_payment_processing.Api.Answer.{Answer, answered, http_error, raised, verify_api_key}

-- The answer of `ready`: its status code, and whether the check of PostgreSQL says "ok".
pub record Checks : Type 0 where
  pub status_code : ℕ
  pub postgres_ok : Bool

-- `live`, behind the API key of the router.
unfoldable pub live : String → Option String → Answer (Unit {0})
live api_key x_api_key = verify_api_key api_key x_api_key

-- The `except` clause around `check_connection`; a class that the program names nowhere else, such as
-- OSError, is `unexpected` and `is_os_error` tells whether it is that one.
checked : Bool → Result (Unit {0}) → Answer Checks
checked is_os_error (ok done) = answered (record { status_code = 200; postgres_ok = true })
checked is_os_error (err database_error) =
    answered (record { status_code = 503; postgres_ok = false })
checked is_os_error (err integrity_error) =
    answered (record { status_code = 503; postgres_ok = false })
checked is_os_error (err runtime_error) =
    answered (record { status_code = 503; postgres_ok = false })
checked is_os_error (err unexpected) =
    if is_os_error
    then answered (record { status_code = 503; postgres_ok = false })
    else raised unexpected
checked is_os_error (err e) = raised e

-- `ready`
unfoldable pub ready : String → Option String → Bool → Result (Unit {0}) → Answer Checks
unfolding checked
ready api_key x_api_key is_os_error connection = elim (verify_api_key api_key x_api_key) [
  | answered done ↦ checked is_os_error connection
  | http_error code ↦ http_error code
  | raised e ↦ raised e
]
