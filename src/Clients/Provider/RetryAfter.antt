-- ===== src/Clients/Provider/RetryAfter.antt =====
-- The header `Retry-After`: app/clients/payment_provider.py, `_get_retry_after` and
-- `_parse_retry_after`.
use async_payment_processing.Prelude.{ℕ, ◌-◌, String, Option, none, some}
use async_payment_processing.Clients.Provider.{Seconds, negative, finite}

-- Two functions of the standard library: `float`, which may raise ValueError, and
-- `parsedate_to_datetime`, which may fail too. Its result, made aware of UTC, is an instant.
pub record Parsers : Type 0 where
  pub float : String → Option Seconds
  pub date : String → Option ℕ

-- A number below zero is ignored. The comparison is false of NaN.
abbrev pub not_negative : Seconds → Option Seconds
not_negative negative = none
not_negative s = some s

-- The time until an instant, and 0 for one that has passed.
abbrev until : ℕ → Option ℕ → Option Seconds
until now none = none
until now (some at) = some (finite (at - now))

parse_number : Parsers → ℕ → String → Option Seconds → Option Seconds
parse_number p now text none = until now (p.date text)
parse_number p now text (some s) = not_negative s

-- `_parse_retry_after`; `now` is `datetime.now(UTC)`.
unfoldable pub parse_retry_after : Parsers → ℕ → String → Option Seconds
unfolding parse_number
parse_retry_after p now text = parse_number p now text (p.float text)

-- `_get_retry_after`
unfoldable pub get_retry_after : Parsers → ℕ → Option String → Option Seconds
unfolding parse_retry_after
get_retry_after p now none = none
get_retry_after p now (some text) = parse_retry_after p now text
