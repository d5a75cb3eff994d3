-- ===== src/Startup/Monitor.antt =====
-- What a right order of the worker's actions is: app/worker/main.py. The relay writes to the database and
-- publishes through the broker, the reconciliation needs the database and the provider's client, and
-- what the broker delivers needs all clients.
use async_payment_processing.Prelude.{
  Bool, true, false, ◌&&◌, not, Option, none, some, List, [], ◌∷◌, if◌then◌else◌,
}
use async_payment_processing.Startup.Lifecycle.{Action}

-- What is open, connected or running.
pub record Held : Type 0 where
  pub database : Bool
  pub provider_client : Bool
  pub webhook_client : Bool
  pub broker : Bool
  pub relay : Bool
  pub reconciliation : Bool

abbrev pub nothing_held : Held
nothing_held = record {
  database = false;
  provider_client = false;
  webhook_client = false;
  broker = false;
  relay = false;
  reconciliation = false;
}

abbrev pub clients_held : Held
clients_held = record nothing_held {
  database = true;
  provider_client = true;
  webhook_client = true;
}

abbrev allowed : Bool → Held → Option Held
allowed test h = if test then some h else none

-- What is held after an action, if the action is in order.
abbrev pub allow : Action → Held → Option Held
allow Action.opens_database h = allowed (not h.database) (record h { database = true })
allow Action.opens_provider_client h =
    allowed (not h.provider_client) (record h { provider_client = true })
allow Action.opens_webhook_client h =
    allowed (not h.webhook_client) (record h { webhook_client = true })
allow Action.checks_connection h = allowed h.database h
allow Action.connects h = allowed (not h.broker) (record h { broker = true })
allow Action.fails_to_connect h = allowed (not h.broker) h
allow Action.declares h = allowed h.broker h
allow Action.starts h = allowed (h.broker && h.database && h.provider_client && h.webhook_client) h
allow Action.relay_starts h =
    allowed (h.database && h.broker && not h.relay) (record h { relay = true })
allow Action.reconciliation_starts h =
    allowed (h.database && h.provider_client && not h.reconciliation)
      (record h { reconciliation = true })
allow Action.waits h = some h
allow Action.relay_ends h = allowed (h.relay && h.database && h.broker) (record h { relay = false })
allow Action.reconciliation_ends h =
    allowed (h.reconciliation && h.database && h.provider_client)
      (record h { reconciliation = false })
allow Action.stops_broker h = allowed (h.broker && not h.relay) (record h { broker = false })
allow Action.closes_provider_client h =
    allowed (h.provider_client && not h.broker && not h.reconciliation)
      (record h { provider_client = false })
allow Action.closes_webhook_client h =
    allowed (h.webhook_client && not h.broker) (record h { webhook_client = false })
allow Action.closes_database h =
    allowed (h.database && not h.broker && not h.relay && not h.reconciliation)
      (record h { database = false })

-- What is held after all actions, if all are in order.
abbrev pub held_after : List Action → Option Held → Option Held
held_after actions none = none
held_after [] (some h) = some h
held_after (a ∷ actions) (some h) = held_after actions (allow a h)
