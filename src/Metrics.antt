-- ===== src/Metrics.antt =====
-- metrics.go: the in-memory collector. Each counter is an int64, kept as its 64 bits.
pub mod Replay
use goadstc.Base.{ℕ, ◌+◌, ◌%◌, ◌^◌, Bool, true, false, Option, none, some, List, [], ◌∷◌, ◌++◌}
use goadstc.Go.Map.{Entries, lookup, insert}
use goadstc.Errors.{
  ErrorCategory, unknown, network, protocol, ads, validation, configuration, timeout, state,
}

-- (*atomic.Int64).Add
abbrev pub add64 : ℕ → ℕ → ℕ
add64 n k = (n + k) % 2 ^ 64

-- The place of a category in its iota; a map by category is one by the text of that single byte.
unfoldable pub category_key : ErrorCategory → List ℕ
category_key unknown = 0 ∷ []
category_key network = 1 ∷ []
category_key protocol = 2 ∷ []
category_key ads = 3 ∷ []
category_key validation = 4 ∷ []
category_key configuration = 5 ∷ []
category_key timeout = 6 ∷ []
category_key state = 7 ∷ []

-- type InMemoryMetrics, without its lock.
pub record InMemoryMetrics : Type 0 where
  pub connection_attempts : ℕ
  pub connection_successes : ℕ
  pub connection_failures : ℕ
  pub connection_active : Bool
  pub reconnections : ℕ
  pub operation_counts : Entries ℕ
  pub operation_durations : Entries (List ℕ)
  pub operation_errors : Entries ℕ
  pub bytes_sent : ℕ
  pub bytes_received : ℕ
  pub notifications_received : ℕ
  pub notifications_dropped : ℕ
  pub subscriptions_active : ℕ
  pub errors_by_category : Entries ℕ
  pub errors_by_operation : Entries ℕ
  pub health_checks_started : ℕ
  pub health_checks_success : ℕ
  pub health_checks_failure : ℕ

-- NewInMemoryMetrics
abbrev pub new_in_memory_metrics : InMemoryMetrics
new_in_memory_metrics = record {
  connection_attempts = 0;
  connection_successes = 0;
  connection_failures = 0;
  connection_active = false;
  reconnections = 0;
  operation_counts = [];
  operation_durations = [];
  operation_errors = [];
  bytes_sent = 0;
  bytes_received = 0;
  notifications_received = 0;
  notifications_dropped = 0;
  subscriptions_active = 0;
  errors_by_category = [];
  errors_by_operation = [];
  health_checks_started = 0;
  health_checks_success = 0;
  health_checks_failure = 0;
}

-- `if _, exists := m[k]; !exists { m[k] = &atomic.Int64{} }; m[k].Add(1)`
unfoldable pub bump : List ℕ → Entries ℕ → Entries ℕ
bump k m = elim (lookup k m) [ none ↦ insert k 1 m | some n ↦ insert k (add64 n 1) m ]

-- `m[k] = append(m[k], d)`
unfoldable pub append_duration : List ℕ → ℕ → Entries (List ℕ) → Entries (List ℕ)
append_duration k d m = elim (lookup k m) [
  | none ↦ insert k (d ∷ []) m
  | some ds ↦ insert k (ds ++ (d ∷ [])) m
]

-- A call of one of the methods; an error is only nil or not.
pub data Event : Type 0 where
  connection_attempt connection_success connection_failure reconnection : Event
  connection_is : Bool → Event
  operation_started : List ℕ → Event
  operation_completed : List ℕ → ℕ → Bool → Event
  sent received : ℕ → Event
  notification_received notification_dropped : Event
  subscriptions_are : ℕ → Event
  error_occurred : ErrorCategory → List ℕ → Event
  health_check_started : Event
  health_check_completed : Bool → Event

-- The methods of InMemoryMetrics.
unfoldable pub record_event : Event → InMemoryMetrics → InMemoryMetrics
unfolding bump append_duration category_key
record_event connection_attempt m = record m { connection_attempts = add64 m.connection_attempts 1 }
record_event connection_success m = record m {
  connection_successes = add64 m.connection_successes 1;
}
record_event connection_failure m = record m { connection_failures = add64 m.connection_failures 1 }
record_event reconnection m = record m { reconnections = add64 m.reconnections 1 }
record_event (connection_is active) m = record m { connection_active = active }
record_event (operation_started op) m = record m { operation_counts = bump op m.operation_counts }
record_event (operation_completed op d true) m = record m {
  operation_durations = append_duration op d m.operation_durations;
  operation_errors = bump op m.operation_errors;
}
record_event (operation_completed op d false) m = record m {
  operation_durations = append_duration op d m.operation_durations;
}
record_event (sent n) m = record m { bytes_sent = add64 m.bytes_sent n }
record_event (received n) m = record m { bytes_received = add64 m.bytes_received n }
record_event notification_received m = record m {
  notifications_received = add64 m.notifications_received 1;
}
record_event notification_dropped m = record m {
  notifications_dropped = add64 m.notifications_dropped 1;
}
record_event (subscriptions_are n) m = record m { subscriptions_active = n % 2 ^ 64 }
record_event (error_occurred category op) m = record m {
  errors_by_category = bump (category_key category) m.errors_by_category;
  errors_by_operation = bump op m.errors_by_operation;
}
record_event health_check_started m = record m {
  health_checks_started = add64 m.health_checks_started 1;
}
record_event (health_check_completed true) m = record m {
  health_checks_success = add64 m.health_checks_success 1;
}
record_event (health_check_completed false) m = record m {
  health_checks_failure = add64 m.health_checks_failure 1;
}

-- A sequence of calls.
unfoldable pub replay : List Event → InMemoryMetrics → InMemoryMetrics
replay [] m = m
replay (e ∷ es) m = replay es (record_event e m)
