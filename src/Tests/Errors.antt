-- ===== src/Tests/Errors.antt =====
-- Runs of errors.go and metrics.go on concrete errors and events.
use goadstc.Base.{ℕ, ◌%◌, ◌^◌, ◌≡◌, refl, ◌↔◌, ◌⊎◌, true, none, some, List, [], ◌∷◌}
use goadstc.Go.{ok}
use goadstc.Go.Strings.{text, index, index_from}
use goadstc.Errors.{
  code, at, GoError, ClassifiedError, ads, state, index_string, classify_error, as_ads, is_at,
}
use goadstc.Metrics.{
  Event, operation_started, operation_completed, sent, record_event, replay, new_in_memory_metrics,
}
use goadstc.Metrics.Replay.{counter, total, starts, fails, errs, attempts, bytes_out, replay_counts}
use goadstc.Errors.Search.{any_in, index_string-index}
use goadstc.Errors.Classify.{
  message_category, is_transient, classify_error-ads, classify_error-message,
}

index_string-index_example :
    index_string {E = ℕ} (text "i/o timeout") (text "time")
    ≡ ok (index (text "i/o timeout") (text "time"))
index_string-index_example = index_string-index {E = ℕ} (text "i/o timeout") (text "time")

-- A wrapped ADS error whose text speaks of a closed connection.
abbrev wrapped : GoError
wrapped = record { chain = at 3 ∷ code 6 ∷ []; message = text "connection closed" }

classify_error-ads_example :
    (c : ClassifiedError) × (classify_error {E = ℕ} 100 101 wrapped (text "read") ≡ ok c)
    × (c.category ≡ ads)
    × (c.ads_error ≡ some 6)
    × ((c.retryable ≡ true) ↔ (◌≡◌ {A = ℕ} 6 6 ⊎ ◌≡◌ {A = ℕ} 6 7))
unfolding as_ads
classify_error-ads_example = classify_error-ads {E = ℕ} 100 101 wrapped (text "read") 6 refl

-- transport.ErrConnectionClosed, at address 5.
abbrev connection_closed : GoError
connection_closed = record { chain = at 5 ∷ []; message = text "connection closed" }

classify_error-message_example :
    (c : ClassifiedError) × (classify_error {E = ℕ} 100 101 connection_closed (text "read") ≡ ok c)
    × (c.category ≡ message_category connection_closed.message)
    × (c.retryable ≡ is_transient (message_category connection_closed.message))
    × (c.ads_error ≡ none)
unfolding as_ads is_at
classify_error-message_example =
    classify_error-message {E = ℕ} 100 101 connection_closed (text "read") refl refl refl

-- It is a state error, not a network error, and is not retried.
closed_is_state : message_category (text "connection closed") ≡ state
unfolding message_category any_in index_from
closed_is_state = refl

abbrev events : List Event
events =
    operation_started (text "read")
    ∷ sent 40
    ∷ operation_completed (text "read") 3 true
    ∷ sent 2
    ∷ []

replay_counts_example :
    let m = replay events new_in_memory_metrics in
    (counter (text "read") m.operation_counts ≡ total (starts (text "read")) events % 2 ^ 64)
    × (counter (text "read") m.operation_errors ≡ total (fails (text "read")) events % 2 ^ 64)
    × (counter (text "read") m.errors_by_operation ≡ total (errs (text "read")) events % 2 ^ 64)
    × (m.connection_attempts ≡ total attempts events % 2 ^ 64)
    × (m.bytes_sent ≡ total bytes_out events % 2 ^ 64)
replay_counts_example = replay_counts (text "read") events

events_sent : (replay events new_in_memory_metrics).bytes_sent ≡ 42
unfolding replay record_event
events_sent = refl
