-- ===== src/Metrics/Replay.antt =====
-- metrics.go: sequences of calls of a collector.
use goadstc.Base.{
  ℕ, ◌+◌, ◌%◌, ◌^◌, ◌<◌, ◌≡◌, refl, ◌∙◌, Bool, true, false, none, some, List, [], ◌∷◌, inl, inr,
  arith, if◌then◌else◌, Option-cases,
}
use goadstc.Go.Strings.{same}
use goadstc.Go.Map.{Entries, lookup, lookup-insert, same_iff}
use goadstc.Metrics.{
  InMemoryMetrics, new_in_memory_metrics, add64, bump, Event, connection_attempt, operation_started,
  operation_completed, sent, error_occurred, health_check_completed, record_event, replay,
}

-- The counter of a key, 0 where the map has none.
unfoldable pub counter : List ℕ → Entries ℕ → ℕ
counter k m = elim (lookup k m) [ none ↦ 0 | some n ↦ n ]

abbrev pub one_if : Bool → ℕ
one_if b = if b then 1 else 0

-- What each event adds to a counter, over a sequence of events.
pub total : (Event → ℕ) → List Event → ℕ
total f [] = 0
total f (e ∷ es) = f e + total f es

counter-bump :
    (k j : List ℕ) (m : Entries ℕ)
    → counter j m < 2 ^ 64
    → counter j (bump k m) ≡ (counter j m + one_if (same k j)) % 2 ^ 64
unfolding counter bump
counter-bump k j m h = elim (Option-cases (lookup k m)) [
  | inl e ↦ rw (e, bump) (ground (arith, lookup-insert k j 1 m, same_iff k j, h))
  | inr (n, e) ↦ rw (e, bump) (ground (arith, lookup-insert k j (add64 n 1) m, same_iff k j, h))
]

-- A counter that every event raises by its weight, wrapping at 2^64, holds the sum of the weights.
replay-total :
    (f : InMemoryMetrics → ℕ) (weight : Event → ℕ)
    → ((e : Event) (m : InMemoryMetrics)
        → f m < 2 ^ 64
        → f (record_event e m) ≡ (f m + weight e) % 2 ^ 64)
    → (es : List Event) (m : InMemoryMetrics) → f m < 2 ^ 64
    → f (replay es m) ≡ (f m + total weight es) % 2 ^ 64
unfolding replay total
replay-total f weight law [] m h = omega arith
replay-total f weight law (e ∷ es) m h =
    let q = law e m h in
    replay-total f weight law es (record_event e m) (omega (arith, q)) ∙ omega (arith, q)

-- What an event adds to the counter of the calls of an operation.
pub starts : List ℕ → Event → ℕ
starts op (operation_started o) = one_if (same o op)
starts op _ = 0

pub fails : List ℕ → Event → ℕ
fails op (operation_completed o d true) = one_if (same o op)
fails op _ = 0

pub errs : List ℕ → Event → ℕ
errs op (error_occurred c o) = one_if (same o op)
errs op _ = 0

pub bytes_out : Event → ℕ
bytes_out (sent n) = n
bytes_out _ = 0

pub attempts : Event → ℕ
attempts connection_attempt = 1
attempts _ = 0

kept : (n : ℕ) → n < 2 ^ 64 → n ≡ (n + 0) % 2 ^ 64
kept n h = omega arith

counts-law :
    (op : List ℕ) (e : Event) (m : InMemoryMetrics)
    → counter op m.operation_counts < 2 ^ 64
    → counter op (record_event e m).operation_counts
      ≡ (counter op m.operation_counts + starts op e) % 2 ^ 64
unfolding record_event starts
counts-law op (operation_started o) m h = counter-bump o op m.operation_counts h
counts-law op (operation_completed o d true) m h = kept _ h
counts-law op (operation_completed o d false) m h = kept _ h
counts-law op (health_check_completed true) m h = kept _ h
counts-law op (health_check_completed false) m h = kept _ h
counts-law op _ m h = kept _ h

fails-law :
    (op : List ℕ) (e : Event) (m : InMemoryMetrics)
    → counter op m.operation_errors < 2 ^ 64
    → counter op (record_event e m).operation_errors
      ≡ (counter op m.operation_errors + fails op e) % 2 ^ 64
unfolding record_event fails
fails-law op (operation_completed o d true) m h = counter-bump o op m.operation_errors h
fails-law op (operation_completed o d false) m h = kept _ h
fails-law op (health_check_completed true) m h = kept _ h
fails-law op (health_check_completed false) m h = kept _ h
fails-law op _ m h = kept _ h

errs-law :
    (op : List ℕ) (e : Event) (m : InMemoryMetrics)
    → counter op m.errors_by_operation < 2 ^ 64
    → counter op (record_event e m).errors_by_operation
      ≡ (counter op m.errors_by_operation + errs op e) % 2 ^ 64
unfolding record_event errs
errs-law op (error_occurred c o) m h = counter-bump o op m.errors_by_operation h
errs-law op (operation_completed o d true) m h = kept _ h
errs-law op (operation_completed o d false) m h = kept _ h
errs-law op (health_check_completed true) m h = kept _ h
errs-law op (health_check_completed false) m h = kept _ h
errs-law op _ m h = kept _ h

bytes_out-law :
    (e : Event) (m : InMemoryMetrics)
    → m.bytes_sent < 2 ^ 64
    → (record_event e m).bytes_sent ≡ (m.bytes_sent + bytes_out e) % 2 ^ 64
unfolding record_event bytes_out
bytes_out-law (sent n) m h = refl
bytes_out-law (operation_completed o d true) m h = kept _ h
bytes_out-law (operation_completed o d false) m h = kept _ h
bytes_out-law (health_check_completed true) m h = kept _ h
bytes_out-law (health_check_completed false) m h = kept _ h
bytes_out-law _ m h = kept _ h

attempts-law :
    (e : Event) (m : InMemoryMetrics)
    → m.connection_attempts < 2 ^ 64
    → (record_event e m).connection_attempts ≡ (m.connection_attempts + attempts e) % 2 ^ 64
unfolding record_event attempts
attempts-law connection_attempt m h = refl
attempts-law (operation_completed o d true) m h = kept _ h
attempts-law (operation_completed o d false) m h = kept _ h
attempts-law (health_check_completed true) m h = kept _ h
attempts-law (health_check_completed false) m h = kept _ h
attempts-law _ m h = kept _ h

-- After any sequence of calls on a new collector these counters hold, modulo 2^64, how often the
-- sequence has the call that they count: the starts, the failed completions and the errors of each
-- operation, and the connection attempts. The bytes sent are the sum of the amounts, modulo 2^64.
pub replay_counts :
    (op : List ℕ) (es : List Event)
    → let m = replay es new_in_memory_metrics in
      (counter op m.operation_counts ≡ total (starts op) es % 2 ^ 64)
      × (counter op m.operation_errors ≡ total (fails op) es % 2 ^ 64)
      × (counter op m.errors_by_operation ≡ total (errs op) es % 2 ^ 64)
      × (m.connection_attempts ≡ total attempts es % 2 ^ 64)
      × (m.bytes_sent ≡ total bytes_out es % 2 ^ 64)
unfolding counter lookup
replay_counts op es = (
  replay-total (λ m. counter op m.operation_counts) (starts op) (counts-law op) es
        new_in_memory_metrics (omega arith)
      ∙ zero_first _,
  replay-total (λ m. counter op m.operation_errors) (fails op) (fails-law op) es
        new_in_memory_metrics (omega arith)
      ∙ zero_first _,
  replay-total (λ m. counter op m.errors_by_operation) (errs op) (errs-law op) es
        new_in_memory_metrics (omega arith)
      ∙ zero_first _,
  replay-total (λ m. m.connection_attempts) attempts attempts-law es new_in_memory_metrics
        (omega arith)
      ∙ zero_first _,
  replay-total (λ m. m.bytes_sent) bytes_out bytes_out-law es new_in_memory_metrics (omega arith)
      ∙ zero_first _,
)
  where
    zero_first : (n : ℕ) → (0 + n) % 2 ^ 64 ≡ n % 2 ^ 64
    zero_first n = omega arith
