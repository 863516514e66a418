-- ===== src/Tests/Requests.antt =====
-- Runs of client.go's requests on a small PLC and on a failing network.
use goadstc.Base.{
  ℕ, zero, suc, ◌+◌, ◌*◌, ◌≤◌, ◌≡◌, refl, true, none, some, List, [], ◌∷◌, inl, arith,
}
use goadstc.Go.{exact}
use goadstc.Go.Strings.{text, index_from}
use goadstc.Ams.Packet.{Packet, new_request_packet}
use goadstc.Errors.{GoError}
use goadstc.Tests.Frames.{plc, pc}
use goadstc.Client.Retry.{
  Answer, answered, failed, failed_after, Surroundings, is_retryable_error, checked, done,
  send_request_with_retry,
}
use goadstc.Client.Retry.Rounds.{
  Fails, Failing, pauses_of, send_request_with_retry-answer, send_request_with_retry-exhausted,
}
use goadstc.Client.Retry.Bounds.{total, send_request_with_retry_bounds}

abbrev reset : GoError
reset = record { chain = []; message = text "read: connection reset by peer" }

reset_retryable : is_retryable_error reset ≡ true
unfolding is_retryable_error index_from
reset_retryable = refl

abbrev reply : List ℕ → Packet
reply xs = new_request_packet pc 32905 plc 851 2 7 (exact xs)

-- The first round fails, and the others are answered.
abbrev once : ℕ → Answer
once zero = failed reset
once (suc n) = answered (reply [])

abbrev after_one : Surroundings
after_one = record { has_conn = λ n. true; answer = once; context_end = λ n. none }

abbrev never : Surroundings
never = record { has_conn = λ n. true; answer = λ n. failed reset; context_end = λ n. none }

first_fails : Failing after_one 1
first_fails zero h =
    ((reset, record { conn = refl; error = refl; retryable = reset_retryable }), refl)
first_fails (suc n) h = absurd (omega arith)

send_request_with_retry-answer_example :
    send_request_with_retry after_one (1 + 2) ≡ done (checked (reply [])) (1 + 1) (pauses_of 1)
send_request_with_retry-answer_example =
    send_request_with_retry-answer after_one 2 1 (reply []) first_fails refl refl

never-Fails : (n : ℕ) → Fails never n reset
never-Fails n = record { conn = refl; error = refl; retryable = reset_retryable }

send_request_with_retry-exhausted_example : send_request_with_retry never 3 ≡ record {
  result = inl (failed_after 3 reset);
  sent = 3 + 1;
  pauses = pauses_of 3;
  triggered = some reset;
}
send_request_with_retry-exhausted_example =
    send_request_with_retry-exhausted never 3 reset (λ j h. ((reset, never-Fails j), refl))
      (never-Fails 3)

-- Three retries wait for 600 milliseconds.
three_pauses : pauses_of 3 ≡ 100 ∷ 200 ∷ 300 ∷ []
unfolding pauses_of
three_pauses = refl

send_request_with_retry_bounds_example :
    ((send_request_with_retry never 3).sent ≤ 3 + 1)
    × (total (send_request_with_retry never 3).pauses ≤ 3 * 3 * 100)
    × ((e : GoError)
        → (send_request_with_retry never 3).triggered ≡ some e
        → ((send_request_with_retry never 3).sent ≡ 3 + 1)
          × ((send_request_with_retry never 3).result ≡ inl (failed_after 3 e)))
send_request_with_retry_bounds_example = send_request_with_retry_bounds never 3
