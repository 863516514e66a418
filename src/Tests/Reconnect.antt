-- ===== src/Tests/Reconnect.antt =====
-- Runs of client.go's reconnection.
use goadstc.Base.{
  ℕ, zero, suc, ◌+◌, ◌*◌, ◌<◌, ◌≤◌, ◌≡◌, refl, true, false, inr, none, some, [], ◌∷◌, ◌++◌, arith,
  length,
}
use goadstc.Go.{ok, exact}
use goadstc.Go.Strings.{text}
use goadstc.Ams.Packet.{Packet, new_request_packet}
use goadstc.Errors.{GoError}
use goadstc.Client.Retry.{answered}
use goadstc.Client.Reconnect.{
  Attempt, Rounds, renews, Loop, trying, second, next_backoff, run_reconnect_loop,
}
use goadstc.Client.Subscriptions.{no_subscriptions}
use goadstc.Client.Subscriptions.Invariant.{no_subscriptions-Sound}
use goadstc.Client.Reconnect.Backoff.{backoff_at}
use goadstc.Client.Reconnect.Recovery.{
  dials, verifies, succeeds, backoffs, Recovers, run_reconnect_loop-Recovers,
}
use goadstc.Client.Reconnect.Supervisor.{
  waiting, State, Step, Reach, here, next, new_client, reconnect_loops_bounded,
}
use goadstc.Tests.Frames.{plc, pc}

abbrev refused : GoError
refused = record { chain = []; message = text "connection refused" }

abbrev state_answer : Packet
state_answer = new_request_packet pc 32905 plc 851 4 7 (exact [])

-- The third attempt connects.
attempt_of : ℕ → Attempt
attempt_of (suc (suc (suc n))) = record { dialing = none; answer = answered state_answer }
attempt_of n = record { dialing = some refused; answer = answered state_answer }

abbrev rounds : Rounds
rounds = record {
  shut_down = λ n. false;
  attempt = attempt_of;
  renewal = λ n. renews no_subscriptions (λ i. inr state_answer);
}

abbrev lost : Loop
lost = record {
  stage = trying;
  renewed = none;
  reconnect_attempts = 1;
  has_conn = false;
  pauses = [];
  events = [];
  changes = [];
}

two_fail : (j : ℕ) → 1 ≤ j → j < 2 + 1 → (false ≡ false) × (succeeds (attempt_of j) ≡ false)
unfolding attempt_of succeeds dials
two_fail zero h k = absurd (omega arith)
two_fail (suc zero) h k = (refl, refl)
two_fail (suc (suc zero)) h k = (refl, refl)
two_fail (suc (suc (suc n))) h k = absurd (omega arith)

third_connects : succeeds (attempt_of (2 + 1)) ≡ true
unfolding attempt_of succeeds dials verifies new_request_packet
third_connects = refl

run_reconnect_loop-Recovers_example :
    (l' : Loop) × (run_reconnect_loop 1 2 3 (60 * second) rounds (suc (2 + 5)) lost ≡ ok l')
    × Recovers 1 2 3
        (renews no_subscriptions (λ i. inr state_answer))
        3
        l'
        ([] ++ backoffs (60 * second) 0 (suc 2))
run_reconnect_loop-Recovers_example =
    run_reconnect_loop-Recovers 1 2 3 (60 * second) rounds 2 5 lost two_fail refl third_connects
      no_subscriptions-Sound

-- One, two and four seconds.
three_pauses : backoffs (60 * second) 0 3 ≡ second ∷ 2 * second ∷ 4 * second ∷ []
unfolding backoffs backoff_at next_backoff
three_pauses = refl

-- A client that New could not connect: an error triggers a second loop.
abbrev two_loops : State
two_loops = record { reconnect_attempts = 1; loops = waiting 1 ∷ waiting 1 ∷ [] }

two_loops-Reach : Reach (new_client false) two_loops
unfolding new_client
two_loops-Reach = next (next here (Step.trigger refl)) (Step.start [] (waiting 1 ∷ []) refl)

reconnect_loops_bounded_example : length two_loops.loops ≤ 2
reconnect_loops_bounded_example = reconnect_loops_bounded false two_loops two_loops-Reach
