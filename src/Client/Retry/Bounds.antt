-- ===== src/Client/Retry/Bounds.antt =====
-- client.go: how often sendRequestWithRetry sends and how long it waits at most.
use goadstc.Base.{
  ℕ, zero, suc, ◌+◌, ◌*◌, ◌≤◌, ◌≡◌, Bool, true, false, Option, none, some, List, [], ◌∷◌, ◌++◌, ◌⊎◌,
  inl, inr, arith, Bool-cases,
}
use goadstc.Ams.Packet.{Packet}
use goadstc.Errors.{GoError}
use goadstc.Client.Retry.{
  Error, passed, not_connected, failed_after, is_retryable_error, Answer, checked, done, answered,
  failed, Surroundings, Outcome, retry_round, retry_pause, retry_loop, send_request_with_retry,
}

unfoldable pub total : List ℕ → ℕ
total [] = 0
total (x ∷ xs) = x + total xs

total-append : (xs ys : List ℕ) → total (xs ++ ys) ≡ total xs + total ys
unfolding total
total-append [] ys = omega arith
total-append (x ∷ xs) ys = omega (arith, total-append xs ys)

-- What holds of all ends of a round and of what follows it holds of the round.
retry_round-elim :
    (P : Outcome → Type 0) (h : Bool) (a : Answer) (n : ℕ) (pauses : List ℕ)
    (again : GoError → Outcome)
    → ((r : Error ⊎ Packet) (sent : ℕ) → sent ≤ n + 1 → P (done r sent pauses))
    → ((e : GoError) → is_retryable_error e ≡ true → P (again e))
    → P (retry_round h a n pauses again)
unfolding retry_round
retry_round-elim P false a n pauses again ends follow = ends (inl not_connected) n (omega arith)
retry_round-elim P true (answered p) n pauses again ends follow =
    ends (checked p) (n + 1) (omega arith)
retry_round-elim P true (failed e) n pauses again ends follow =
    elim (Bool-cases (is_retryable_error e)) [
      | inl y ↦ rw y (follow e y)
      | inr y ↦ rw y (ends (inl (passed e)) (n + 1) (omega arith))
    ]

-- What holds of an outcome when round `attempt` begins with `left` rounds behind it and `waited`
-- milliseconds spent.
abbrev Bounded : ℕ → ℕ → ℕ → ℕ → Outcome → Type 0
Bounded m attempt left waited o =
    (o.sent ≤ attempt + left + 1)
    × (total o.pauses ≤ waited + left * (attempt + left) * 100)
    × ((e : GoError)
        → o.triggered ≡ some e
        → (o.sent ≡ attempt + left + 1) × (o.result ≡ inl (failed_after m e)))

done-Bounded :
    (m attempt left waited : ℕ) (r : Error ⊎ Packet) (sent : ℕ) (pauses : List ℕ)
    → sent ≤ attempt + left + 1
    → total pauses ≤ waited + left * (attempt + left) * 100
    → Bounded m attempt left waited (done r sent pauses)
done-Bounded m attempt left waited r sent pauses h k = (h, k, λ e t. cc)

retry_pause-Bounded :
    (m attempt left waited : ℕ) (c : Option GoError) (pauses : List ℕ) (next : Outcome)
    → total pauses ≡ waited + (attempt + 1) * 100
    → Bounded m (attempt + 1) left (total pauses) next
    → Bounded m attempt (suc left) waited (retry_pause c attempt pauses next)
unfolding retry_pause
retry_pause-Bounded m attempt left waited none pauses next e b =
    (omega (arith, b.0), grind (arith, b.1), λ e' t. (omega (arith, (b.2 e' t).0), (b.2 e' t).1))
retry_pause-Bounded m attempt left waited (some e') pauses next e b =
    done-Bounded m attempt (suc left) waited (inl (passed e')) (attempt + 1) pauses (omega arith)
      (grind arith)

retry_loop-Bounded :
    (env : Surroundings) (m left attempt : ℕ) (pauses : List ℕ)
    → Bounded m attempt left (total pauses) (retry_loop env m left attempt pauses)
unfolding retry_loop
retry_loop-Bounded env m zero attempt pauses =
    retry_round-elim (Bounded m attempt zero (total pauses)) _ _ attempt pauses _
      (λ r sent h.
        done-Bounded m attempt zero (total pauses) r sent pauses (omega arith) (omega arith))
      (λ e y. rw y (omega arith, omega arith, λ e' t. (omega arith, cc)))
retry_loop-Bounded env m (suc left) attempt pauses =
    let pauses' = pauses ++ ((attempt + 1) * 100 ∷ []) in
    let next = retry_loop env m left (attempt + 1) pauses' in
    let spent : total pauses' ≡ total pauses + (attempt + 1) * 100 =
      unfold total in omega (arith, total-append pauses ((attempt + 1) * 100 ∷ [])) in
    retry_round-elim (Bounded m attempt (suc left) (total pauses)) (env.has_conn attempt)
      (env.answer attempt) attempt pauses
      (λ e. retry_pause (env.context_end attempt) attempt pauses' next)
      (λ r sent h.
        done-Bounded m attempt (suc left) (total pauses) r sent pauses (omega arith) (omega arith))
      (λ e y.
        retry_pause-Bounded m attempt left (total pauses) (env.context_end attempt) pauses' next
          spent (retry_loop-Bounded env m left (attempt + 1) pauses'))

-- Whatever happens, sendRequestWithRetry sends a request once more than there are retries at most,
-- and pauses for a hundred times the square of the retries in milliseconds at most. It triggers a
-- reconnection only after all of these, and then ends with the error that it triggers it with.
pub send_request_with_retry_bounds :
    (env : Surroundings) (max_retries : ℕ)
    → let o = send_request_with_retry env max_retries in
      (o.sent ≤ max_retries + 1)
      × (total o.pauses ≤ max_retries * max_retries * 100)
      × ((e : GoError)
          → o.triggered ≡ some e
          → (o.sent ≡ max_retries + 1) × (o.result ≡ inl (failed_after max_retries e)))
unfolding send_request_with_retry
send_request_with_retry_bounds env m =
    let b = retry_loop-Bounded env m m 0 [] in
    (
      omega (arith, b.0),
      unfold total in grind (arith, b.1),
      λ e t. (omega (arith, (b.2 e t).0), (b.2 e t).1),
    )
