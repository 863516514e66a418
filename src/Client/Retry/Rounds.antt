-- ===== src/Client/Retry/Rounds.antt =====
-- client.go: which round of sendRequestWithRetry decides, and with what.
use goadstc.Base.{
  ℕ, zero, suc, ◌+◌, ◌*◌, ◌<◌, ◌≡◌, refl, ap, ◌∙◌, true, none, some, List, [], ◌∷◌, ◌++◌, inl,
  arith,
}
use goadstc.Ams.Packet.{Packet}
use goadstc.Errors.{GoError}
use goadstc.Client.Retry.{
  failed_after, is_retryable_error, answered, failed, Surroundings, checked, done, retry_round,
  retry_pause, retry_loop, send_request_with_retry,
}

-- Round `n` ends with the retryable error `e`.
pub record Fails (env : Surroundings) (n : ℕ) (e : GoError) : Type 0 where
  pub conn : env.has_conn n ≡ true
  pub error : env.answer n ≡ failed e
  pub retryable : is_retryable_error e ≡ true

-- Every round before round `n` does, and no context ends in the pauses behind them.
abbrev pub Failing : Surroundings → ℕ → Type 0
Failing env n = (j : ℕ) → j < n → ((e : GoError) × Fails env j e) × (env.context_end j ≡ none)

-- 100, 200, ... milliseconds.
unfoldable pub pauses_of : ℕ → List ℕ
pauses_of zero = []
pauses_of (suc n) = pauses_of n ++ ((n + 1) * 100 ∷ [])

module _ (env : Surroundings) (max_retries : ℕ) where
  retry_loop-skip :
      (left attempt : ℕ) (pauses : List ℕ) (e : GoError)
      → Fails env attempt e
      → env.context_end attempt ≡ none
      → retry_loop env max_retries (suc left) attempt pauses
        ≡ retry_loop env max_retries left (attempt + 1) (pauses ++ ((attempt + 1) * 100 ∷ []))
  unfolding retry_loop retry_round retry_pause
  retry_loop-skip left attempt pauses e f c =
      rw (f.conn, f.error, retry_round) (rw (f.retryable, c) refl)

  -- The loop reaches round `n`.
  retry_loop-reach :
      (left n : ℕ)
      → Failing env n
      → retry_loop env max_retries (n + left) 0 [] ≡ retry_loop env max_retries left n (pauses_of n)
  unfolding pauses_of
  retry_loop-reach left zero f = ap (λ k. retry_loop env max_retries k 0 []) (omega arith)
  retry_loop-reach left (suc n) f =
      let ((e, fails), quiet) = f n (omega arith) in
      ap (λ k. retry_loop env max_retries k 0 []) (omega arith)
      ∙ retry_loop-reach (suc left) n (λ j h. f j (omega arith))
      ∙ retry_loop-skip left n (pauses_of n) e fails quiet
      ∙ ap (λ k. retry_loop env max_retries left k (pauses_of (suc n))) (omega arith)

-- Where the first `n` of the rounds that are allowed fail with retryable errors, in which no context
-- ends, and the next one has a connection and gets a packet, the request was sent `n + 1` times with
-- pauses of 100, 200, ... milliseconds, and ends with that packet, or with its ADS error.
pub send_request_with_retry-answer :
    (env : Surroundings) (left n : ℕ) (p : Packet)
    → Failing env n
    → env.has_conn n ≡ true
    → env.answer n ≡ answered p
    → send_request_with_retry env (n + left) ≡ done (checked p) (n + 1) (pauses_of n)
unfolding send_request_with_retry
send_request_with_retry-answer env left n p f conn a =
    retry_loop-reach env (n + left) left n f ∙ answer_lem left
  where
    answer_lem :
        (k : ℕ)
        → retry_loop env (n + left) k n (pauses_of n) ≡ done (checked p) (n + 1) (pauses_of n)
    answer_lem zero = unfold retry_loop retry_round in rw (conn, a) refl
    answer_lem (suc k) = unfold retry_loop retry_round in rw (conn, a) refl

-- Where every round that is allowed fails with a retryable error, and no context ends in a pause, the
-- request was sent once more than there are retries, and ends with the last of the errors, by which a
-- reconnection is triggered.
pub send_request_with_retry-exhausted :
    (env : Surroundings) (max_retries : ℕ) (e : GoError)
    → Failing env max_retries
    → Fails env max_retries e
    → send_request_with_retry env max_retries ≡ record {
      result = inl (failed_after max_retries e);
      sent = max_retries + 1;
      pauses = pauses_of max_retries;
      triggered = some e;
    }
unfolding send_request_with_retry retry_loop retry_round
send_request_with_retry-exhausted env n e f last =
    ap (λ k. retry_loop env n k 0 []) (omega arith)
    ∙ retry_loop-reach env n zero n f
    ∙ rw (last.conn, last.error, last.retryable) refl
