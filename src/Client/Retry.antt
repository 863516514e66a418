-- ===== src/Client/Retry.antt =====
-- client.go: one request, with the retries of a client that reconnects by itself, and the start of a
-- reconnection.
pub mod Rounds
pub mod Bounds
use goadstc.Base.{
  ℕ, zero, suc, ◌+◌, ◌*◌, Bool, true, false, ◌||◌, Option, none, some, List, [], ◌∷◌, ◌++◌, ◌⊎◌,
  inl, inr, ◌==◌, if◌then◌else◌,
}
use goadstc.Go.Strings.{text, contains}
use goadstc.Ams.Packet.{Packet}
use goadstc.Errors.{GoError}

-- What a request ends with besides a packet: an error of the transport or of the context as it came,
-- an ads.Error, or one of the two errors that are made here.
pub data Error : Type 0 where
  passed : GoError → Error
  ads : ℕ → Error
  not_connected : Error
  failed_after : ℕ → GoError → Error

-- isRetryableError, of an error that is not nil.
unfoldable pub is_retryable_error : GoError → Bool
is_retryable_error e =
    contains e.message (text "connection")
    || contains e.message (text "timeout")
    || contains e.message (text "closed")
    || contains e.message (text "reset")

-- What (*Conn).SendRequest returns.
pub data Answer : Type 0 where
  answered : Packet → Answer
  failed : GoError → Answer

-- What happens around the rounds of a request, by the number of the round: whether the client has a
-- connection, the answer, and whether the context ends in the pause behind it.
pub record Surroundings : Type 0 where
  pub has_conn : ℕ → Bool
  pub answer : ℕ → Answer
  pub context_end : ℕ → Option GoError

-- A packet or an error, how often the request was sent, the pauses in milliseconds, and the error that
-- a reconnection is triggered with.
pub record Outcome : Type 0 where
  pub result : Error ⊎ Packet
  pub sent : ℕ
  pub pauses : List ℕ
  pub triggered : Option GoError

-- A packet with an ADS error code is an error.
abbrev pub checked : Packet → Error ⊎ Packet
checked p = if p.header.error_code == 0 then inr p else inl (ads p.header.error_code)

abbrev pub done : Error ⊎ Packet → ℕ → List ℕ → Outcome
done r sent pauses = record { result = r; sent = sent; pauses = pauses; triggered = none }

-- The end of sendRequestWithRetry, all rounds used; the loop has left only a retryable error.
abbrev pub exhausted : ℕ → GoError → ℕ → List ℕ → Outcome
exhausted max_retries e sent pauses = record {
  result = inl (failed_after max_retries e);
  sent = sent;
  pauses = pauses;
  triggered = if is_retryable_error e then some e else none;
}

-- One round with a connection or without one; `again` is what follows a retryable error.
unfoldable pub retry_round : Bool → Answer → ℕ → List ℕ → (GoError → Outcome) → Outcome
retry_round false a attempt pauses again = done (inl not_connected) attempt pauses
retry_round true (answered p) attempt pauses again = done (checked p) (attempt + 1) pauses
retry_round true (failed e) attempt pauses again =
    if is_retryable_error e then again e else done (inl (passed e)) (attempt + 1) pauses

-- The pause behind round `attempt`, which an end of the context breaks off; `pauses` has it already.
unfoldable pub retry_pause : Option GoError → ℕ → List ℕ → Outcome → Outcome
retry_pause none attempt pauses next = next
retry_pause (some e) attempt pauses next = done (inl (passed e)) (attempt + 1) pauses

-- The loop from round `attempt` on, with `left` rounds behind it; `pauses` are those before it.
unfoldable pub retry_loop : Surroundings → ℕ → ℕ → ℕ → List ℕ → Outcome
unfolding retry_round retry_pause
retry_loop env max_retries zero attempt pauses =
    retry_round (env.has_conn attempt) (env.answer attempt) attempt pauses
      (λ e. exhausted max_retries e (attempt + 1) pauses)
retry_loop env max_retries (suc left) attempt pauses =
    let pauses' = pauses ++ ((attempt + 1) * 100 ∷ []) in
    let next = retry_loop env max_retries left (attempt + 1) pauses' in
    retry_round (env.has_conn attempt) (env.answer attempt) attempt pauses
      (λ e. retry_pause (env.context_end attempt) attempt pauses' next)

-- sendRequestWithRetry
unfoldable pub send_request_with_retry : Surroundings → ℕ → Outcome
send_request_with_retry env max_retries = retry_loop env max_retries max_retries 0 []

-- sendRequest; without the retries the connection is not looked at, and is there.
unfoldable pub send_request : Surroundings → Bool → Outcome
send_request env auto_reconnect =
    if auto_reconnect then send_request_with_retry env 3 else (elim (env.answer 0) [
      | answered p ↦ done (checked p) 1 []
      | failed e ↦ done (inl (passed e)) 1 []
    ])
