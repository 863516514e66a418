-- ===== src/Client/Reconnect.antt =====
-- client.go: connecting, the loop that reconnects with a growing pause, and the goroutines that start
-- it.
pub mod Backoff
pub mod Recovery
pub mod Supervisor
use goadstc.Base.{
  ℕ, zero, suc, ◌+◌, ◌*◌, ◌%◌, ◌^◌, Bool, true, false, Option, none, some, List, [], ◌∷◌, ◌++◌, ◌⊎◌,
  ltb, leb, ◌==◌, if◌then◌else◌,
}
use goadstc.Go.{Result, ok, err, panic, ◌>>=◌}
use goadstc.Go.Strings.{text}
use goadstc.Transport.Conn.{ConnectionState, connecting, connected, closed, error}
use goadstc.Errors.{GoError, ClassifiedError, classify_error, ads}
use goadstc.Metrics.{
  Event, connection_attempt, connection_success, connection_failure, connection_is, reconnection,
  error_occurred,
}
use goadstc.Ams.Packet.{Packet}
use goadstc.Client.Retry.{Answer, answered, failed, Error}
use goadstc.Client.Subscriptions.{State, NoError, reestablish_subscriptions}

-- The error of connect: that of Dial, that of the request which verifies the connection, or the ADS
-- error of its answer.
pub data ConnectError : Type 0 where
  dial : GoError → ConnectError
  verification : GoError → ConnectError
  verification_ads : ℕ → ConnectError

-- A call of the state callback, whose error is only nil or not.
pub record Change : Type 0 where
  pub before : ConnectionState
  pub after : ConnectionState
  pub failing : Bool

-- What Dial and, if it connects, the verification come to.
pub record Attempt : Type 0 where
  pub dialing : Option GoError
  pub answer : Answer

-- The end of connect. `has_conn` is whether `c.conn` is set, `opened` whether Dial made a connection,
-- and `conn_closed` whether it was closed again.
pub record Connected : Type 0 where
  pub failure : Option ConnectError
  pub has_conn : Bool
  pub opened : Bool
  pub conn_closed : Bool
  pub events : List Event
  pub changes : List Change

-- The verification has its answer; whether it has no ADS error is an argument.
unfoldable pub verified : Packet → Bool → Connected
verified p true = record {
  failure = none;
  has_conn = true;
  opened = true;
  conn_closed = false;
  events = connection_success ∷ connection_is true ∷ [];
  changes = record { before = connecting; after = connected; failing = false } ∷ [];
}
verified p false = record {
  failure = some (verification_ads p.header.error_code);
  has_conn = false;
  opened = true;
  conn_closed = true;
  events = connection_failure ∷ error_occurred ads (text "connect") ∷ [];
  changes = [];
}

-- The addresses that ClassifyError compares with are arguments, as in Errors.
module _ (closed_at failed_at : ℕ) where
  -- The events of a failure with an error that ClassifyError looks at.
  unfoldable pub failure_events : GoError → Result NoError (List Event)
  failure_events e = do
    ce ← classify_error closed_at failed_at e (text "connect")
    ok (connection_failure ∷ error_occurred ce.category (text "connect") ∷ [])

  -- The part of connect behind Dial, which has set `c.conn`.
  unfoldable pub verify : Answer → Result NoError Connected
  unfolding failure_events verified
  verify (failed e) = do
    events ← failure_events e
    ok (record {
      failure = some (verification e);
      has_conn = false;
      opened = true;
      conn_closed = true;
      events = events;
      changes = [];
    })
  verify (answered p) = ok (verified p (p.header.error_code == 0))

  -- connect from the end of Dial on; where that failed, `c.conn` stays what it was.
  unfoldable pub dialed : Bool → Option GoError → Answer → Result NoError Connected
  unfolding verify failure_events
  dialed has_conn none a = do r ← verify a; ok (record r { events = connection_attempt ∷ r.events })
  dialed has_conn (some e) a = do
    events ← failure_events e
    ok (record {
      failure = some (dial e);
      has_conn = has_conn;
      opened = false;
      conn_closed = false;
      events = connection_attempt ∷ events;
      changes = [];
    })

  -- connect
  unfoldable pub connect : Bool → Attempt → Result NoError Connected
  unfolding dialed
  connect has_conn a = dialed has_conn a.dialing a.answer

-- `backoff *= 2; if backoff > c.maxReconnectDelay { backoff = c.maxReconnectDelay }`, in nanoseconds.
-- A product whose 64 bits have the sign is negative, and not above the maximum.
unfoldable pub next_backoff : ℕ → ℕ → ℕ
next_backoff max_delay backoff =
    let double = backoff * 2 % 2 ^ 64 in
    if leb (2 ^ 63) double then double else if ltb max_delay double then max_delay else double

-- time.Second
abbrev pub second : ℕ
second = 1000000000

-- What the call of reestablishSubscriptions meets: the client's subscriptions and what sendRequest
-- returns for each, or a lock that never becomes free.
pub data Renewal : Type 0 where
  renews : State → (ℕ → Error ⊎ Packet) → Renewal
  waits : Renewal

-- What happens to a loop, by the number of the round: whether select takes the shutdown, what
-- connect comes to, and what the renewal of the subscriptions meets behind it.
pub record Rounds : Type 0 where
  pub shut_down : ℕ → Bool
  pub attempt : ℕ → Attempt
  pub renewal : ℕ → Renewal

-- Where a loop stands after some rounds: it goes on, it waits in reestablishSubscriptions, or it has
-- ended.
pub data Stage : Type 0 where
  trying stopped renewing reconnected : Stage

-- `renewed` holds the subscriptions as reestablishSubscriptions leaves them. `changes` are the calls
-- of the state callback but for those about a subscription that could not be made again.
pub record Loop : Type 0 where
  pub stage : Stage
  pub renewed : Option State
  pub reconnect_attempts : ℕ
  pub has_conn : Bool
  pub pauses : List ℕ
  pub events : List Event
  pub changes : List Change

abbrev pub retrying : ConnectionState → ConnectionState → Change
retrying a b = record { before = a; after = b; failing = true }

-- What connect has done, added to what was done before in the round.
abbrev pub record_attempt : ℕ → ℕ → Connected → Loop → Loop
record_attempt attempt backoff r l = record {
  stage = trying;
  renewed = l.renewed;
  reconnect_attempts = attempt;
  has_conn = r.has_conn;
  pauses = l.pauses ++ (backoff ∷ []);
  events = l.events ++ (reconnection ∷ r.events);
  changes = l.changes ++ (retrying error connecting ∷ r.changes);
}

-- The loop state that the next round begins with.
abbrev pub failed_attempt : ℕ → ℕ → Connected → Loop → Loop
failed_attempt attempt backoff r l =
    let l' = record_attempt attempt backoff r l in
    record l' { changes = l'.changes ++ (retrying connecting error ∷ []) }

-- The addresses that ClassifyError compares with, and that of a new error.
module _ (closed_at failed_at address : ℕ) where
  -- The subscriptions are made again, then the counter of attempts is set back and the loop ends.
  unfoldable pub renew : Renewal → Loop → Result NoError Loop
  renew (renews s answers) l = do
    subs ← reestablish_subscriptions closed_at failed_at address answers s
    ok (record l { stage = reconnected; renewed = some subs; reconnect_attempts = 0 })
  renew waits l = ok (record l { stage = renewing })

  -- The end of a round: a success is followed by the renewal, and the loop goes on with `next`
  -- otherwise.
  unfoldable pub after_connect :
      Option ConnectError → Renewal → Loop → Result NoError Loop → Result NoError Loop
  unfolding renew
  after_connect none w l next = renew w l
  after_connect (some e) w l next = next

module _ (closed_at failed_at address : ℕ) (max_delay : ℕ) where
  -- reconnectLoop for `rounds` rounds at most, from attempt `attempt` on.
  unfoldable pub reconnect_loop : Rounds → ℕ → ℕ → ℕ → Loop → Result NoError Loop
  unfolding after_connect
  reconnect_loop env zero attempt backoff l = ok l
  reconnect_loop env (suc rounds) attempt backoff l =
      if env.shut_down attempt then ok (record l { stage = stopped }) else (do
        r ← connect closed_at failed_at l.has_conn (env.attempt attempt)
        let next =
            reconnect_loop env rounds (attempt + 1) (next_backoff max_delay backoff)
              (failed_attempt attempt backoff r l)
        after_connect closed_at failed_at address r.failure (env.renewal attempt)
            (record_attempt attempt backoff r l) next)

  -- The loop from its start.
  unfoldable pub run_reconnect_loop : Rounds → ℕ → Loop → Result NoError Loop
  run_reconnect_loop env rounds l = reconnect_loop env rounds 1 second l
