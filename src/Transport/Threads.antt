-- ===== src/Transport/Threads.antt =====
-- internal/transport/conn.go: the threads of a connection, one block of code to a step. Where the
-- environment chooses (the network, contexts, timers, select), the step takes an event.
use goadstc.Base.{
  ℕ, Bool, true, false, Option, none, some, [], ◌∷◌, ◌++◌, length, ◌==◌, if◌then◌else◌,
}
use goadstc.Go.{Result, ok, err, ◌>>=◌}
use goadstc.Ams.Packet.{Packet}
use goadstc.Transport.Conn.{
  ConnectionState, disconnecting, closed, Error, connection_closed, request_timeout, context_done,
  loop_ended, close_timeout, not_connected, not_connected_by, write_deadline, write_failed,
  read_deadline, read_failed, closed_by, PendingResponse, failure, response, Blocked, blocked, Conn,
  is_connected, set_error, register, unregister, lookup, deliver, receive, clear_pending,
  send_response, receive_response, close_responses,
}

-- What a call of SendRequest returns.
abbrev pub Answer : Type 0
Answer = Result Error Packet

-- Where a call of SendRequest stands, with its request and its channel.
pub data Sender : Type 0 where
  idle : Sender
  checking registering : Packet → Sender
  writing waiting : Packet → ℕ → Sender
  leaving done : Packet → Answer → Sender

-- What the environment makes of a sender's step: it goes on, the deadline or the write fails, the
-- context ends, the shutdown is seen, or the timer fires.
pub data SenderEvent : Type 0 where
  start : Packet → SenderEvent
  go context_ends sees_shutdown timer : SenderEvent
  deadline_fails write_fails : Error → SenderEvent

-- The error of a call on a connection that is not connected.
unfoldable pub refused : Conn → Error
refused c = elim c.last_error [ none ↦ not_connected c.state | some e ↦ not_connected_by c.state e ]

-- The answer for what came from the channel.
unfoldable pub received : Option Packet → Conn → Answer
received (some p) c = ok p
received none c = elim c.last_error [ none ↦ err connection_closed | some e ↦ err (closed_by e) ]

-- (*Conn).SendRequest
unfoldable pub sender_step : SenderEvent → Sender → Conn → Result Blocked (Sender × Conn)
unfolding refused received
sender_step (start req) idle c = ok (checking req, c)
sender_step go (checking req) c =
    if is_connected c.state then ok (registering req, c) else ok (done req (err (refused c)), c)
sender_step go (registering req) c = do
  (ch, c') ← register req.header.invoke_id c
  ok (writing req ch, c')
sender_step (deadline_fails e) (writing req ch) c =
    if c.has_timeout then ok (leaving req (err (write_deadline e)), set_error e c) else err blocked
sender_step (write_fails e) (writing req ch) c =
    ok (leaving req (err (write_failed e)), set_error e c)
sender_step go (writing req ch) c = ok (waiting req ch, c)
sender_step go (waiting req ch) c = do (p, c') ← receive ch c; ok (leaving req (received p c'), c')
sender_step context_ends (waiting req ch) c = ok (leaving req (err context_done), c)
sender_step sees_shutdown (waiting req ch) c =
    if c.shutdown then ok (leaving req (err connection_closed), c) else err blocked
sender_step timer (waiting req ch) c = ok (leaving req (err request_timeout), c)
sender_step go (leaving req a) c = ok (done req a, unregister req.header.invoke_id c)
sender_step _ _ c = err blocked

-- Where readLoop stands; `sending` tells whether the loop ends after it.
pub data Reader : Type 0 where
  at_top at_state reading : Reader
  sending : PendingResponse → Bool → Reader
  stopped : Reader

pub data ReaderEvent : Type 0 where
  go : ReaderEvent
  reads : Packet → ReaderEvent
  deadline_fails read_fails : Error → ReaderEvent

-- The deferred function of readLoop.
unfoldable pub reader_exit : Conn → Reader × Conn
reader_exit c = (stopped, if is_connected c.state then set_error loop_ended c else c)

-- (*Conn).readLoop
unfoldable pub reader_step : ReaderEvent → Reader → Conn → Result Blocked (Reader × Conn)
unfolding reader_exit
reader_step go at_top c = ok (if c.shutdown then reader_exit c else (at_state, c))
reader_step go at_state c = ok (if is_connected c.state then (reading, c) else reader_exit c)
reader_step (deadline_fails e) reading c =
    if c.has_timeout
    then ok (sending (failure e) true, set_error (read_deadline e) c)
    else err blocked
reader_step (read_fails e) reading c =
    if is_connected c.state
    then ok (sending (failure e) true, set_error (read_failed e) c)
    else ok (reader_exit c)
reader_step (reads p) reading c = ok (sending (response p.header.invoke_id p) false, c)
reader_step go (sending r last) c = do
  c' ← send_response r c
  ok (if last then reader_exit c' else (at_top, c'))
reader_step _ _ c = err blocked

-- Where dispatchLoop stands; `found` holds the channel of a response.
pub data Dispatcher : Type 0 where
  receiving : Dispatcher
  found : ℕ → Packet → Dispatcher
  spawning ended : Dispatcher

-- What the loop makes of a response that is no error.
unfoldable pub dispatch : ℕ → Packet → Conn → Dispatcher × Conn
dispatch id p c =
    if p.header.command_id == 8
    then (receiving, if c.has_handler then record c { notified = c.notified ++ (p ∷ []) } else c)
    else (elim (lookup id c) [ none ↦ receiving | some ch ↦ found ch p ], c)

-- The body of the loop, for what `range` took from the queue.
unfoldable pub take_response : Option PendingResponse → Conn → Dispatcher × Conn
unfolding dispatch
take_response none c = (ended, c)
take_response (some (failure e)) c = (spawning, c)
take_response (some (response id p)) c = dispatch id p c

-- (*Conn).dispatchLoop
unfoldable pub dispatcher_step : Dispatcher → Conn → Result Blocked (Dispatcher × Conn)
unfolding take_response
dispatcher_step receiving c = do (r, c') ← receive_response c; ok (take_response r c')
dispatcher_step (found ch p) c = do c' ← deliver ch p c; ok (receiving, c')
dispatcher_step spawning c = err blocked
dispatcher_step ended c = err blocked

-- Where a call of CloseWithTimeout stands.
pub data Closer : Type 0 where
  resting starting loading storing cancelling : Closer
  -- whether the goroutine that clears the map is still to run
  awaiting closing_net closing_responses marking returned : Bool → Closer

pub data CloserEvent : Type 0 where
  call go timer clear : CloserEvent

-- The goroutine runs beside its closer, and may run when that is past its wait.
unfoldable pub set_clearing : Bool → Closer → Closer
set_clearing b (awaiting _) = awaiting b
set_clearing b (closing_net _) = closing_net b
set_clearing b (closing_responses _) = closing_responses b
set_clearing b (marking _) = marking b
set_clearing b (returned _) = returned b
set_clearing b k = k

unfoldable pub is_clearing : Closer → Bool
is_clearing (awaiting b) = b
is_clearing (closing_net b) = b
is_clearing (closing_responses b) = b
is_clearing (marking b) = b
is_clearing (returned b) = b
is_clearing _ = false

abbrev pub is_ending : ConnectionState → Bool
is_ending disconnecting = true
is_ending closed = true
is_ending _ = false

abbrev pub pending_size : Conn → ℕ
pending_size c = elim c.pending [ none ↦ 0 | some m ↦ length m ]

-- (*Conn).CloseWithTimeout
unfoldable pub closer_step : CloserEvent → Closer → Conn → Result Blocked (Closer × Conn)
unfolding set_clearing is_clearing
closer_step call resting c = ok (starting, c)
closer_step clear k c =
    if is_clearing k then (do c' ← clear_pending c; ok (set_clearing false k, c')) else err blocked
closer_step go starting c =
    if is_connected c.state
    then ok (cancelling, record c { state = disconnecting })
    else ok (loading, c)
closer_step go loading c = ok (if is_ending c.state then returned false else storing, c)
closer_step go storing c = ok (cancelling, record c { state = disconnecting })
closer_step go cancelling c = ok (awaiting true, record c { shutdown = true })
closer_step go (awaiting b) c = if b then err blocked else ok (closing_net b, c)
closer_step timer (awaiting b) c = ok (closing_net b, set_error (close_timeout (pending_size c)) c)
closer_step go (closing_net b) c = ok (closing_responses b, record c { net_closed = true })
closer_step go (closing_responses b) c = do c' ← close_responses c; ok (marking b, c')
closer_step go (marking b) c = ok (returned b, record c { state = closed })
closer_step _ _ c = err blocked
