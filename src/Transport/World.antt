-- ===== src/Transport/World.antt =====
-- internal/transport/conn.go: a connection with any number of calls and closers, whose steps
-- interleave freely.
pub mod Owners
pub mod Blocks
pub mod Steps
pub mod Matching
pub mod Kept
pub mod Frame
pub mod Shutdown
pub mod Races
pub mod Calls
use goadstc.Base.{ℕ, Bool, true, false, ◌≡◌}
use goadstc.Go.{Result, ok, err, panic, ◌>>=◌}
use goadstc.Transport.Conn.{Blocked, blocked, Conn, dialed, set_at}
use goadstc.Transport.Threads.{
  Sender, idle, SenderEvent, sender_step, Reader, at_top, ReaderEvent, reader_step, Dispatcher,
  receiving, spawning, ended, dispatcher_step, Closer, resting, starting, CloserEvent, closer_step,
}

pub record World : Type 0 where
  pub conn : Conn
  pub senders : ℕ → Sender
  pub closers : ℕ → Closer
  pub reader : Reader
  pub dispatcher : Dispatcher

-- What Dial returns, with the two goroutines that it starts.
abbrev pub dial : Bool → World
dial has_timeout = record {
  conn = dialed has_timeout;
  senders = λ i. idle;
  closers = λ k. resting;
  reader = at_top;
  dispatcher = receiving;
}

-- The thread that takes the next step. `spawns` is `go c.Close()` of dispatchLoop.
pub data Action : Type 0 where
  sends : ℕ → SenderEvent → Action
  reads : ReaderEvent → Action
  dispatches : Action
  spawns : ℕ → Action
  closes : ℕ → CloserEvent → Action

-- `go c.Close()` starts a closer that was not there, and dispatchLoop returns.
unfoldable pub spawn : Dispatcher → Closer → ℕ → World → Result Blocked World
spawn spawning resting k w =
    ok (record w { dispatcher = ended; closers = set_at w.closers k starting })
spawn _ _ k w = err blocked

-- One step; `panic` ends the program.
unfoldable pub step : Action → World → Result Blocked World
unfolding spawn
step (sends i ev) w = do
  (s, c) ← sender_step ev (w.senders i) w.conn
  ok (record w { conn = c; senders = set_at w.senders i s })
step (reads ev) w = do
  (r, c) ← reader_step ev w.reader w.conn
  ok (record w { conn = c; reader = r })
step dispatches w = do
  (d, c) ← dispatcher_step w.dispatcher w.conn
  ok (record w { conn = c; dispatcher = d })
step (spawns k) w = spawn w.dispatcher (w.closers k) k w
step (closes k ev) w = do
  (s, c) ← closer_step ev (w.closers k) w.conn
  ok (record w { conn = c; closers = set_at w.closers k s })

-- The worlds that a run without a panic leads to.
pub data Reach (s : World) : World → Type 0 where
  here : Reach s s
  next : {t u : World} (a : Action) → Reach s t → step a t ≡ ok u → Reach s u
