-- ===== src/Transport/World/Kept.antt =====
-- internal/transport/conn.go: properties of a connection that each block of code keeps.
use goadstc.Base.{ℕ, true, Option, none, some, List, ◌==◌}
use goadstc.Ams.Packet.{Packet}
use goadstc.Transport.Conn.{
  disconnecting, closed, Error, loop_ended, read_deadline, read_failed, PendingResponse, failure,
  response, Conn, is_connected, set_error, register, unregister, deliver, receive, clear_pending,
  send_response, receive_response, close_responses,
}
use goadstc.Transport.Threads.{
  Sender, Reader, Dispatcher, Closer, SenderEvent, sender_step, ReaderEvent, reader_step,
  reader_exit, dispatcher_step, dispatch, take_response, CloserEvent, closer_step, is_clearing,
}
use goadstc.Transport.World.{World, Action, step, spawn, Reach, here, next}
use goadstc.Transport.World.Owners.{Holds}
use goadstc.Transport.World.Blocks.{Holds-bind}
use goadstc.Transport.World.Steps.{Holds-if, either}
use mathlib.Core.Path.{subst}

-- A property of connections that each block of the code keeps.
pub record IsKept (Q : Conn → Type 0) : Type 0 where
  pub on_error : (e : Error) (c : Conn) → Q c → Q (set_error e c)
  pub on_register : (id : ℕ) (c : Conn) → Q c → Holds (λ r. Q r.1) (register id c)
  pub on_unregister : (id : ℕ) (c : Conn) → Q c → Q (unregister id c)
  pub on_receive : (ch : ℕ) (c : Conn) → Q c → Holds (λ r. Q r.1) (receive ch c)
  pub on_deliver : (ch : ℕ) (p : Packet) (c : Conn) → Q c → Holds Q (deliver ch p c)
  pub on_clear : (c : Conn) → Q c → Holds Q (clear_pending c)
  pub on_send : (r : PendingResponse) (c : Conn) → Q c → Holds Q (send_response r c)
  pub on_take : (c : Conn) → Q c → Holds (λ r. Q r.1) (receive_response c)
  pub on_close : (c : Conn) → Q c → Holds Q (close_responses c)
  pub on_notify : (ps : List Packet) (c : Conn) → Q c → Q (record c { notified = ps })
  pub on_disconnect : (c : Conn) → Q c → Q (record c { state = disconnecting })
  pub on_shutdown : (c : Conn) → Q c → Q (record c { shutdown = true })
  pub on_net_close : (c : Conn) → Q c → Q (record c { net_closed = true })
  pub on_closed : (c : Conn) → Q c → Q (record c { state = closed })

module _ (Q : Conn → Type 0) (k : IsKept Q) where
  abbrev After : {S : Type 0} → S × Conn → Type 0
  After r = Q r.1

  pub sender_step-keeps :
      (ev : SenderEvent) (s : Sender) (c : Conn) → Q c → Holds After (sender_step ev s c)
  unfolding sender_step
  sender_step-keeps (SenderEvent.start req) Sender.idle c q = q
  sender_step-keeps SenderEvent.go (Sender.checking req) c q =
      Holds-if After (is_connected c.state) _ _ q q
  sender_step-keeps SenderEvent.go (Sender.registering req) c q =
      Holds-bind After After (register req.header.invoke_id c) _
        (k.on_register req.header.invoke_id c q) (λ r h. h)
  sender_step-keeps (SenderEvent.deadline_fails e) (Sender.writing req ch) c q =
      Holds-if After c.has_timeout _ _ (k.on_error e c q) tt
  sender_step-keeps (SenderEvent.write_fails e) (Sender.writing req ch) c q = k.on_error e c q
  sender_step-keeps SenderEvent.go (Sender.writing req ch) c q = q
  sender_step-keeps SenderEvent.go (Sender.waiting req ch) c q =
      Holds-bind After After (receive ch c) _ (k.on_receive ch c q) (λ r h. h)
  sender_step-keeps SenderEvent.context_ends (Sender.waiting req ch) c q = q
  sender_step-keeps SenderEvent.sees_shutdown (Sender.waiting req ch) c q =
      Holds-if After c.shutdown _ _ q tt
  sender_step-keeps SenderEvent.timer (Sender.waiting req ch) c q = q
  sender_step-keeps SenderEvent.go (Sender.leaving req a) c q =
      k.on_unregister req.header.invoke_id c q
  sender_step-keeps _ _ c q = tt

  exit-keeps : (c : Conn) → Q c → After (reader_exit c)
  unfolding reader_exit
  exit-keeps c q = either Q (is_connected c.state) _ _ (k.on_error loop_ended c q) q

  reader_step-keeps :
      (ev : ReaderEvent) (r : Reader) (c : Conn) → Q c → Holds After (reader_step ev r c)
  unfolding reader_step
  reader_step-keeps ReaderEvent.go Reader.at_top c q =
      either After c.shutdown _ _ (exit-keeps c q) q
  reader_step-keeps ReaderEvent.go Reader.at_state c q =
      either After (is_connected c.state) _ _ q (exit-keeps c q)
  reader_step-keeps (ReaderEvent.deadline_fails e) Reader.reading c q =
      Holds-if After c.has_timeout _ _ (k.on_error (read_deadline e) c q) tt
  reader_step-keeps (ReaderEvent.read_fails e) Reader.reading c q =
      Holds-if After (is_connected c.state) _ _ (k.on_error (read_failed e) c q) (exit-keeps c q)
  reader_step-keeps (ReaderEvent.reads p) Reader.reading c q = q
  reader_step-keeps ReaderEvent.go (Reader.sending r last) c q =
      Holds-bind Q After (send_response r c) _ (k.on_send r c q)
        (λ c' h. either After last _ _ (exit-keeps c' h) h)
  reader_step-keeps _ _ c q = tt

  dispatch-keeps : (r : Option PendingResponse) (c : Conn) → Q c → After (take_response r c)
  unfolding take_response dispatch
  dispatch-keeps none c q = q
  dispatch-keeps (some (failure e)) c q = q
  dispatch-keeps (some (response id p)) c q =
      either After (p.header.command_id == 8) _ _ (either Q c.has_handler _ _ (k.on_notify _ c q) q)
        q

  dispatcher_step-keeps : (d : Dispatcher) (c : Conn) → Q c → Holds After (dispatcher_step d c)
  unfolding dispatcher_step
  dispatcher_step-keeps Dispatcher.receiving c q =
      Holds-bind After After (receive_response c) _ (k.on_take c q)
        (λ r h. dispatch-keeps r.0 r.1 h)
  dispatcher_step-keeps (Dispatcher.found ch p) c q =
      Holds-bind Q After (deliver ch p c) _ (k.on_deliver ch p c q) (λ c' h. h)
  dispatcher_step-keeps Dispatcher.spawning c q = tt
  dispatcher_step-keeps Dispatcher.ended c q = tt

  closer_step-keeps :
      (ev : CloserEvent) (s : Closer) (c : Conn) → Q c → Holds After (closer_step ev s c)
  unfolding closer_step
  closer_step-keeps CloserEvent.clear s c q =
      Holds-if After (is_clearing s) _ _
        (Holds-bind Q After (clear_pending c) _ (k.on_clear c q) (λ c' h. h)) tt
  closer_step-keeps CloserEvent.call Closer.resting c q = q
  closer_step-keeps CloserEvent.go Closer.starting c q =
      Holds-if After (is_connected c.state) _ _ (k.on_disconnect c q) q
  closer_step-keeps CloserEvent.go Closer.loading c q = q
  closer_step-keeps CloserEvent.go Closer.storing c q = k.on_disconnect c q
  closer_step-keeps CloserEvent.go Closer.cancelling c q = k.on_shutdown c q
  closer_step-keeps CloserEvent.go (Closer.awaiting b) c q = Holds-if After b _ _ tt q
  closer_step-keeps CloserEvent.timer (Closer.awaiting b) c q = k.on_error _ c q
  closer_step-keeps CloserEvent.go (Closer.closing_net b) c q = k.on_net_close c q
  closer_step-keeps CloserEvent.go (Closer.closing_responses b) c q =
      Holds-bind Q After (close_responses c) _ (k.on_close c q) (λ c' h. h)
  closer_step-keeps CloserEvent.go (Closer.marking b) c q = k.on_closed c q
  closer_step-keeps _ _ c q = tt

  spawn-keeps :
      (d : Dispatcher) (s : Closer) (n : ℕ) (w : World)
      → Q w.conn
      → Holds (λ u. Q u.conn) (spawn d s n w)
  unfolding spawn
  spawn-keeps Dispatcher.spawning Closer.resting n w q = q
  spawn-keeps _ _ n w q = tt

  pub step-keeps : (a : Action) (w : World) → Q w.conn → Holds (λ u. Q u.conn) (step a w)
  unfolding step
  step-keeps (Action.sends i ev) w q =
      Holds-bind After _ (sender_step ev (w.senders i) w.conn) _
        (sender_step-keeps ev (w.senders i) w.conn q) (λ r h. h)
  step-keeps (Action.reads ev) w q =
      Holds-bind After _ (reader_step ev w.reader w.conn) _ (reader_step-keeps ev w.reader w.conn q)
        (λ r h. h)
  step-keeps Action.dispatches w q =
      Holds-bind After _ (dispatcher_step w.dispatcher w.conn) _
        (dispatcher_step-keeps w.dispatcher w.conn q) (λ r h. h)
  step-keeps (Action.spawns n) w q = spawn-keeps w.dispatcher (w.closers n) n w q
  step-keeps (Action.closes i ev) w q =
      Holds-bind After _ (closer_step ev (w.closers i) w.conn) _
        (closer_step-keeps ev (w.closers i) w.conn q) (λ r h. h)

  pub Reach-keeps : {w u : World} → Reach w u → Q w.conn → Q u.conn
  Reach-keeps here q = q
  Reach-keeps (next {t} a r e) q =
      subst (Holds (λ u. Q u.conn)) e (step-keeps a t (Reach-keeps r q))
