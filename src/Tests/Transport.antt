-- ===== src/Tests/Transport.antt =====
-- Runs of internal/transport on concrete schedules.
use goadstc.Base.{some, ◌≡◌, ◌≢◌, refl, true, false, none, List, [], ◌∷◌}
use goadstc.Go.{ok, err, panic, exact}
use goadstc.Ams.Packet.{Packet, new_request_packet}
use goadstc.Tests.Frames.{plc, pc}
use goadstc.Transport.Conn
use goadstc.Transport.Conn.{connected, Error, ConnectionState}
use goadstc.Transport.Threads.{
  Sender, SenderEvent, sender_step, ReaderEvent, reader_step, dispatch, take_response,
  dispatcher_step, Closer, CloserEvent, received,
}
use goadstc.Transport.World.{World, dial, Action, step, Reach, here}
use goadstc.Transport.World.Matching.{answer-request}
use goadstc.Transport.World.Shutdown.{shutdown_is_final}
use goadstc.Transport.World.Calls.{late_call_fails}
use goadstc.Transport.World.Races.{run, run-Reach, register_race, second_close, close_race}

abbrev request : Packet
request = new_request_packet plc 851 pc 32905 2 7 (exact (1 ∷ []))

-- A call, and the response to it, which comes with the next packet.
abbrev round_trip : List Action
round_trip =
    Action.sends 0 (SenderEvent.start request)
    ∷ Action.sends 0 SenderEvent.go
    ∷ Action.sends 0 SenderEvent.go
    ∷ Action.sends 0 SenderEvent.go
    ∷ Action.reads ReaderEvent.go
    ∷ Action.reads ReaderEvent.go
    ∷ Action.reads (ReaderEvent.reads request)
    ∷ Action.reads ReaderEvent.go
    ∷ Action.dispatches
    ∷ Action.dispatches
    ∷ Action.sends 0 SenderEvent.go
    ∷ Action.sends 0 SenderEvent.go
    ∷ []

-- Where a run ends; one that panics or blocks is taken back to its start.
end_of : List Action → World → World
unfolding run
end_of rest w = elim (run rest w) [ ok u ↦ u | _ ↦ w ]

answered : World
unfolding end_of
answered = end_of round_trip (dial true)

answered-run : run round_trip (dial true) ≡ ok answered
unfolding answered step sender_step reader_step dispatcher_step take_response dispatch received
    Conn.register Conn.unregister Conn.put_pending Conn.delete_pending Conn.find_pending Conn.lookup
    Conn.deliver Conn.receive Conn.send_response Conn.receive_response new_request_packet
answered-run = refl

answered-sender : answered.senders 0 ≡ Sender.done request (ok request)
unfolding answered step sender_step reader_step dispatcher_step take_response dispatch received
    Conn.register Conn.unregister Conn.put_pending Conn.delete_pending Conn.find_pending Conn.lookup
    Conn.deliver Conn.receive Conn.send_response Conn.receive_response new_request_packet
answered-sender = refl

answer-request_example :
    (request.header.invoke_id ≡ request.header.invoke_id) × (request.header.command_id ≢ 8)
answer-request_example =
    answer-request true answered 0 request request (run-Reach round_trip here answered-run)
      answered-sender

abbrev closing : World
closing = record {
  conn = record (Conn.dialed true) { state = ConnectionState.disconnecting; shutdown = true };
  senders = (dial true).senders;
  closers = λ k. Closer.returned false;
  reader = (dial true).reader;
  dispatcher = (dial true).dispatcher;
}

-- A call that begins on the connection that shuts down.
late :
    (w : World) × Reach closing w
    × (w.senders 3 ≡ Sender.done request (err (Error.not_connected ConnectionState.disconnecting)))
unfolding run step sender_step
late = (
  _,
  run-Reach (Action.sends 3 (SenderEvent.start request) ∷ Action.sends 3 SenderEvent.go ∷ []) here
      refl,
  refl,
)

shutdown_is_final_example :
    (closing.conn.state ≢ connected → late.0.conn.state ≢ connected)
    × (closing.conn.pending ≡ none → late.0.conn.pending ≡ none)
    × (closing.conn.shutdown ≡ true → late.0.conn.shutdown ≡ true)
    × (closing.conn.responses_closed ≡ true → late.0.conn.responses_closed ≡ true)
shutdown_is_final_example = shutdown_is_final late.1

closing_left : closing.conn.state ≢ connected
closing_left = λ p. cc

late_call_fails_example :
    (late.0.senders 3 ≢ Sender.done request (ok request))
    × (late.0.senders 3 ≢ Sender.registering request)
late_call_fails_example = late_call_fails 3 closing late.0 request request late.1 closing_left refl

register_race_example :
    (w : World) × Reach (dial true) w
    × (w.senders 0 ≡ Sender.registering request)
    × (step (Action.sends 0 SenderEvent.go) w ≡ panic)
register_race_example = register_race true request

close_race_example :
    (t : World) × (u : World) × (w : World) × Reach (dial true) t
    × (t.closers 0 ≡ Closer.returned false)
    × (t.closers 1 ≡ Closer.resting)
    × (t.conn.state ≡ ConnectionState.closed)
    × (t.senders 0 ≡ Sender.writing request 0)
    × (step (Action.sends 0 (SenderEvent.write_fails (Error.io 32))) t ≡ ok u)
    × (u.conn.state ≡ ConnectionState.error)
    × (u.conn.last_error ≡ some (Error.io 32))
    × (run second_close u ≡ ok w)
    × (step (Action.closes 1 CloserEvent.go) w ≡ panic)
close_race_example = close_race true request (Error.io 32)
