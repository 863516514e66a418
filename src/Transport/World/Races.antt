-- ===== src/Transport/World/Races.antt =====
-- internal/transport/conn.go: schedules of calls and closers.
use goadstc.Base.{ℕ, ◌≡◌, refl, inl, inr, some, Bool, false, List, [], ◌∷◌, ◌++◌, arith}
use goadstc.Go.{Result, ok, panic, ◌>>=◌, Result-cases}
use goadstc.Ams.Packet.{Packet}
use mathlib.Core.Path.{subst}
use goadstc.Transport.Conn
use goadstc.Transport.Conn.{Blocked, Error, ConnectionState}
use goadstc.Transport.Threads.{Sender, SenderEvent, sender_step, Closer, CloserEvent, closer_step}
use goadstc.Transport.World.{World, dial, Action, step, Reach, here, next}

-- The actions of a schedule, one after another.
unfoldable pub run : List Action → World → Result Blocked World
run [] w = ok w
run (a ∷ rest) w = do u ← step a w; run rest u

pub run-Reach : (rest : List Action) {w t u : World} → Reach w t → run rest t ≡ ok u → Reach w u
unfolding run
run-Reach [] {w} {t} {u} r e = subst (Reach w) {x = t} {y = u} (ground arith) r
run-Reach (a ∷ rest) {w} {t} {u} r e = elim (Result-cases (step a t)) [
  | inl (t', p) ↦ run-Reach rest (next a r p) (rw p at e)
  | inr (inl (x, p)) ↦ absurd (cc (rw p at e))
  | inr (inr p) ↦ absurd (cc (rw p at e))
]

abbrev starts_call : Packet → List Action
starts_call req = Action.sends 0 (SenderEvent.start req) ∷ Action.sends 0 SenderEvent.go ∷ []

-- The first steps of closer `n`, to the signal of the shutdown, from a state that is connected.
abbrev pub cancels : ℕ → List Action
cancels n =
    Action.closes n CloserEvent.call
    ∷ Action.closes n CloserEvent.go
    ∷ Action.closes n CloserEvent.go
    ∷ []

-- The clearing of the map, the end of the wait, and the closing of the network connection.
abbrev clears : ℕ → List Action
clears n =
    Action.closes n CloserEvent.clear
    ∷ Action.closes n CloserEvent.go
    ∷ Action.closes n CloserEvent.go
    ∷ []

abbrev finishes : ℕ → List Action
finishes n = Action.closes n CloserEvent.go ∷ Action.closes n CloserEvent.go ∷ []

-- For every request there is a run in which a call has read the state as connected, Close then
-- clears the map of pending calls, and the call panics when it writes to the map.
pub register_race :
    (has_timeout : Bool) (req : Packet)
    → (w : World) × Reach (dial has_timeout) w
      × (w.senders 0 ≡ Sender.registering req)
      × (step (Action.sends 0 SenderEvent.go) w ≡ panic)
unfolding run step sender_step closer_step Conn.register Conn.put_pending Conn.clear_pending
    Conn.close_channels Conn.close_channel Conn.close_responses
register_race has_timeout req = (
  _,
  run-Reach (starts_call req ++ (cancels 0 ++ (Action.closes 0 CloserEvent.clear ∷ []))) here refl,
  refl,
  refl,
)

-- A whole first Close of a connected connection, by closer 0.
abbrev first_close : List Action
first_close = cancels 0 ++ (clears 0 ++ finishes 0)

-- Closer 1 from its call on to the closing of the queue, from the error state: starting, loading,
-- storing, cancelling, the clearing of the map, the wait, and the network connection.
abbrev pub second_close : List Action
second_close = cancels 1 ++ (finishes 1 ++ clears 1)

-- For every request and every error of the network there is a run in which Close has returned and
-- left the closed state, with a call of that request at its write; the write fails with the error,
-- which turns the closed state into the error state; and a second Close that begins after it, and
-- whose steps alone follow, panics when it closes the queue of responses again.
pub close_race :
    (has_timeout : Bool) (req : Packet) (e : Error)
    → (t : World) × (u : World) × (w : World) × Reach (dial has_timeout) t
      × (t.closers 0 ≡ Closer.returned false)
      × (t.closers 1 ≡ Closer.resting)
      × (t.conn.state ≡ ConnectionState.closed)
      × (t.senders 0 ≡ Sender.writing req 0)
      × (step (Action.sends 0 (SenderEvent.write_fails e)) t ≡ ok u)
      × (u.conn.state ≡ ConnectionState.error)
      × (u.conn.last_error ≡ some e)
      × (run second_close u ≡ ok w)
      × (step (Action.closes 1 CloserEvent.go) w ≡ panic)
unfolding run step sender_step closer_step Conn.register Conn.put_pending Conn.clear_pending
    Conn.close_channels Conn.close_channel Conn.close_responses
close_race has_timeout req e = (
  _,
  _,
  _,
  run-Reach (starts_call req ++ (Action.sends 0 SenderEvent.go ∷ first_close)) here refl,
  refl,
  refl,
  refl,
  refl,
  refl,
  refl,
  refl,
  refl,
  refl,
)
