-- ===== src/Transport/World/Matching.antt =====
-- internal/transport/conn.go: which response a call gets.
use goadstc.Base.{ℕ, ◌≡◌, ◌≢◌, Bool, inl, inr, ◌==◌, Bool-cases}
use goadstc.Go.{ok}
use goadstc.Ams.Packet.{Packet}
use mathlib.Core.Path.{subst}
use goadstc.Transport.Conn.{Conn, set_at}
use goadstc.Transport.Threads.{
  Sender, Dispatcher, Closer, sender_step, reader_step, dispatcher_step, closer_step,
}
use goadstc.Transport.World.{World, dial, Action, step, spawn, Reach, here, next}
use goadstc.Transport.World.Owners.{
  Holds, Owner, ConnOk, SenderOk, ReaderOk, DispatcherOk, Extends, SenderOk-Extends,
  DispatcherOk-Extends,
}
use goadstc.Transport.World.Blocks.{Holds-bind}
use goadstc.Transport.World.Steps.{
  sender_step-Leaves, reader_step-Leaves, dispatcher_step-Leaves, closer_step-Leaves,
}

record WorldOk (o : Owner) (w : World) : Type 0 where
  conn : ConnOk o w.conn
  senders : (i : ℕ) → SenderOk o w.conn.next_channel (w.senders i)
  reader : ReaderOk w.reader
  dispatcher : DispatcherOk o w.conn.next_channel w.dispatcher

abbrev Fine : World → Type 0
Fine w = (o : Owner) × WorldOk o w

module _ (o : Owner) (w : World) (k : WorldOk o w) where
  -- A new connection whose channels extend those of the old one.
  grown :
      (o' : Owner) (c' : Conn)
      → ConnOk o' c'
      → Extends o w.conn.next_channel o' c'.next_channel
      → WorldOk o' (record w { conn = c' })
  grown o' c' kc x = record {
    conn = kc;
    senders = λ i. SenderOk-Extends o o' _ _ (w.senders i) x (k.senders i);
    reader = k.reader;
    dispatcher = DispatcherOk-Extends o o' _ _ w.dispatcher x k.dispatcher;
  }

set_at-SenderOk :
    (o : Owner) (n : ℕ) (f : ℕ → Sender) (i : ℕ) (s : Sender)
    → ((j : ℕ) → SenderOk o n (f j))
    → SenderOk o n s
    → (j : ℕ) → SenderOk o n (set_at f i s j)
set_at-SenderOk o n f i s all h j = elim (Bool-cases (j == i)) [
  | inl q ↦ rw q h
  | inr q ↦ rw q (all j)
]

spawn-Fine : (d : Dispatcher) (s : Closer) (n : ℕ) (w : World) → Fine w → Holds Fine (spawn d s n w)
unfolding spawn
spawn-Fine Dispatcher.spawning Closer.resting n w (o, k) =
    (o, record { conn = k.conn; senders = k.senders; reader = k.reader; dispatcher = tt })
spawn-Fine _ _ n w h = tt

-- No step of any thread spoils the matching.
step-Fine : (a : Action) (w : World) → Fine w → Holds Fine (step a w)
unfolding step
step-Fine (Action.sends i ev) w (o, k) =
    Holds-bind _ _ (sender_step ev (w.senders i) w.conn) _
      (sender_step-Leaves o w.conn k.conn ev (w.senders i) (k.senders i))
      (λ r l.
        let g = grown o w k l.0 r.1 l.1 l.3 in
        (
          l.0,
          record {
            conn = g.conn;
            senders = set_at-SenderOk l.0 r.1.next_channel w.senders i r.0 g.senders l.2;
            reader = g.reader;
            dispatcher = g.dispatcher;
          },
        ))
step-Fine (Action.reads ev) w (o, k) =
    Holds-bind _ _ (reader_step ev w.reader w.conn) _
      (reader_step-Leaves o w.conn k.conn ev w.reader k.reader)
      (λ r l.
        let g = grown o w k l.0 r.1 l.1 l.3 in
        (
          l.0,
          record { conn = g.conn; senders = g.senders; reader = l.2; dispatcher = g.dispatcher },
        ))
step-Fine Action.dispatches w (o, k) =
    Holds-bind _ _ (dispatcher_step w.dispatcher w.conn) _
      (dispatcher_step-Leaves o w.conn k.conn w.dispatcher k.dispatcher)
      (λ r l.
        let g = grown o w k l.0 r.1 l.1 l.3 in
        (l.0, record { conn = g.conn; senders = g.senders; reader = g.reader; dispatcher = l.2 }))
step-Fine (Action.spawns n) w h = spawn-Fine w.dispatcher (w.closers n) n w h
step-Fine (Action.closes i ev) w (o, k) =
    Holds-bind _ _ (closer_step ev (w.closers i) w.conn) _
      (closer_step-Leaves o w.conn k.conn ev (w.closers i))
      (λ r l.
        let g = grown o w k l.0 r.1 l.1 l.3 in
        (
          l.0,
          record {
            conn = g.conn;
            senders = g.senders;
            reader = g.reader;
            dispatcher = g.dispatcher;
          },
        ))

Reach-Fine : {b : Bool} {w : World} → Reach (dial b) w → Fine w
Reach-Fine here = (
  λ ch. 0,
  record {
    conn = record { pending = tt; buffers = λ ch p e. cc; responses = tt };
    senders = λ i. tt;
    reader = tt;
    dispatcher = tt;
  },
)
Reach-Fine (next {t} a r e) = subst (Holds Fine) e (step-Fine a t (Reach-Fine r))

-- However the calls, the loops and the closers of a connection interleave, and whatever the network
-- delivers, a packet that a call of SendRequest returns has the invoke id of the request of that
-- call, and is no notification.
pub answer-request :
    (has_timeout : Bool) (w : World) (i : ℕ) (req p : Packet)
    → Reach (dial has_timeout) w
    → w.senders i ≡ Sender.done req (ok p)
    → (p.header.invoke_id ≡ req.header.invoke_id) × (p.header.command_id ≢ 8)
answer-request b w i req p r e =
    let (o, k) = Reach-Fine r in subst (SenderOk o w.conn.next_channel) e (k.senders i)
