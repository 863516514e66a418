-- ===== src/Transport/World/Calls.antt =====
-- internal/transport/conn.go: calls that begin late.
use goadstc.Base.{ℕ, ◌≡◌, ◌≢◌, refl, sym, ap, inl, inr, ◌==◌, if◌then◌else◌, Bool-cases, ==_iff}
use goadstc.Go.{Result, ok, err, panic, ◌>>=◌}
use goadstc.Ams.Packet.{Packet}
use mathlib.Core.Path.{subst}
use goadstc.Transport.Conn.{connected, is_connected, ConnectionState, Blocked, Conn}
use goadstc.Transport.Threads
use goadstc.Transport.Threads.{
  Sender, SenderEvent, sender_step, CloserEvent, Dispatcher, Closer, reader_step, dispatcher_step,
  closer_step,
}
use goadstc.Transport.World.{World, Action, step, spawn, Reach, here, next}
use goadstc.Transport.World.Owners.{Holds}
use goadstc.Transport.World.Blocks.{Holds-bind}
use goadstc.Transport.World.Kept.{step-keeps}
use goadstc.Transport.World.Shutdown.{Left, Left-IsKept}

-- A call that has not begun, is about to read the state, or has failed.
abbrev Fruitless : Sender → Type 0
Fruitless Sender.idle = Unit
Fruitless (Sender.checking req) = Unit
Fruitless (Sender.done req (err e)) = Unit
Fruitless _ = ⊥

sender_step-Fruitless :
    (ev : SenderEvent) (s : Sender) (c : Conn)
    → Left c
    → Fruitless s
    → Holds (λ r. Fruitless r.0) (sender_step ev s c)
unfolding sender_step
sender_step-Fruitless (SenderEvent.start req) Sender.idle c q h = tt
sender_step-Fruitless SenderEvent.go (Sender.checking req) c q h = by_state c.state refl
  where
    by_state :
        (s : ConnectionState)
        → c.state ≡ s
        → Holds {A = Sender × Conn}
            (λ r. Fruitless r.0)
            (if is_connected c.state
              then ok (Sender.registering req, c)
              else ok (Sender.done req (err (Threads.refused c)), c))
    by_state ConnectionState.connected e = absurd (q e)
    by_state ConnectionState.connecting e = rw e tt
    by_state ConnectionState.disconnecting e = rw e tt
    by_state ConnectionState.closed e = rw e tt
    by_state ConnectionState.error e = rw e tt
sender_step-Fruitless ev (Sender.registering req) c q h = absurd h
sender_step-Fruitless ev (Sender.writing req ch) c q h = absurd h
sender_step-Fruitless ev (Sender.waiting req ch) c q h = absurd h
sender_step-Fruitless ev (Sender.leaving req a) c q h = absurd h
sender_step-Fruitless _ s c q h = tt

module _ (i : ℕ) where
  abbrev Late : World → Type 0
  Late w = Left w.conn × Fruitless (w.senders i)

  others :
      {S : Type 0} (r : Result Blocked S) (f : S → World) (w : World)
      → ((a : S) → (f a).senders i ≡ w.senders i)
      → Fruitless (w.senders i)
      → Holds (λ u. Fruitless (u.senders i)) (r >>= λ a. ok (f a))
  others (ok a) f w e h = subst Fruitless (sym (e a)) h
  others (err e) f w k h = tt
  others panic f w k h = tt

  spawn-Fruitless :
      (d : Dispatcher) (s : Closer) (n : ℕ) (w : World)
      → Fruitless (w.senders i)
      → Holds (λ u. Fruitless (u.senders i)) (spawn d s n w)
  unfolding spawn
  spawn-Fruitless Dispatcher.spawning Closer.resting n w h = h
  spawn-Fruitless _ _ n w h = tt

  step-Fruitless :
      (a : Action) (w : World) → Late w → Holds (λ u. Fruitless (u.senders i)) (step a w)
  unfolding step
  step-Fruitless (Action.sends j ev) w (q, h) = elim (Bool-cases (i == j)) [
    | inl same ↦
        let e : w.senders j ≡ w.senders i = ap w.senders (sym ((==_iff i j).0 same)) in
        Holds-bind (λ r. Fruitless r.0) _ (sender_step ev (w.senders j) w.conn) _
          (sender_step-Fruitless ev (w.senders j) w.conn q (subst Fruitless (sym e) h))
          (λ r f. rw same f)
    | inr other ↦ others (sender_step ev (w.senders j) w.conn) _ w (λ r. rw other refl) h
  ]
  step-Fruitless (Action.reads ev) w (q, h) =
      others (reader_step ev w.reader w.conn) _ w (λ r. refl) h
  step-Fruitless Action.dispatches w (q, h) =
      others (dispatcher_step w.dispatcher w.conn) _ w (λ r. refl) h
  step-Fruitless (Action.spawns n) w (q, h) = spawn-Fruitless w.dispatcher (w.closers n) n w h
  step-Fruitless (Action.closes n ev) w (q, h) =
      others (closer_step ev (w.closers n) w.conn) _ w (λ r. refl) h

  Reach-Late : {w u : World} → Reach w u → Late w → Late u
  Reach-Late here l = l
  Reach-Late (next {t} {u} a r e) l =
      let l' = Reach-Late r l in
      (
        subst (Holds (λ u. Left u.conn)) e (step-keeps Left Left-IsKept a t l'.0),
        subst (Holds (λ u. Fruitless (u.senders i))) e (step-Fruitless a t l'),
      )

-- A call of SendRequest that begins when the connection is not connected any more never returns a
-- packet, and never gets as far as the map of pending calls.
pub late_call_fails :
    (i : ℕ) (w u : World) (req p : Packet)
    → Reach w u
    → w.conn.state ≢ connected
    → w.senders i ≡ Sender.idle
    → (u.senders i ≢ Sender.done req (ok p)) × (u.senders i ≢ Sender.registering req)
late_call_fails i w u req p r q e =
    let l = Reach-Late i r (q, subst Fruitless (sym e) tt) in
    (λ d. subst Fruitless d l.1, λ d. subst Fruitless d l.1)
