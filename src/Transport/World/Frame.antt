-- ===== src/Transport/World/Frame.antt =====
-- internal/transport/conn.go: the state, the shutdown, the queue and the map beside other blocks.
use goadstc.Base.{
  ℕ, ◌≡◌, refl, sym, true, none, List, [], ◌∷◌, inl, inr, Option-cases, arith, ltb, length,
}
use goadstc.Go.{Result, ok, err, panic}
use goadstc.Ams.Packet.{Packet}
use goadstc.Transport.Conn.{
  PendingResponse, disconnecting, closed, set_error, Error, Blocked, Conn, register, unregister,
  deliver, receive, clear_pending, send_response, receive_response, close_responses, close_channels,
}
use goadstc.Transport.World.Owners.{Holds}
use mathlib.Core.Path.{subst}
use goadstc.Transport.World.Blocks.{Holds-bind, Holds-imply}
use goadstc.Transport.World.Steps.{Holds-if}
use goadstc.Transport.World.Kept.{IsKept}

-- What most blocks leave alone.
abbrev pub Frame : Conn → Conn → Type 0
Frame c c' =
    (c'.state ≡ c.state)
    × (c'.shutdown ≡ c.shutdown)
    × (c'.responses_closed ≡ c.responses_closed)
    × (c.pending ≡ none → c'.pending ≡ none)

same-Frame : (c : Conn) → Frame c c
same-Frame c = (refl, refl, refl, λ p. p)

module _ (c : Conn) where
  register-Frame : (id : ℕ) → Holds (λ r. Frame c r.1) (register id c)
  unfolding register
  register-Frame id = elim (Option-cases c.pending) [
    | inl e ↦ rw (e, register) tt
    | inr (m, e) ↦ rw (e, register) (refl, refl, refl, λ p. cc)
  ]

  unregister-Frame : (id : ℕ) → Frame c (unregister id c)
  unfolding unregister
  unregister-Frame id = elim (Option-cases c.pending) [
    | inl e ↦ subst (Frame c) {x = c} {y = unregister id c} (ground arith) (same-Frame c)
    | inr (m, e) ↦ rw (e, unregister) (refl, refl, refl, λ p. cc)
  ]

  receive-Frame : (ch : ℕ) → Holds (λ r. Frame c r.1) (receive ch c)
  unfolding receive
  receive-Frame ch = elim (Option-cases (c.channels ch).buffer) [
    | inl e ↦ rw (e, receive) (Holds-if _ (c.channels ch).is_closed _ _ (same-Frame c) tt)
    | inr (p, e) ↦ rw (e, receive) (refl, refl, refl, λ p. p)
  ]

  deliver-Frame : (ch : ℕ) (p : Packet) → Holds (Frame c) (deliver ch p c)
  unfolding deliver
  deliver-Frame ch p =
      Holds-if _ (c.channels ch).is_closed _ _ tt (elim (Option-cases (c.channels ch).buffer) [
        | inl e ↦ rw e (refl, refl, refl, λ p. p)
        | inr (p', e) ↦ rw e (same-Frame c)
      ])

  clear_pending-Frame : Holds (Frame c) (clear_pending c)
  unfolding clear_pending
  clear_pending-Frame = elim (Option-cases c.pending) [
    | inl e ↦
        let same : clear_pending c ≡ ok c = ground arith in
        subst (Holds (Frame c)) (sym same) (same-Frame c)
    | inr (m, e) ↦
        rw (e, clear_pending)
          (Holds-bind (λ cs. Unit {0}) _ (close_channels m c.channels) _
            (any (close_channels m c.channels)) (λ cs h. (refl, refl, refl, λ p. refl)))
  ]
    where
      any : {A : Type 0} (r : Result Blocked A) → Holds (λ a. Unit {0}) r
      any (ok a) = tt
      any (err e) = tt
      any panic = tt

  send_response-Frame : (r : PendingResponse) → Holds (Frame c) (send_response r c)
  unfolding send_response
  send_response-Frame r =
      Holds-if _ c.responses_closed _ _ tt
        (Holds-if _ (ltb (length c.responses) 16) _ _ (refl, refl, refl, λ p. p) tt)

  receive_response-Frame : Holds (λ r. Frame c r.1) (receive_response c)
  unfolding receive_response
  receive_response-Frame = by_queue c.responses refl
    where
      by_queue :
          (rs : List PendingResponse)
          → c.responses ≡ rs
          → Holds (λ r. Frame c r.1) (receive_response c)
      by_queue [] e = rw (e, receive_response) (Holds-if _ c.responses_closed _ _ (same-Frame c) tt)
      by_queue (r ∷ rs) e = rw (e, receive_response) (refl, refl, refl, λ p. p)

-- A property that the frame carries over is kept if the other blocks keep it.
module _ (Q : Conn → Type 0) (carry : (c c' : Conn) → Frame c c' → Q c → Q c')
    (on_error : (e : Error) (c : Conn) → Q c → Q (set_error e c))
    (on_close : (c : Conn) → Q c → Q (record c { responses_closed = true }))
    (on_state : (c : Conn)
      → Q c
      → Q (record c { state = disconnecting }) × Q (record c { state = closed }))
    (on_shutdown : (c : Conn) → Q c → Q (record c { shutdown = true })) where
  pub Frame-IsKept : IsKept Q
  unfolding close_responses
  Frame-IsKept = record {
    on_error = on_error;
    on_register = λ id c q.
        Holds-imply (λ r. Frame c r.1) (λ r. Q r.1) (register id c) (register-Frame c id)
          (λ r f. carry c r.1 f q);
    on_unregister = λ id c q. carry c (unregister id c) (unregister-Frame c id) q;
    on_receive = λ ch c q.
        Holds-imply (λ r. Frame c r.1) (λ r. Q r.1) (receive ch c) (receive-Frame c ch)
          (λ r f. carry c r.1 f q);
    on_deliver = λ ch p c q.
        Holds-imply (Frame c) Q (deliver ch p c) (deliver-Frame c ch p) (λ c' f. carry c c' f q);
    on_clear = λ c q.
        Holds-imply (Frame c) Q (clear_pending c) (clear_pending-Frame c) (λ c' f. carry c c' f q);
    on_send = λ r c q.
        Holds-imply (Frame c) Q (send_response r c) (send_response-Frame c r)
          (λ c' f. carry c c' f q);
    on_take = λ c q.
        Holds-imply (λ r. Frame c r.1) (λ r. Q r.1) (receive_response c) (receive_response-Frame c)
          (λ r f. carry c r.1 f q);
    on_close = λ c q. closing c q;
    on_notify = λ ps c q. carry c (record c { notified = ps }) (refl, refl, refl, λ p. p) q;
    on_disconnect = λ c q. (on_state c q).0;
    on_shutdown = on_shutdown;
    on_net_close = λ c q. carry c (record c { net_closed = true }) (refl, refl, refl, λ p. p) q;
    on_closed = λ c q. (on_state c q).1;
  }
    where
      closing : (c : Conn) → Q c → Holds Q (close_responses c)
      closing c q = Holds-if Q c.responses_closed _ _ tt (on_close c q)
