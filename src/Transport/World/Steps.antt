-- ===== src/Transport/World/Steps.antt =====
-- internal/transport/conn.go: the steps of the threads and the owners of the channels.
use mathlib.Core.Path.{subst}
use goadstc.Base.{
  ℕ, ◌≡◌, refl, sym, ◌∙◌, Bool, true, false, inl, inr, Option, none, some, List, arith, ◌==◌,
  if◌then◌else◌, Bool-cases, Option-cases, ==_iff,
}
use goadstc.Go.{Result, ok, err, panic}
use goadstc.Ams.Packet.{Packet}
use goadstc.Transport.Conn.{
  ConnectionState, Error, write_deadline, write_failed, context_done, connection_closed,
  request_timeout, read_deadline, read_failed, PendingResponse, failure, response, Blocked, Conn,
  is_connected, set_error, register, lookup, deliver, receive, clear_pending, send_response,
  receive_response, close_responses,
}
use goadstc.Transport.Threads.{
  Sender, Reader, Dispatcher, Closer, SenderEvent, sender_step, ReaderEvent, reader_step,
  dispatcher_step, CloserEvent, closer_step,
}
use goadstc.Transport.Threads
use goadstc.Transport.World.Owners.{
  Holds, Answers, ResponseOk, Owner, ConnOk, SenderOk, ReaderOk, DispatcherOk, Extends,
}
use goadstc.Transport.World.Blocks.{
  Leaves, Extends-refl, register-Leaves, receive-Leaves, deliver-Leaves, unregister-Leaves,
  send_response-Leaves, receive_response-Leaves, lookup-Leaves, clear_pending-Leaves, Holds-bind,
}

pub Holds-if :
    {A : Type 0} (P : A → Type 0) (b : Bool) (x y : Result Blocked A)
    → Holds P x
    → Holds P y
    → Holds P (if b then x else y)
Holds-if P true x y h g = h
Holds-if P false x y h g = g

pub either : {A : Type 0} (P : A → Type 0) (b : Bool) (x y : A) → P x → P y → P (if b then x else y)
either P true x y h g = h
either P false x y h g = g

received-SenderOk :
    (o : Owner) (n : ℕ) (req : Packet) (r : Option Packet) (c : Conn)
    → ((p : Packet) → r ≡ some p → Answers req.header.invoke_id p)
    → SenderOk o n (Sender.leaving req (Threads.received r c))
unfolding Threads.received
received-SenderOk o n req (some p) c h = h p refl
received-SenderOk o n req none c h = by_error c.last_error refl
  where
    by_error :
        (e : Option Error)
        → c.last_error ≡ e
        → SenderOk o n (Sender.leaving req (Threads.received none c))
    by_error none q = rw q tt
    by_error (some e) q = rw q tt

left-SenderOk :
    (o : Owner) (n : ℕ) (req : Packet) (a : Threads.Answer)
    → SenderOk o n (Sender.leaving req a)
    → SenderOk o n (Sender.done req a)
left-SenderOk o n req (ok p) h = h
left-SenderOk o n req (err e) h = tt
left-SenderOk o n req panic h = tt

module _ (o : Owner) (c : Conn) (k : ConnOk o c) where
  -- A block that changes no channel, map or queue.
  status :
      (st : ConnectionState) (le : Option Error) (sd nc rc : Bool) (nf : List Packet)
      → ConnOk o (record c {
        state = st;
        last_error = le;
        shutdown = sd;
        net_closed = nc;
        responses_closed = rc;
        notified = nf;
      })
  status st le sd nc rc nf = record {
    pending = k.pending;
    buffers = k.buffers;
    responses = k.responses;
  }

  failed : (e : Error) → ConnOk o (set_error e c)
  failed e = status _ _ _ _ _ _

  leaves :
      {S : Type 0} (P : Owner → ℕ → S → Type 0) (s : S) (c' : Conn)
      → ConnOk o c'
      → c'.next_channel ≡ c.next_channel
      → P o c.next_channel s
      → Leaves P o c (s, c')
  leaves P s c' k' e p = (
    o,
    k',
    subst (λ n. P o n s) (sym e) p,
    subst (λ n. Extends o c.next_channel o n) (sym e) (Extends-refl o c.next_channel),
  )

  stays : (s : Sender) → SenderOk o c.next_channel s → Leaves SenderOk o c (s, c)
  stays s h = leaves SenderOk s c k refl h

  pub sender_step-Leaves :
      (ev : SenderEvent) (s : Sender)
      → SenderOk o c.next_channel s
      → Holds (Leaves SenderOk o c) (sender_step ev s c)
  unfolding sender_step
  sender_step-Leaves (SenderEvent.start req) Sender.idle h = stays (Sender.checking req) tt
  sender_step-Leaves SenderEvent.go (Sender.checking req) h =
      Holds-if _ (is_connected c.state) _ _ (stays (Sender.registering req) tt)
        (stays (Sender.done req (err (Threads.refused c))) tt)
  sender_step-Leaves SenderEvent.go (Sender.registering req) h =
      Holds-bind _ _ (register req.header.invoke_id c) _ (register-Leaves o c k req) (λ r m. m)
  sender_step-Leaves (SenderEvent.deadline_fails e) (Sender.writing req ch) h =
      Holds-if _ c.has_timeout _ _
        (leaves SenderOk (Sender.leaving req (err (write_deadline e))) (set_error e c) (failed e)
          refl tt)
        tt
  sender_step-Leaves (SenderEvent.write_fails e) (Sender.writing req ch) h =
      leaves SenderOk (Sender.leaving req (err (write_failed e))) (set_error e c) (failed e) refl tt
  sender_step-Leaves SenderEvent.go (Sender.writing req ch) h = stays (Sender.waiting req ch) h
  sender_step-Leaves SenderEvent.go (Sender.waiting req ch) h =
      Holds-bind _ _ (receive ch c) _ (receive-Leaves o c k ch) (λ r m.
        leaves SenderOk (Sender.leaving req (Threads.received r.0 r.1)) r.1 m.0 m.1 (
          received-SenderOk o c.next_channel req r.0 r.1
            (λ p e. subst (λ i. Answers i p) h.0 (m.2 p e))))
  sender_step-Leaves SenderEvent.context_ends (Sender.waiting req ch) h =
      stays (Sender.leaving req (err context_done)) tt
  sender_step-Leaves SenderEvent.sees_shutdown (Sender.waiting req ch) h =
      Holds-if _ c.shutdown _ _ (stays (Sender.leaving req (err connection_closed)) tt) tt
  sender_step-Leaves SenderEvent.timer (Sender.waiting req ch) h =
      stays (Sender.leaving req (err request_timeout)) tt
  sender_step-Leaves SenderEvent.go (Sender.leaving req a) h =
      let (k', e) = unregister-Leaves o c k req.header.invoke_id in
      leaves SenderOk (Sender.done req a) _ k' e (left-SenderOk o c.next_channel req a h)
  sender_step-Leaves _ _ h = tt

abbrev pub ReaderLeaves : Owner → Conn → Reader × Conn → Type 0
ReaderLeaves = Leaves (λ o n r. ReaderOk r)

module _ (o : Owner) (c : Conn) (k : ConnOk o c) where
  reads_on : (r : Reader) → ReaderOk r → ReaderLeaves o c (r, c)
  reads_on r h = leaves o c k (λ o n r. ReaderOk r) r c k refl h

  fails : (r : Reader) (e : Error) → ReaderOk r → ReaderLeaves o c (r, set_error e c)
  fails r e h = leaves o c k (λ o n r. ReaderOk r) r (set_error e c) (failed o c k e) refl h

  exit-Leaves : ReaderLeaves o c (Threads.reader_exit c)
  unfolding Threads.reader_exit
  exit-Leaves =
      either (λ c'. ReaderLeaves o c (Reader.stopped, c')) (is_connected c.state) _ _
        (fails Reader.stopped Error.loop_ended tt) (reads_on Reader.stopped tt)

-- A step that follows a block which leaves the numbers of the channels alone.
after-Leaves :
    {S : Type 0} (P : Owner → ℕ → S → Type 0) (o : Owner) (c c' : Conn) (r : S × Conn)
    → c'.next_channel ≡ c.next_channel
    → Leaves P o c' r
    → Leaves P o c r
after-Leaves P o c c' r e l = (l.0, l.1, l.2, subst (λ n. Extends o n l.0 r.1.next_channel) e l.3)

module _ (o : Owner) (c : Conn) (k : ConnOk o c) where
  pub reader_step-Leaves :
      (ev : ReaderEvent) (r : Reader) → ReaderOk r → Holds (ReaderLeaves o c) (reader_step ev r c)
  unfolding reader_step
  reader_step-Leaves ReaderEvent.go Reader.at_top h =
      either (ReaderLeaves o c) c.shutdown _ _ (exit-Leaves o c k)
        (reads_on o c k Reader.at_state tt)
  reader_step-Leaves ReaderEvent.go Reader.at_state h =
      either (ReaderLeaves o c) (is_connected c.state) _ _ (reads_on o c k Reader.reading tt)
        (exit-Leaves o c k)
  reader_step-Leaves (ReaderEvent.deadline_fails e) Reader.reading h =
      Holds-if _ c.has_timeout _ _
        (fails o c k (Reader.sending (failure e) true) (read_deadline e) tt) tt
  reader_step-Leaves (ReaderEvent.read_fails e) Reader.reading h =
      Holds-if _ (is_connected c.state) _ _
        (fails o c k (Reader.sending (failure e) true) (read_failed e) tt) (exit-Leaves o c k)
  reader_step-Leaves (ReaderEvent.reads p) Reader.reading h =
      reads_on o c k (Reader.sending (response p.header.invoke_id p) false) refl
  reader_step-Leaves ReaderEvent.go (Reader.sending r last) h =
      Holds-bind _ _ (send_response r c) _ (send_response-Leaves o c k r h) (λ c' m.
        after-Leaves (λ o n r. ReaderOk r) o c c' _ m.1
          (either (ReaderLeaves o c') last _ _ (exit-Leaves o c' m.0)
            (reads_on o c' m.0 Reader.at_top tt)))
  reader_step-Leaves _ _ h = tt

  dispatch-Leaves :
      (id : ℕ) (p : Packet)
      → p.header.invoke_id ≡ id
      → Leaves DispatcherOk o c (Threads.dispatch id p c)
  unfolding Threads.dispatch
  dispatch-Leaves id p e = elim (Bool-cases (p.header.command_id == 8)) [
    | inl q ↦ rw q (
        either (λ c'. Leaves DispatcherOk o c (Dispatcher.receiving, c')) c.has_handler _ _
          (leaves o c k DispatcherOk Dispatcher.receiving _ (status o c k _ _ _ _ _ _) refl tt)
          (leaves o c k DispatcherOk Dispatcher.receiving c k refl tt))
    | inr q ↦ elim (Option-cases (lookup id c)) [
      | inl n ↦ rw (q, n) (leaves o c k DispatcherOk Dispatcher.receiving c k refl tt)
      | inr (ch, n) ↦
          let own = lookup-Leaves o c k id ch n in
          rw (q, n)
            (leaves o c k DispatcherOk (Dispatcher.found ch p) c k refl
              ((e ∙ sym own.0, ground (arith, ==_iff p.header.command_id 8)), own.1))
    ]
  ]

  take_response-Leaves :
      (r : Option PendingResponse)
      → ((p : PendingResponse) → r ≡ some p → ResponseOk p)
      → Leaves DispatcherOk o c (Threads.take_response r c)
  unfolding Threads.take_response
  take_response-Leaves none h = leaves o c k DispatcherOk Dispatcher.ended c k refl tt
  take_response-Leaves (some (failure e)) h =
      leaves o c k DispatcherOk Dispatcher.spawning c k refl tt
  take_response-Leaves (some (response id p)) h = dispatch-Leaves id p (h (response id p) refl)

module _ (o : Owner) (c : Conn) (k : ConnOk o c) where
  pub dispatcher_step-Leaves :
      (d : Dispatcher)
      → DispatcherOk o c.next_channel d
      → Holds (Leaves DispatcherOk o c) (dispatcher_step d c)
  unfolding dispatcher_step
  dispatcher_step-Leaves Dispatcher.receiving h =
      Holds-bind _ _ (receive_response c) _ (receive_response-Leaves o c k)
        (λ r m. after-Leaves DispatcherOk o c r.1 _ m.1 (take_response-Leaves o r.1 m.0 r.0 m.2))
  dispatcher_step-Leaves (Dispatcher.found ch p) h =
      Holds-bind _ _ (deliver ch p c) _ (deliver-Leaves o c k ch p h.0)
        (λ c' m. leaves o c k DispatcherOk Dispatcher.receiving c' m.0 m.1 tt)
  dispatcher_step-Leaves Dispatcher.spawning h = tt
  dispatcher_step-Leaves Dispatcher.ended h = tt

abbrev pub CloserLeaves : Owner → Conn → Closer × Conn → Type 0
CloserLeaves = Leaves (λ o n s. Unit {0})

module _ (o : Owner) (c : Conn) (k : ConnOk o c) where
  closes_on :
      (s : Closer) (c' : Conn)
      → ConnOk o c'
      → c'.next_channel ≡ c.next_channel
      → CloserLeaves o c (s, c')
  closes_on s c' k' e = leaves o c k (λ o n s. Unit {0}) s c' k' e tt

  pub closer_step-Leaves :
      (ev : CloserEvent) (s : Closer) → Holds (CloserLeaves o c) (closer_step ev s c)
  unfolding closer_step close_responses
  closer_step-Leaves CloserEvent.clear s =
      Holds-if _ (Threads.is_clearing s) _ _
        (Holds-bind _ _ (clear_pending c) _ (clear_pending-Leaves o c k)
          (λ c' m. closes_on (Threads.set_clearing false s) c' m.0 m.1))
        tt
  closer_step-Leaves CloserEvent.call Closer.resting = closes_on Closer.starting c k refl
  closer_step-Leaves CloserEvent.go Closer.starting =
      Holds-if _ (is_connected c.state) _ _
        (closes_on Closer.cancelling _ (status o c k _ _ _ _ _ _) refl)
        (closes_on Closer.loading c k refl)
  closer_step-Leaves CloserEvent.go Closer.loading =
      closes_on (if Threads.is_ending c.state then Closer.returned false else Closer.storing) c k
        refl
  closer_step-Leaves CloserEvent.go Closer.storing =
      closes_on Closer.cancelling _ (status o c k _ _ _ _ _ _) refl
  closer_step-Leaves CloserEvent.go Closer.cancelling =
      closes_on (Closer.awaiting true) _ (status o c k _ _ _ _ _ _) refl
  closer_step-Leaves CloserEvent.go (Closer.awaiting b) =
      Holds-if _ b _ _ tt (closes_on (Closer.closing_net b) c k refl)
  closer_step-Leaves CloserEvent.timer (Closer.awaiting b) =
      closes_on (Closer.closing_net b) _ (failed o c k _) refl
  closer_step-Leaves CloserEvent.go (Closer.closing_net b) =
      closes_on (Closer.closing_responses b) _ (status o c k _ _ _ _ _ _) refl
  closer_step-Leaves CloserEvent.go (Closer.closing_responses b) =
      Holds-bind (λ c'. ConnOk o c' × (c'.next_channel ≡ c.next_channel)) _ (close_responses c) _
        (Holds-if _ c.responses_closed _ _ tt (status o c k _ _ _ _ _ _, refl))
        (λ c' m. closes_on (Closer.marking b) c' m.0 m.1)
  closer_step-Leaves CloserEvent.go (Closer.marking b) =
      closes_on (Closer.returned b) _ (status o c k _ _ _ _ _ _) refl
  closer_step-Leaves _ _ = tt
