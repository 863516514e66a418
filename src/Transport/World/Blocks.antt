-- ===== src/Transport/World/Blocks.antt =====
-- internal/transport/conn.go: the blocks of code and the owners of the channels.
use mathlib.Core.Path.{subst}
use goadstc.Base.{
  ℕ, ◌+◌, ◌≡◌, refl, sym, ◌∙◌, true, inl, inr, Option, none, some, List, [], ◌∷◌, arith, All, ◌==◌,
  Bool-cases, Option-cases, ==_iff, ltb, length,
}
use goadstc.Go.{Result, ok, err, panic, ◌>>=◌}
use goadstc.Go.Scan.{All-append}
use goadstc.Ams.Packet.{Packet}
use goadstc.Transport.Conn.{
  Channel, PendingResponse, Blocked, blocked, Conn, new_channel, set_at, register, unregister,
  lookup, deliver, receive, close_channel, close_channels, clear_pending, send_response,
  receive_response,
}
use goadstc.Transport.World.Owners.{
  Holds, Answers, ResponseOk, Owner, EntryOk, PendingOk, ConnOk, Extends, put_pending-EntryOk,
  delete_pending-EntryOk, find_pending-EntryOk, EntryOk-Extends,
}

-- What a block of a thread leaves: owners that extend those before, and both parts well.
abbrev pub Leaves : {S : Type 0} → (Owner → ℕ → S → Type 0) → Owner → Conn → S × Conn → Type 0
Leaves P o c (s, c') =
    (o' : Owner) × ConnOk o' c'
    × P o' c'.next_channel s
    × Extends o c.next_channel o' c'.next_channel

pub Extends-refl : (o : Owner) (n : ℕ) → Extends o n o n
Extends-refl o n = (omega arith, λ ch h. refl)

module _ (o : Owner) (cs : ℕ → Channel) (ch : ℕ) (v : Channel) where
  buffers-set_at :
      ((j : ℕ) (p : Packet) → (cs j).buffer ≡ some p → Answers (o j) p)
      → ((p : Packet) → v.buffer ≡ some p → Answers (o ch) p)
      → (j : ℕ) (p : Packet) → (set_at cs ch v j).buffer ≡ some p
      → Answers (o j) p
  buffers-set_at old new j p e = elim (Bool-cases (j == ch)) [
    | inl same ↦ subst (λ i. Answers (o i) p) (sym ((==_iff j ch).0 same)) (new p (rw same at e))
    | inr other ↦ old j p (rw other at e)
  ]

-- What the queue of responses gives.
abbrev pub Popped : Owner → Conn → Option PendingResponse × Conn → Type 0
Popped o c (r, c') =
    ConnOk o c'
    × (c'.next_channel ≡ c.next_channel)
    × ((p : PendingResponse) → r ≡ some p → ResponseOk p)

buffers-owner :
    (o : Owner) (cs : ℕ → Channel) (ch id : ℕ)
    → ((j : ℕ) (p : Packet) → (cs j).buffer ≡ some p → Answers (o j) p)
    → (j : ℕ) (p : Packet) → (set_at cs ch new_channel j).buffer ≡ some p
    → Answers (set_at o ch id j) p
buffers-owner o cs ch id old j p e = elim (Bool-cases (j == ch)) [
  | inl same ↦ absurd (cc (rw same at e))
  | inr other ↦ rw other (old j p (rw other at e))
]

set_at-Extends : (o : Owner) (n id : ℕ) → Extends o n (set_at o n id) (n + 1)
set_at-Extends o n id = (omega arith, λ ch h. ground arith)

module _ (o : Owner) (c : Conn) (k : ConnOk o c) where
  pub register-Leaves :
      (req : Packet)
      → Holds
          (λ r.
            (o' : Owner) × ConnOk o' r.1
            × EntryOk o' r.1.next_channel (req.header.invoke_id, r.0)
            × Extends o c.next_channel o' r.1.next_channel)
          (register req.header.invoke_id c)
  unfolding register
  register-Leaves req = elim (Option-cases c.pending) [
    | inl e ↦ rw e tt
    | inr (m, e) ↦
        let n = c.next_channel in
        let id = req.header.invoke_id in
        let o' = set_at o n id in
        let x : Extends o n o' (n + 1) = set_at-Extends o n id in
        let owned : EntryOk o' (n + 1) (id, n) = ground arith in
        let old : All (EntryOk o n) m = subst (PendingOk o n) e k.pending in
        rw e (
          o',
          record {
            pending =
                put_pending-EntryOk o' (n + 1) id n m owned
                  (EntryOk-Extends o o' n (n + 1) m x old);
            buffers = buffers-owner o c.channels n id k.buffers;
            responses = k.responses;
          },
          owned,
          x,
        )
  ]

  pub receive-Leaves :
      (ch : ℕ)
      → Holds
          (λ r.
            ConnOk o r.1
            × (r.1.next_channel ≡ c.next_channel)
            × ((p : Packet) → r.0 ≡ some p → Answers (o ch) p))
          (receive ch c)
  unfolding receive
  receive-Leaves ch = elim (Option-cases (c.channels ch).buffer) [
    | inl e ↦ elim (Bool-cases (c.channels ch).is_closed) [
      | inl q ↦ rw (e, q, receive) (k, refl, λ p h. cc)
      | inr q ↦ rw (e, q, receive) tt
    ]
    | inr (p, e) ↦
        rw (e, receive)
          (
            record {
              pending = k.pending;
              buffers = buffers-set_at o c.channels ch _ k.buffers (λ p' h. cc);
              responses = k.responses;
            },
            refl,
            λ p' h. k.buffers ch p' (e ∙ h),
          )
  ]

  pub deliver-Leaves :
      (ch : ℕ) (p : Packet)
      → Answers (o ch) p
      → Holds (λ c'. ConnOk o c' × (c'.next_channel ≡ c.next_channel)) (deliver ch p c)
  unfolding deliver
  deliver-Leaves ch p a = elim (Bool-cases (c.channels ch).is_closed) [
    | inl q ↦ rw q tt
    | inr q ↦ elim (Option-cases (c.channels ch).buffer) [
      | inl e ↦
          rw (q, e)
            (
              record {
                pending = k.pending;
                buffers =
                    buffers-set_at o c.channels ch _ k.buffers
                      (λ p' h. subst (Answers (o ch)) {x = p} {y = p'} (ground (arith, h)) a);
                responses = k.responses;
              },
              refl,
            )
      | inr (p', e) ↦ rw (q, e) (k, refl)
    ]
  ]

  pub unregister-Leaves :
      (id : ℕ) → ConnOk o (unregister id c) × ((unregister id c).next_channel ≡ c.next_channel)
  unfolding unregister
  unregister-Leaves id = elim (Option-cases c.pending) [
    | inl e ↦
        let same : unregister id c ≡ c = ground arith in
        subst (λ c'. ConnOk o c' × (c'.next_channel ≡ c.next_channel)) (sym same) (k, refl)
    | inr (m, e) ↦ rw e (
      record {
        pending =
            delete_pending-EntryOk o c.next_channel id m
              (subst (PendingOk o c.next_channel) e k.pending);
        buffers = k.buffers;
        responses = k.responses;
      },
      refl,
    )
  ]

  pub send_response-Leaves :
      (r : PendingResponse)
      → ResponseOk r
      → Holds (λ c'. ConnOk o c' × (c'.next_channel ≡ c.next_channel)) (send_response r c)
  unfolding send_response
  send_response-Leaves r h = elim (Bool-cases c.responses_closed) [
    | inl q ↦ rw (q, send_response) tt
    | inr q ↦ elim (Bool-cases (ltb (length c.responses) 16)) [
      | inl l ↦
          rw (q, l, send_response)
            (
              record {
                pending = k.pending;
                buffers = k.buffers;
                responses = All-append ResponseOk c.responses (r ∷ []) k.responses (h, tt);
              },
              refl,
            )
      | inr l ↦ rw (q, l, send_response) tt
    ]
  ]

  pub receive_response-Leaves : Holds (Popped o c) (receive_response c)
  unfolding receive_response
  receive_response-Leaves = by_queue c.responses refl
    where
      by_queue :
          (rs : List PendingResponse) → c.responses ≡ rs → Holds (Popped o c) (receive_response c)
      by_queue [] e = elim (Bool-cases c.responses_closed) [
        | inl q ↦ subst (Holds (Popped o c)) {x = ok (none, c)} (ground arith) (k, refl, λ p h. cc)
        | inr q ↦ subst (Holds (Popped o c)) {x = err blocked} (ground arith) tt
      ]
      by_queue (r ∷ rs) e =
          let old : All ResponseOk (r ∷ rs) = subst (All ResponseOk) e k.responses in
          rw (e, receive_response)
            (
              record { pending = k.pending; buffers = k.buffers; responses = old.1 },
              refl,
              λ p h. subst ResponseOk {x = r} {y = p} (ground (arith, h)) old.0,
            )

  pub lookup-Leaves : (id ch : ℕ) → lookup id c ≡ some ch → EntryOk o c.next_channel (id, ch)
  unfolding lookup
  lookup-Leaves id ch h = elim (Option-cases c.pending) [
    | inl e ↦ absurd (cc (rw (e, lookup) at h))
    | inr (m, e) ↦
        find_pending-EntryOk o c.next_channel id m (subst (PendingOk o c.next_channel) e k.pending)
          (ground (arith, h))
  ]

pub Holds-bind :
    {A B : Type 0} (P : A → Type 0) (Q : B → Type 0) (m : Result Blocked A)
    (f : A → Result Blocked B)
    → Holds P m
    → ((a : A) → P a → Holds Q (f a))
    → Holds Q (m >>= f)
Holds-bind P Q (ok a) f h g = g a h
Holds-bind P Q (err e) f h g = tt
Holds-bind P Q panic f h g = tt

pub Holds-imply :
    {A : Type 0} (P Q : A → Type 0) (m : Result Blocked A)
    → Holds P m
    → ((a : A) → P a → Q a)
    → Holds Q m
Holds-imply P Q (ok a) h g = g a h
Holds-imply P Q (err e) h g = tt
Holds-imply P Q panic h g = tt

-- Closing channels leaves what is in them.
close_channels-buffer :
    (m : List (ℕ × ℕ)) (cs : ℕ → Channel)
    → Holds (λ cs'. (j : ℕ) → (cs' j).buffer ≡ (cs j).buffer) (close_channels m cs)
unfolding close_channels close_channel
close_channels-buffer [] cs = λ j. refl
close_channels-buffer ((id, ch) ∷ m) cs = elim (Bool-cases (cs ch).is_closed) [
  | inl q ↦ rw (q, close_channels) tt
  | inr q ↦
      rw (q, close_channels)
        (Holds-imply _ _ (close_channels m _) (close_channels-buffer m _)
          (λ cs' h j. h j ∙ closed-buffer cs ch j))
]
  where
    closed-buffer :
        (cs : ℕ → Channel) (ch j : ℕ)
        → (set_at cs ch (record (cs ch) { is_closed = true }) j).buffer ≡ (cs j).buffer
    closed-buffer cs ch j = ground arith

pub clear_pending-Leaves :
    (o : Owner) (c : Conn)
    → ConnOk o c
    → Holds (λ c'. ConnOk o c' × (c'.next_channel ≡ c.next_channel)) (clear_pending c)
unfolding clear_pending
clear_pending-Leaves o c k = elim (Option-cases c.pending) [
  | inl e ↦ rw (e, clear_pending) (k, refl)
  | inr (m, e) ↦
      rw (e, clear_pending)
        (Holds-bind _ _ (close_channels m c.channels) _ (close_channels-buffer m c.channels)
          (λ cs h. (
            record {
              pending = tt;
              buffers = λ ch p q. k.buffers ch p (sym (h ch) ∙ q);
              responses = k.responses;
            },
            refl,
          )))
]
