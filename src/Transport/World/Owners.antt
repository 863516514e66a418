-- ===== src/Transport/World/Owners.antt =====
-- internal/transport/conn.go: what the channels of a connection carry.
use goadstc.Base.{
  ℕ, ◌≤◌, ◌<◌, ◌≡◌, ◌≢◌, sym, ◌∙◌, inl, inr, Option, none, some, List, [], ◌∷◌, arith, All, ◌==◌,
  Bool-cases, ==_iff,
}
use goadstc.Go.{Result, ok, err, panic}
use goadstc.Ams.Packet.{Packet}
use goadstc.Transport.Conn.{
  PendingResponse, failure, response, Blocked, Conn, put_pending, delete_pending, find_pending,
}
use goadstc.Transport.Threads.{Sender, Reader, Dispatcher}

abbrev pub Holds {ℓ} : {A : Type 0} → (A → Type ℓ) → Result Blocked A → Type ℓ
Holds P (ok a) = P a
Holds P (err e) = Unit
Holds P panic = Unit

-- `p` is an answer to the request of invoke id `id`.
abbrev pub Answers : ℕ → Packet → Type 0
Answers id p = (p.header.invoke_id ≡ id) × (p.header.command_id ≢ 8)

abbrev pub ResponseOk : PendingResponse → Type 0
ResponseOk (failure e) = Unit
ResponseOk (response id p) = p.header.invoke_id ≡ id

-- The invoke id that each channel was made for.
abbrev pub Owner : Type 0
Owner = ℕ → ℕ

abbrev pub EntryOk : Owner → ℕ → ℕ × ℕ → Type 0
EntryOk o n (id, ch) = (o ch ≡ id) × (ch < n)

abbrev pub PendingOk : Owner → ℕ → Option (List (ℕ × ℕ)) → Type 0
PendingOk o n none = Unit
PendingOk o n (some m) = All (EntryOk o n) m

pub record ConnOk (o : Owner) (c : Conn) : Type 0 where
  pub pending : PendingOk o c.next_channel c.pending
  pub buffers : (ch : ℕ) (p : Packet) → (c.channels ch).buffer ≡ some p → Answers (o ch) p
  pub responses : All ResponseOk c.responses

abbrev pub SenderOk : Owner → ℕ → Sender → Type 0
SenderOk o n (Sender.writing req ch) = EntryOk o n (req.header.invoke_id, ch)
SenderOk o n (Sender.waiting req ch) = EntryOk o n (req.header.invoke_id, ch)
SenderOk o n (Sender.leaving req (ok p)) = Answers req.header.invoke_id p
SenderOk o n (Sender.done req (ok p)) = Answers req.header.invoke_id p
SenderOk o n _ = Unit

abbrev pub ReaderOk : Reader → Type 0
ReaderOk (Reader.sending r last) = ResponseOk r
ReaderOk _ = Unit

abbrev pub DispatcherOk : Owner → ℕ → Dispatcher → Type 0
DispatcherOk o n (Dispatcher.found ch p) = Answers (o ch) p × (ch < n)
DispatcherOk o n _ = Unit

-- Later channels leave the owners of the earlier ones alone.
abbrev pub Extends : Owner → ℕ → Owner → ℕ → Type 0
Extends o n o' n' = (n ≤ n') × ((ch : ℕ) → ch < n → o' ch ≡ o ch)

pub put_pending-EntryOk :
    (o : Owner) (n id ch : ℕ) (m : List (ℕ × ℕ))
    → EntryOk o n (id, ch)
    → All (EntryOk o n) m
    → All (EntryOk o n) (put_pending id ch m)
unfolding put_pending
put_pending-EntryOk o n id ch [] e h = (e, tt)
put_pending-EntryOk o n id ch ((j, d) ∷ m) e h = elim (Bool-cases (j == id)) [
  | inl same ↦ rw same ((e.0 ∙ sym ((==_iff j id).0 same), e.1), h.1)
  | inr other ↦ rw other (h.0, put_pending-EntryOk o n id ch m e h.1)
]

pub delete_pending-EntryOk :
    (o : Owner) (n id : ℕ) (m : List (ℕ × ℕ))
    → All (EntryOk o n) m
    → All (EntryOk o n) (delete_pending id m)
unfolding delete_pending
delete_pending-EntryOk o n id [] h = tt
delete_pending-EntryOk o n id ((j, d) ∷ m) h = elim (Bool-cases (j == id)) [
  | inl same ↦ rw same (delete_pending-EntryOk o n id m h.1)
  | inr other ↦ rw other (h.0, delete_pending-EntryOk o n id m h.1)
]

pub find_pending-EntryOk :
    (o : Owner) (n id : ℕ) (m : List (ℕ × ℕ)) {ch : ℕ}
    → All (EntryOk o n) m
    → find_pending id m ≡ some ch
    → EntryOk o n (id, ch)
unfolding find_pending
find_pending-EntryOk o n id [] h f = cc
find_pending-EntryOk o n id ((j, d) ∷ m) {ch} h f =
    ground (arith, find_pending-EntryOk o n id m {ch = ch} h.1)

pub EntryOk-Extends :
    (o o' : Owner) (n n' : ℕ) (m : List (ℕ × ℕ))
    → Extends o n o' n'
    → All (EntryOk o n) m
    → All (EntryOk o' n') m
EntryOk-Extends o o' n n' [] x h = tt
EntryOk-Extends o o' n n' ((id, ch) ∷ m) x h =
    ((x.1 ch h.0.1 ∙ h.0.0, omega (arith, x.0, h.0.1)), EntryOk-Extends o o' n n' m x h.1)

pub SenderOk-Extends :
    (o o' : Owner) (n n' : ℕ) (s : Sender) → Extends o n o' n' → SenderOk o n s → SenderOk o' n' s
SenderOk-Extends o o' n n' Sender.idle x h = tt
SenderOk-Extends o o' n n' (Sender.checking r) x h = tt
SenderOk-Extends o o' n n' (Sender.registering r) x h = tt
SenderOk-Extends o o' n n' (Sender.writing r ch) x h = (x.1 ch h.1 ∙ h.0, omega (arith, x.0, h.1))
SenderOk-Extends o o' n n' (Sender.waiting r ch) x h = (x.1 ch h.1 ∙ h.0, omega (arith, x.0, h.1))
SenderOk-Extends o o' n n' (Sender.leaving r (ok p)) x h = h
SenderOk-Extends o o' n n' (Sender.leaving r (err e)) x h = tt
SenderOk-Extends o o' n n' (Sender.leaving r panic) x h = tt
SenderOk-Extends o o' n n' (Sender.done r (ok p)) x h = h
SenderOk-Extends o o' n n' (Sender.done r (err e)) x h = tt
SenderOk-Extends o o' n n' (Sender.done r panic) x h = tt

pub DispatcherOk-Extends :
    (o o' : Owner) (n n' : ℕ) (d : Dispatcher)
    → Extends o n o' n'
    → DispatcherOk o n d
    → DispatcherOk o' n' d
DispatcherOk-Extends o o' n n' Dispatcher.receiving x h = tt
DispatcherOk-Extends o o' n n' (Dispatcher.found ch p) x h =
    ((h.0.0 ∙ sym (x.1 ch h.1), h.0.1), omega (arith, x.0, h.1))
DispatcherOk-Extends o o' n n' Dispatcher.spawning x h = tt
DispatcherOk-Extends o o' n n' Dispatcher.ended x h = tt
