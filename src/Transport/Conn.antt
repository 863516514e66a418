-- ===== src/Transport/Conn.antt =====
-- internal/transport/conn.go: the shared state of a connection and the blocks of code that its locks
-- and atomics make indivisible.
use goadstc.Base.{
  ℕ, ◌+◌, ◌%◌, ◌^◌, Bool, true, false, Option, none, some, List, [], ◌∷◌, ◌++◌, length, ltb, ◌==◌,
  if◌then◌else◌,
}
use goadstc.Go.{Result, ok, err, panic, ◌>>=◌}
use goadstc.Ams.Packet.{Packet}

-- type ConnectionState
pub data ConnectionState : Type 0 where
  connecting connected disconnecting closed error : ConnectionState

-- The errors of the package; `io` is one of package net.
pub data Error : Type 0 where
  io : ℕ → Error
  connection_closed request_timeout context_done loop_ended : Error
  close_timeout : ℕ → Error
  not_connected : ConnectionState → Error
  not_connected_by : ConnectionState → Error → Error
  write_deadline write_failed read_deadline read_failed : Error → Error
  closed_by : Error → Error

-- A channel of capacity 1 that carries a response.
pub record Channel : Type 0 where
  pub buffer : Option Packet
  pub is_closed : Bool

-- type pendingResponse: an error, or a packet with its invoke id.
pub data PendingResponse : Type 0 where
  failure : Error → PendingResponse
  response : ℕ → Packet → PendingResponse

-- A call that would block.
pub data Blocked : Type 0 where
  blocked : Blocked

-- type Conn. `pending` is `none` for a nil map; its channels are numbers, and `channels` says what is
-- in each; `notified` are the packets that were handed to the notification handler.
pub record Conn : Type 0 where
  pub state : ConnectionState
  pub last_error : Option Error
  pub has_timeout : Bool
  pub invoke_id : ℕ
  pub responses : List PendingResponse
  pub responses_closed : Bool
  pub pending : Option (List (ℕ × ℕ))
  pub channels : ℕ → Channel
  pub next_channel : ℕ
  pub has_handler : Bool
  pub notified : List Packet
  pub shutdown : Bool
  pub net_closed : Bool

abbrev pub new_channel : Channel
new_channel = record { buffer = none; is_closed = false }

-- The Conn that Dial returns; `timeout > 0` is its only use of the timeout that decides.
abbrev pub dialed : Bool → Conn
dialed has_timeout = record {
  state = connected;
  last_error = none;
  has_timeout = has_timeout;
  invoke_id = 0;
  responses = [];
  responses_closed = false;
  pending = some [];
  channels = λ ch. new_channel;
  next_channel = 0;
  has_handler = false;
  notified = [];
  shutdown = false;
  net_closed = false;
}

abbrev pub is_connected : ConnectionState → Bool
is_connected connected = true
is_connected _ = false

abbrev pub set_at {ℓ} : {A : Type ℓ} → (ℕ → A) → ℕ → A → ℕ → A
set_at f i v j = if j == i then v else f j

-- (*Conn).setError; its two writes are one block here.
abbrev pub set_error : Error → Conn → Conn
set_error e c = record c { last_error = some e; state = error }

-- (*Conn).NextInvokeID
unfoldable pub next_invoke_id : Conn → Conn × ℕ
next_invoke_id c = let id = (c.invoke_id + 1) % 2 ^ 32 in (record c { invoke_id = id }, id)

-- (*Conn).SetNotificationHandler
unfoldable pub set_notification_handler : Bool → Conn → Conn
set_notification_handler handler c = record c { has_handler = handler }

-- m[id] = ch
unfoldable pub put_pending : ℕ → ℕ → List (ℕ × ℕ) → List (ℕ × ℕ)
put_pending id ch [] = (id, ch) ∷ []
put_pending id ch ((j, d) ∷ m) = if j == id then (j, ch) ∷ m else (j, d) ∷ put_pending id ch m

-- delete(m, id)
unfoldable pub delete_pending : ℕ → List (ℕ × ℕ) → List (ℕ × ℕ)
delete_pending id [] = []
delete_pending id ((j, d) ∷ m) =
    let rest = delete_pending id m in if j == id then rest else (j, d) ∷ rest

unfoldable pub find_pending : ℕ → List (ℕ × ℕ) → Option ℕ
find_pending id [] = none
find_pending id ((j, d) ∷ m) = if j == id then some d else find_pending id m

-- `respCh := make(...)` and `c.pending[invokeID] = respCh`; a write to a nil map is a panic.
unfoldable pub register : ℕ → Conn → Result Blocked (ℕ × Conn)
register id c = elim c.pending [
  | none ↦ panic
  | some m ↦
      (let ch = c.next_channel in
        ok (
          ch,
          record c {
            pending = some (put_pending id ch m);
            channels = set_at c.channels ch new_channel;
            next_channel = ch + 1;
          },
        ))
]

-- The deferred `delete(c.pending, invokeID)`; on a nil map it does nothing.
unfoldable pub unregister : ℕ → Conn → Conn
unregister id c = elim c.pending [
  | none ↦ c
  | some m ↦ record c { pending = some (delete_pending id m) }
]

-- `ch, ok := c.pending[id]`
unfoldable pub lookup : ℕ → Conn → Option ℕ
lookup id c = elim c.pending [ none ↦ none | some m ↦ find_pending id m ]

-- `select { case ch <- packet: default: }`; a send on a closed channel is a panic.
unfoldable pub deliver : ℕ → Packet → Conn → Result Blocked Conn
deliver ch packet c = if (c.channels ch).is_closed then panic else elim (c.channels ch).buffer [
  | some p ↦ ok c
  | none ↦ ok (record c {
    channels = set_at c.channels ch (record { buffer = some packet; is_closed = false });
  })
]

-- `<-respCh`: a packet, or nil once the channel is closed and empty.
unfoldable pub receive : ℕ → Conn → Result Blocked (Option Packet × Conn)
receive ch c = elim (c.channels ch).buffer [
  | some p ↦ ok (
    some p,
    record c { channels = set_at c.channels ch (record (c.channels ch) { buffer = none }) },
  )
  | none ↦ if (c.channels ch).is_closed then ok (none, c) else err blocked
]

-- close(ch); a second one is a panic.
unfoldable pub close_channel : ℕ → (ℕ → Channel) → Result Blocked (ℕ → Channel)
close_channel ch cs =
    if (cs ch).is_closed then panic else ok (set_at cs ch (record (cs ch) { is_closed = true }))

unfoldable pub close_channels : List (ℕ × ℕ) → (ℕ → Channel) → Result Blocked (ℕ → Channel)
close_channels [] cs = ok cs
close_channels ((id, ch) ∷ m) cs = do cs' ← close_channel ch cs; close_channels m cs'

-- The goroutine of CloseWithTimeout: closes every channel of the map and sets the map to nil.
unfoldable pub clear_pending : Conn → Result Blocked Conn
clear_pending c = elim c.pending [
  | none ↦ ok c
  | some m ↦ (do cs ← close_channels m c.channels; ok (record c { pending = none; channels = cs }))
]

-- `c.responses <- r`, on a channel of capacity 16.
unfoldable pub send_response : PendingResponse → Conn → Result Blocked Conn
send_response r c =
    if c.responses_closed
    then panic
    else if ltb (length c.responses) 16
    then ok (record c { responses = c.responses ++ (r ∷ []) })
    else err blocked

-- `<-c.responses`: `none` once the channel is closed and empty.
unfoldable pub receive_response : Conn → Result Blocked (Option PendingResponse × Conn)
receive_response c = elim c.responses [
  | r ∷ rs ↦ ok (some r, record c { responses = rs })
  | [] ↦ if c.responses_closed then ok (none, c) else err blocked
]

-- close(c.responses)
unfoldable pub close_responses : Conn → Result Blocked Conn
close_responses c = if c.responses_closed then panic else ok (record c { responses_closed = true })
