-- ===== src/Client/Subscriptions.antt =====
-- subscription.go and client_notifications.go: subscriptions, the notifications that reach them, and
-- client.go's renewal of them after a reconnection. A subscription's lock is held for the whole of
-- notify and of Close, which are one step each here.
pub mod Invariant
pub mod Routing
pub mod Final
pub mod Renewal
pub mod Deadlock
use goadstc.Base.{
  ℕ, zero, suc, ◌+◌, ◌-◌, ◌*◌, ◌/◌, ◌%◌, ◌^◌, Bool, true, false, Option, none, some, List, [], ◌∷◌,
  ◌++◌, ◌⊎◌, inl, inr, length, ltb, ◌==◌, if◌then◌else◌,
}
use goadstc.Go.{Result, ok, err, panic, ◌>>=◌}
use goadstc.Go.IntMap.{IntEntries, lookup, insert, delete}
use goadstc.Go.Strings.{text}
use goadstc.Ams.Packet.{Packet}
use goadstc.Ads.Notification.{NotificationSample, StampHeader, unmarshal_notification}
use goadstc.Ads.Requests.{AddDeviceNotificationRequest}
use goadstc.Ads.Responses
use goadstc.Ads.Responses.{
  AddDeviceNotificationResponse, unmarshal_add_notification, unmarshal_delete_notification,
}
use goadstc.Errors.{ClassifiedError, classify_error, new_ads_error}
use goadstc.Ads.Errors.{error_text}
use goadstc.Transport.Conn.{set_at}
use goadstc.Client.Retry.{Error, ads}
use goadstc.Client.Failure.{go_error}

-- type Notification; the time is its Unix nanoseconds, an int64 as its bits.
pub record Notification : Type 0 where
  pub body : List ℕ
  pub timestamp : ℕ

-- type NotificationOptions, its durations in nanoseconds.
pub record NotificationOptions : Type 0 where
  pub index_group : ℕ
  pub index_offset : ℕ
  pub length : ℕ
  pub transmission_mode : ℕ
  pub max_delay : ℕ
  pub cycle_time : ℕ

-- What Close returns besides nil.
pub data CloseError : Type 0 where
  delete_failed : Error → CloseError
  delete_answer : Responses.Error → CloseError
  delete_refused : ℕ → CloseError

-- What Subscribe returns besides a subscription.
pub data SubscribeError : Type 0 where
  classified : ClassifiedError → SubscribeError
  add_answer : Responses.Error → SubscribeError
  add_refused : ClassifiedError → SubscribeError

-- type Subscription; `queue` and `channel_closed` are its channel.
pub record Subscription : Type 0 where
  pub handle : ℕ
  pub queue : List Notification
  pub channel_closed : Bool
  pub is_closed : Bool
  pub close_error : Option CloseError
  pub opts : NotificationOptions

-- Every subscription that was made, by its number, and the client's map from handles to them.
pub record State : Type 0 where
  pub subs : ℕ → Subscription
  pub made : ℕ
  pub registry : IntEntries ℕ

pub data NoError : Type 0 where

-- A step of one subscription: the new value of the subscription.
abbrev pub update_sub : ℕ → Subscription → State → State
update_sub i sub s = record s { subs = set_at s.subs i sub }

-- close(s.notifCh); a second one is a panic.
unfoldable pub close_channel : Subscription → Result NoError Subscription
close_channel sub = if sub.channel_closed then panic else ok (record sub { channel_closed = true })

-- The capacity of a notification channel.
abbrev pub capacity : ℕ
capacity = 16

-- The select of notify; a send on a closed channel is a panic.
unfoldable pub send_notification : Notification → Subscription → Result NoError Subscription
send_notification n sub =
    if sub.channel_closed
    then panic
    else ok (
        if ltb (length sub.queue) capacity
        then record sub { queue = sub.queue ++ (n ∷ []) }
        else sub)

-- (*Subscription).notify
unfoldable pub notify : Notification → Subscription → Result NoError Subscription
unfolding send_notification
notify n sub = if sub.is_closed then ok sub else send_notification n sub

-- The nanoseconds since 1970 of a FILETIME: `int64(t-fileTimeEpoch) * 100`.
unfoldable pub unix_nano : ℕ → ℕ
unix_nano t = (t + 2 ^ 64 - 116444736000000000) % 2 ^ 64 * 100 % 2 ^ 64

-- One sample of a notification, for the subscription of its handle if there is one.
unfoldable pub route : ℕ → NotificationSample → State → Result NoError State
unfolding notify
route timestamp sample s = elim (lookup sample.notification_handle s.registry) [
  | none ↦ ok s
  | some i ↦ (do
    sub ← notify (record { body = sample.body; timestamp = timestamp }) (s.subs i)
    ok (update_sub i sub s))
]

unfoldable pub route_samples : ℕ → List NotificationSample → State → Result NoError State
unfolding route
route_samples timestamp [] s = ok s
route_samples timestamp (sample ∷ samples) s = do
  s ← route timestamp sample s
  route_samples timestamp samples s

unfoldable pub route_stamps : List StampHeader → State → Result NoError State
unfolding route_samples unix_nano
route_stamps [] s = ok s
route_stamps (stamp ∷ stamps) s = do
  s ← route_samples (unix_nano stamp.timestamp) stamp.samples s
  route_stamps stamps s

unfoldable pub route_decoded :
    State → Result Responses.Error (List StampHeader) → Result NoError State
unfolding route_stamps
route_decoded s (ok stamps) = route_stamps stamps s
route_decoded s (err e) = ok s
route_decoded s panic = panic

-- handleNotification
unfoldable pub handle_notification : Packet → State → Result NoError State
unfolding route_decoded
handle_notification p s = route_decoded s (unmarshal_notification p.body)

-- A receive from the channel that does not block: the oldest notification is taken out.
unfoldable pub receive : Subscription → Subscription
receive sub = elim sub.queue [ [] ↦ sub | n ∷ ns ↦ record sub { queue = ns } ]

unfoldable pub delete_answered : Result Responses.Error ℕ → Result NoError (Option CloseError)
delete_answered (ok result) = ok (if result == 0 then none else some (delete_refused result))
delete_answered (err e) = ok (some (delete_answer e))
delete_answered panic = panic

-- What the request that deletes the notification comes to: nil, or the error of Close.
unfoldable pub delete_result : Error ⊎ Packet → Result NoError (Option CloseError)
unfolding delete_answered
delete_result (inl e) = ok (some (delete_failed e))
delete_result (inr p) = delete_answered (unmarshal_delete_notification p.body)

-- (*Subscription).Close on a subscription that is open, but for the client's map.
unfoldable pub close_open : Error ⊎ Packet → Subscription → Result NoError Subscription
unfolding close_channel delete_result
close_open answer sub = do
  e ← delete_result answer
  close_channel (record sub { is_closed = true; close_error = e })

-- unregisterSubscription
unfoldable pub unregister_subscription : ℕ → State → State
unregister_subscription handle s = record s { registry = delete handle s.registry }

-- (*Subscription).Close, with what sendRequest returns.
unfoldable pub close : Error ⊎ Packet → ℕ → State → Result NoError State
unfolding close_open unregister_subscription
close answer i s = if (s.subs i).is_closed then ok s else (do
  sub ← close_open answer (s.subs i)
  ok (update_sub i sub (unregister_subscription (s.subs i).handle s)))

-- The request of Subscribe: durations in milliseconds, as uint32.
unfoldable pub add_request : NotificationOptions → AddDeviceNotificationRequest
add_request opts = record {
  index_group = opts.index_group;
  index_offset = opts.index_offset;
  length = opts.length;
  transmission_mode = opts.transmission_mode;
  max_delay = opts.max_delay / 1000000 % 2 ^ 32;
  cycle_time = opts.cycle_time / 1000000 % 2 ^ 32;
}

-- The subscription of a handle is made and registered.
unfoldable pub add_subscription : NotificationOptions → ℕ → State → State
add_subscription opts handle s = record {
  subs = set_at s.subs s.made (record {
    handle = handle;
    queue = [];
    channel_closed = false;
    is_closed = false;
    close_error = none;
    opts = opts;
  });
  made = s.made + 1;
  registry = insert handle s.made s.registry;
}

-- Subscribe from the decoded answer on.
unfoldable pub subscribe_answered :
    NotificationOptions
    → State
    → Result Responses.Error AddDeviceNotificationResponse
    → Result NoError ((SubscribeError ⊎ ℕ) × State)
unfolding add_subscription
subscribe_answered opts s (ok resp) =
    if resp.result == 0
    then ok (inr s.made, add_subscription opts resp.notification_handle s)
    else ok (
      inl (add_refused (new_ads_error (text "subscribe") resp.result (error_text resp.result))),
      s,
    )
subscribe_answered opts s (err e) = ok (inl (add_answer e), s)
subscribe_answered opts s panic = panic

-- The first part of reestablishSubscriptions: the subscriptions of the map are closed, and their
-- options kept.
unfoldable pub close_registered :
    IntEntries ℕ → State → Result NoError (List NotificationOptions × State)
unfolding close_channel
close_registered [] s = ok ([], s)
close_registered ((handle, i) ∷ m) s = do
  sub ←
      (if (s.subs i).is_closed
        then ok (s.subs i)
        else close_channel (record (s.subs i) { is_closed = true }))
  (opts, s') ← close_registered m (update_sub i sub s)
  ok ((s.subs i).opts ∷ opts, s')

-- The addresses that ClassifyError compares with, and that of a new error.
module _ (closed_at failed_at address : ℕ) where
  -- Subscribe, with what sendRequest returns: the number of the new subscription.
  unfoldable pub subscribe :
      NotificationOptions → Error ⊎ Packet → State → Result NoError ((SubscribeError ⊎ ℕ) × State)
  unfolding subscribe_answered
  subscribe opts (inl e) s = do
    ce ← classify_error closed_at failed_at (go_error address e) (text "subscribe")
    ok (inl (classified ce), s)
  subscribe opts (inr p) s = subscribe_answered opts s (unmarshal_add_notification p.body)

  -- The second part of reestablishSubscriptions, with what sendRequest returns for each; a failure is only reported.
  unfoldable pub subscribe_all :
      List NotificationOptions → (ℕ → Error ⊎ Packet) → State → Result NoError State
  unfolding subscribe
  subscribe_all [] answers s = ok s
  subscribe_all (opts ∷ more) answers s = do
    (r, s) ← subscribe opts (answers (length more)) s
    subscribe_all more answers s

  -- reestablishSubscriptions, in the order of the entries.
  unfoldable pub reestablish_subscriptions : (ℕ → Error ⊎ Packet) → State → Result NoError State
  unfolding close_registered subscribe_all
  reestablish_subscriptions answers s = do
    (opts, s) ← close_registered s.registry s
    subscribe_all opts answers (record s { registry = [] })

-- What can happen to the subscriptions of a client: a notification for one of them, also one whose
-- handle was looked up before, a receive, Subscribe, Close, and the first part of a renewal, behind
-- which its calls of Subscribe follow as events of their own.
pub data Op : Type 0 where
  notified : ℕ → Notification → Op
  received : ℕ → Op
  subscribed : NotificationOptions → Error ⊎ Packet → Op
  closed : ℕ → Error ⊎ Packet → Op
  cleared : Op

module _ (closed_at failed_at address : ℕ) where
  unfoldable pub step : Op → State → Result NoError State
  unfolding notify receive close close_registered subscribe
  step (notified i n) s = do sub ← notify n (s.subs i); ok (update_sub i sub s)
  step (received i) s = ok (update_sub i (receive (s.subs i)) s)
  step (subscribed opts answer) s = do
    (r, s) ← subscribe closed_at failed_at address opts answer s
    ok s
  step (closed i answer) s = close answer i s
  step cleared s = do (opts, s) ← close_registered s.registry s; ok (record s { registry = [] })

  unfoldable pub run : List Op → State → Result NoError State
  unfolding step
  run [] s = ok s
  run (op ∷ ops) s = do s ← step op s; run ops s

-- The subscriptions of a new client.
abbrev pub no_subscriptions : State
no_subscriptions = record {
  subs = λ i. record {
    handle = 0;
    queue = [];
    channel_closed = false;
    is_closed = false;
    close_error = none;
    opts = record {
      index_group = 0;
      index_offset = 0;
      length = 0;
      transmission_mode = 0;
      max_delay = 0;
      cycle_time = 0;
    };
  };
  made = 0;
  registry = [];
}
