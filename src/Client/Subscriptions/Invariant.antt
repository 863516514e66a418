-- ===== src/Client/Subscriptions/Invariant.antt =====
-- subscription.go: what holds of all subscriptions of a client, whatever happens.
use goadstc.Base.{
  ℕ, ◌≤◌, ◌<◌, ◌≡◌, ◌≢◌, refl, ◌∙◌, ◌⊎◌, inl, inr, true, false, Option, some, List, [], ◌∷◌, ◌++◌,
  ◌==◌, ltb, length, length-append, if◌then◌else◌, arith, Bool-cases,
}
use goadstc.Go.{Result, ok, err, panic, bind-ok}
use goadstc.Go.IntMap.{IntEntries, lookup, lookup-insert, lookup-delete, delete}
use goadstc.Go.Strings.{text}
use goadstc.Ams.Packet.{Packet}
use goadstc.Ads.Responses
use goadstc.Ads.Responses.{
  AddDeviceNotificationResponse, unmarshal_add_notification, unmarshal_delete_notification,
}
use goadstc.Ads.Responses.Decode.{fixed_answers_safe}
use goadstc.Errors.Classify.{classify_error-returns}
use goadstc.Errors.{new_ads_error}
use goadstc.Ads.Errors.{error_text}
use goadstc.Transport.Conn.{set_at}
use goadstc.Client.Retry.{Error}
use goadstc.Client.Failure.{go_error}
use goadstc.Client.Subscriptions.{
  Notification, NotificationOptions, CloseError, Subscription, State, NoError, update_sub,
  close_channel, capacity, send_notification, notify, receive, delete_answered, subscribe_answered,
  SubscribeError, add_refused, delete_result, close_open, unregister_subscription, close,
  add_subscription, subscribe, close_registered, Op, notified, received, subscribed, closed,
  cleared, step, run, no_subscriptions,
}

-- The channel of a subscription is closed exactly if the subscription is, and holds at most sixteen
-- notifications.
pub record SubSound (sub : Subscription) : Type 0 where
  pub channel : sub.channel_closed ≡ sub.is_closed
  pub small : length sub.queue ≤ capacity

-- The map leads from handles to open subscriptions of these handles.
pub record Sound (s : State) : Type 0 where
  pub all : (i : ℕ) → SubSound (s.subs i)
  pub registered :
      (h i : ℕ)
      → lookup h s.registry ≡ some i
      → (i < s.made) × ((s.subs i).handle ≡ h) × ((s.subs i).is_closed ≡ false)

pub notify-SubSound :
    (n : Notification) (sub : Subscription)
    → SubSound sub
    → (sub' : Subscription) × (notify n sub ≡ ok sub')
      × SubSound sub'
      × (sub'.handle ≡ sub.handle)
      × (sub'.is_closed ≡ sub.is_closed)
unfolding notify send_notification
notify-SubSound n sub v = elim (Bool-cases sub.is_closed) [
  | inl c ↦ (sub, rw c refl, v, refl, refl)
  | inr c ↦ elim (Bool-cases (ltb (length sub.queue) capacity)) [
    | inl room ↦ (
      record sub { queue = sub.queue ++ (n ∷ []) },
      ground (arith, v.channel),
      record { channel = v.channel; small = ground (arith, length-append sub.queue (n ∷ [])) },
      refl,
      refl,
    )
    | inr full ↦ (sub, ground (arith, v.channel), v, refl, refl)
  ]
]

receive-SubSound : (sub : Subscription) → SubSound sub → SubSound (receive sub)
unfolding receive
receive-SubSound sub v = ground (arith, v.channel, v.small)

receive_same :
    (sub : Subscription)
    → ((receive sub).handle ≡ sub.handle) × ((receive sub).is_closed ≡ sub.is_closed)
unfolding receive
receive_same sub = ground arith

-- A value of `set_at`, by whether it is the one that was set.
set_at-All :
    (P : Subscription → Type 0) (f : ℕ → Subscription) (i : ℕ) (sub : Subscription)
    → P sub
    → ((j : ℕ) → P (f j))
    → (j : ℕ) → P (set_at f i sub j)
set_at-All P f i sub new old j = elim (Bool-cases (j == i)) [
  | inl e ↦ rw e new
  | inr e ↦ rw e (old j)
]

pub update_sub-Sound :
    (i : ℕ) (sub : Subscription) (s : State)
    → Sound s
    → SubSound sub
    → sub.handle ≡ (s.subs i).handle
    → sub.is_closed ≡ (s.subs i).is_closed
    → Sound (update_sub i sub s)
update_sub-Sound i sub s v new handle state = record {
  all = set_at-All SubSound s.subs i sub new v.all;
  registered = λ h j e. ground (arith, v.registered h j e);
}

delete_answered-returns :
    (r : Result Responses.Error ℕ)
    → r ≢ panic
    → (e : Option CloseError) × (delete_answered r ≡ ok e)
unfolding delete_answered
delete_answered-returns (ok result) h = (_, refl)
delete_answered-returns (err e) h = (_, refl)
delete_answered-returns panic h = absurd (h refl)

delete_result-returns :
    (answer : Error ⊎ Packet) → (e : Option CloseError) × (delete_result answer ≡ ok e)
unfolding delete_result
delete_result-returns (inl e) = (_, refl)
delete_result-returns (inr p) =
    delete_answered-returns _ ((fixed_answers_safe p.body.bytes p.body.spare).2)

-- An open subscription is closed with its channel.
close_open-SubSound :
    (answer : Error ⊎ Packet) (sub : Subscription)
    → SubSound sub
    → sub.is_closed ≡ false
    → (sub' : Subscription) × (close_open answer sub ≡ ok sub')
      × SubSound sub'
      × (sub'.is_closed ≡ true)
      × (sub'.queue ≡ sub.queue)
unfolding close_open close_channel
close_open-SubSound answer sub v h =
    let (e, found) = delete_result-returns answer in
    (
      record sub { is_closed = true; close_error = e; channel_closed = true },
      bind-ok _ found ∙ rw (v.channel ∙ h) refl,
      record { channel = refl; small = v.small },
      refl,
      refl,
    )

close-Sound :
    (answer : Error ⊎ Packet) (i : ℕ) (s : State)
    → Sound s
    → (s' : State) × (close answer i s ≡ ok s') × Sound s'
unfolding close unregister_subscription
close-Sound answer i s v = elim (Bool-cases (s.subs i).is_closed) [
  | inl c ↦ (s, rw c refl, v)
  | inr c ↦
      (let (sub, found, sound, _, _) = close_open-SubSound answer (s.subs i) (v.all i) c in
        (
          record s { subs = set_at s.subs i sub; registry = delete (s.subs i).handle s.registry },
          rw c (bind-ok _ found),
          record {
            all = set_at-All SubSound s.subs i sub sound v.all;
            registered = λ h j e.
                ground (arith, lookup-delete (s.subs i).handle h s.registry, v.registered h j);
          },
        ))
]

pub add_subscription-Sound :
    (opts : NotificationOptions) (handle : ℕ) (s : State)
    → Sound s
    → Sound (add_subscription opts handle s)
unfolding add_subscription
add_subscription-Sound opts handle s v = record {
  all = set_at-All SubSound s.subs s.made _ (record { channel = refl; small = omega arith }) v.all;
  registered = λ h j e. ground (arith, lookup-insert handle h s.made s.registry, v.registered h j);
}

subscribe_answered-Sound :
    (opts : NotificationOptions) (s : State)
    (r : Result Responses.Error AddDeviceNotificationResponse)
    → r ≢ panic
    → Sound s
    → (x : SubscribeError ⊎ ℕ) × (s' : State) × (subscribe_answered opts s r ≡ ok (x, s'))
      × Sound s'
unfolding subscribe_answered
subscribe_answered-Sound opts s (ok resp) h v = elim (Bool-cases (resp.result == 0)) [
  | inl e ↦ (
    inr s.made,
    add_subscription opts resp.notification_handle s,
    rw e refl,
    add_subscription-Sound opts resp.notification_handle s v,
  )
  | inr e ↦ (
    inl (add_refused (new_ads_error (text "subscribe") resp.result (error_text resp.result))),
    s,
    rw e refl,
    v,
  )
]
subscribe_answered-Sound opts s (err e) h v = (_, s, refl, v)
subscribe_answered-Sound opts s panic h v = absurd (h refl)

-- The subscription that a renewal leaves of one.
closed_sub-SubSound :
    (sub : Subscription)
    → SubSound sub
    → (sub' : Subscription) × ((if sub.is_closed
          then ok sub
          else close_channel (record sub { is_closed = true }))
        ≡ ok sub')
      × SubSound sub'
unfolding close_channel
closed_sub-SubSound sub v = elim (Bool-cases sub.is_closed) [
  | inl c ↦ (sub, rw c refl, v)
  | inr c ↦ (
    record sub { is_closed = true; channel_closed = true },
    rw c (rw (v.channel ∙ c) refl),
    record { channel = refl; small = v.small },
  )
]

pub close_registered-returns :
    (m : IntEntries ℕ) (s : State)
    → ((i : ℕ) → SubSound (s.subs i))
    → (opts : List NotificationOptions) × (s' : State) × (close_registered m s ≡ ok (opts, s'))
      × ((i : ℕ) → SubSound (s'.subs i))
unfolding close_registered
close_registered-returns [] s v = ([], s, refl, v)
close_registered-returns ((h, i) ∷ m) s v =
    let (sub, found, sound) = closed_sub-SubSound (s.subs i) (v i) in
    let (opts, s', rest, v') =
      close_registered-returns m (update_sub i sub s) (set_at-All SubSound s.subs i sub sound v) in
    ((s.subs i).opts ∷ opts, s', bind-ok _ found ∙ bind-ok _ rest, v')

pub no_subscriptions-Sound : Sound no_subscriptions
no_subscriptions-Sound = record {
  all = λ i. record { channel = refl; small = omega arith };
  registered = λ h i e. unfold lookup in cc;
}

module _ (closed_at failed_at address : ℕ) where
  pub subscribe-Sound :
      (opts : NotificationOptions) (answer : Error ⊎ Packet) (s : State)
      → Sound s
      → (x : SubscribeError ⊎ ℕ) × (s' : State) × (subscribe closed_at failed_at address opts answer
            s
          ≡ ok (x, s'))
        × Sound s'
  unfolding subscribe
  subscribe-Sound opts (inl e) s v =
      let (c, found) =
        classify_error-returns {E = NoError} closed_at failed_at (go_error address e)
          (text "subscribe") in
      (_, s, bind-ok _ found, v)
  subscribe-Sound opts (inr p) s v =
      subscribe_answered-Sound opts s (unmarshal_add_notification p.body)
        ((fixed_answers_safe p.body.bytes p.body.spare).4) v

  step-Sound :
      (op : Op) (s : State)
      → Sound s
      → (s' : State) × (step closed_at failed_at address op s ≡ ok s') × Sound s'
  unfolding step
  step-Sound (notified i n) s v =
      let (sub, found, sound, handle, same) = notify-SubSound n (s.subs i) (v.all i) in
      (update_sub i sub s, bind-ok _ found, update_sub-Sound i sub s v sound handle same)
  step-Sound (received i) s v =
      let (handle, same) = receive_same (s.subs i) in
      (
        _,
        refl,
        update_sub-Sound i (receive (s.subs i)) s v (receive-SubSound (s.subs i) (v.all i)) handle
            same,
      )
  step-Sound (subscribed opts answer) s v =
      let (x, s', found, sound) = subscribe-Sound opts answer s v in (s', bind-ok _ found, sound)
  step-Sound (closed i answer) s v = close-Sound answer i s v
  step-Sound cleared s v =
      let (opts, s', found, all) = close_registered-returns s.registry s v.all in
      (
        record s' { registry = [] },
        bind-ok _ found,
        record { all = all; registered = λ h i e. unfold lookup in cc },
      )

  run-Sound :
      (ops : List Op) (s : State)
      → Sound s
      → (s' : State) × (run closed_at failed_at address ops s ≡ ok s') × Sound s'
  unfolding run
  run-Sound [] s v = (s, refl, v)
  run-Sound (op ∷ ops) s v =
      let (s', found, sound) = step-Sound op s v in
      let (s'', rest, sound') = run-Sound ops s' sound in (s'', bind-ok _ found ∙ rest, sound')

  -- Whatever happens to the subscriptions of a client, in any order, nothing panics: no closed
  -- channel is closed again or sent to. In the end the channel of a subscription is closed exactly
  -- if the subscription is, no channel holds more than sixteen notifications, and the map leads from
  -- handles to open subscriptions of these handles.
  pub subscriptions-Sound :
      (ops : List Op)
      → (s : State) × (run closed_at failed_at address ops no_subscriptions ≡ ok s) × Sound s
  subscriptions-Sound ops = run-Sound ops no_subscriptions no_subscriptions-Sound
