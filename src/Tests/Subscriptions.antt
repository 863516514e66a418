-- ===== src/Tests/Subscriptions.antt =====
-- Runs of subscription.go and client_notifications.go.
use goadstc.Base.{
  ℕ, ◌≡◌, refl, true, none, List, [], ◌∷◌, ◌++◌, inl, inr, arith, take, if◌then◌else◌,
}
use goadstc.Go.{ok, exact, bytes32, bytes64}
use goadstc.Ams.Packet.{Packet, new_request_packet}
use goadstc.Ads.Notification.{StampHeader}
use goadstc.Ads.Notification.RoundTrip.{
  notification_wire, stamps_wire, stamp_wire, samples_wire, sample_wire,
}
use goadstc.Client.Retry
use goadstc.Client.Subscriptions.{
  Notification, NotificationOptions, Subscription, State, update_sub, capacity, handle_notification,
  add_subscription, Op, run, no_subscriptions, step, notify, receive,
}
use goadstc.Client.Subscriptions.Invariant.{
  Sound, no_subscriptions-Sound, add_subscription-Sound, subscriptions-Sound,
}
use goadstc.Client.Subscriptions.Routing.{mine, owns, handle_notification-wire}
use goadstc.Client.Subscriptions.Final.{ClosedAfter, closed_subscription_final}
use goadstc.Client.Subscriptions.Deadlock
use goadstc.Client.Subscriptions.Deadlock.{Locks, Step, Reach, both_begin, close_renewal_deadlock}
use goadstc.Tests.Frames.{plc, pc}

abbrev opts : NotificationOptions
opts = record {
  index_group = 0x4040;
  index_offset = 100;
  length = 2;
  transmission_mode = 4;
  max_delay = 0;
  cycle_time = 100000000;
}

abbrev packet : List ℕ → Packet
packet xs = new_request_packet pc 32905 plc 851 6 7 (exact xs)

subscriptions-Sound_example :
    (s : State) × (run 1 2 3
        (Op.subscribed opts (inr (packet (bytes32 0 ++ bytes32 3)))
          ∷ Op.closed 0 (inl Retry.not_connected)
          ∷ Op.cleared
          ∷ [])
        no_subscriptions
      ≡ ok s)
    × Sound s
subscriptions-Sound_example = subscriptions-Sound 1 2 3 (
    Op.subscribed opts (inr (packet (bytes32 0 ++ bytes32 3)))
    ∷ Op.closed 0 (inl Retry.not_connected)
    ∷ Op.cleared
    ∷ [])

-- A sample for the subscription of handle 3, and one that is nobody's.
abbrev stamps : List StampHeader
stamps =
    record {
      timestamp = 116444736000000001;
      samples =
          record { notification_handle = 3; body = 1 ∷ 2 ∷ [] }
          ∷ record { notification_handle = 4; body = [] }
          ∷ [];
    }
    ∷ []

subscribed_to : State
subscribed_to = add_subscription opts 3 no_subscriptions

subscribed_to-Sound : Sound subscribed_to
unfolding subscribed_to
subscribed_to-Sound = add_subscription-Sound opts 3 no_subscriptions no_subscriptions-Sound

handle_notification-wire_example :
    (s' : State) × (handle_notification (packet (notification_wire stamps ++ [])) subscribed_to
      ≡ ok s')
    × (s'.registry ≡ subscribed_to.registry)
    × ((i : ℕ)
        → (s'.subs i).queue ≡ (
            if owns subscribed_to i
            then take capacity
                ((subscribed_to.subs i).queue ++ mine stamps (subscribed_to.subs i).handle)
            else (subscribed_to.subs i).queue))
unfolding stamps_wire stamp_wire samples_wire sample_wire bytes64 new_request_packet
handle_notification-wire_example =
    handle_notification-wire stamps [] (packet (notification_wire stamps ++ [])) subscribed_to
      (omega arith) (omega arith) (omega arith) refl subscribed_to-Sound

abbrev value : ℕ → Notification
value n = record { body = n ∷ []; timestamp = n }

-- A subscription that was closed with two notifications in its channel.
abbrev shut : Subscription
shut = record {
  handle = 3;
  queue = value 1 ∷ value 2 ∷ [];
  channel_closed = true;
  is_closed = true;
  close_error = none;
  opts = opts;
}

abbrev closed_one : State
closed_one = record { subs = λ i. shut; made = 1; registry = [] }

-- It is sent a third one, which is dropped, and the first is received.
abbrev later : State
later = update_sub 0 (record shut { queue = value 2 ∷ [] }) (update_sub 0 shut closed_one)

later_lem : run 1 2 3 (Op.notified 0 (value 3) ∷ Op.received 0 ∷ []) closed_one ≡ ok later
unfolding run step notify receive
later_lem = refl

closed_subscription_final_example : ClosedAfter shut (later.subs 0)
closed_subscription_final_example =
    closed_subscription_final 1 2 3 0 (Op.notified 0 (value 3) ∷ Op.received 0 ∷ []) closed_one
      later (omega arith) refl later_lem

close_renewal_deadlock_example :
    (s : Locks) × Reach (both_begin 5 ((4 ∷ []) ++ (5 ∷ 6 ∷ []))) s
    × (s.closer ≡ Deadlock.holding)
    × (s.renewer ≡ Deadlock.renewing (5 ∷ 6 ∷ []))
    × ((t : Locks) → ¬ (Step s t))
close_renewal_deadlock_example =
    close_renewal_deadlock 5 (4 ∷ []) (6 ∷ []) ((λ e. omega (arith, e)), tt)
