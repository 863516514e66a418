-- ===== src/Client/Subscriptions/Routing.antt =====
-- client_notifications.go: where the samples of a notification go.
use mathlib.Core.List.{append_assoc, append-nil}
use goadstc.Base.{
  ℕ, zero, suc, ◌+◌, ◌≤◌, ◌≡◌, refl, sym, ap, ◌∙◌, ◌⊎◌, inl, inr, Bool, true, false, Option, none,
  some, List, [], ◌∷◌, ◌++◌, ◌==◌, ltb, length, take, if◌then◌else◌, arith, All, Bool-cases,
  Option-cases,
}
use goadstc.Go.{ok, bind-ok, IsU32}
use goadstc.Go.IntMap.{lookup}
use goadstc.Ams.Packet.{Packet}
use goadstc.Ads.Notification.{NotificationSample, StampHeader, unmarshal_notification}
use goadstc.Ads.Notification.RoundTrip.{
  StampFits, stamps_wire, notification_wire, unmarshal_notification-wire,
}
use goadstc.Transport.Conn.{set_at}
use goadstc.Client.Subscriptions.{
  Notification, Subscription, State, update_sub, capacity, send_notification, notify, unix_nano,
  route, route_samples, route_stamps, route_decoded, handle_notification,
}
use goadstc.Client.Subscriptions.Invariant.{SubSound, Sound, notify-SubSound, update_sub-Sound}

-- The notifications of the samples with handle `h`.
unfoldable pub mine_of_sample : ℕ → NotificationSample → ℕ → List Notification
mine_of_sample timestamp x h =
    if x.notification_handle == h then record { body = x.body; timestamp = timestamp } ∷ [] else []

unfoldable pub mine_of_samples : ℕ → List NotificationSample → ℕ → List Notification
mine_of_samples timestamp [] h = []
mine_of_samples timestamp (x ∷ xs) h =
    mine_of_sample timestamp x h ++ mine_of_samples timestamp xs h

unfoldable pub mine : List StampHeader → ℕ → List Notification
mine [] h = []
mine (t ∷ ts) h = mine_of_samples (unix_nano t.timestamp) t.samples h ++ mine ts h

-- Whether the map leads from the handle of a subscription to it.
unfoldable pub owns : State → ℕ → Bool
owns s i = elim (lookup (s.subs i).handle s.registry) [ none ↦ false | some j ↦ j == i ]

-- A queue behind which `ns` have been sent, as far as there was room.
abbrev pub accepted : List Notification → List Notification → List Notification
accepted q ns = take capacity (q ++ ns)

take-take_append :
    {A : Type 0} (n : ℕ) (xs ys : List A) → take n (take n xs ++ ys) ≡ take n (xs ++ ys)
take-take_append zero xs ys = refl
take-take_append (suc n) [] ys = refl
take-take_append (suc n) (x ∷ xs) ys = ap (◌∷◌ x) (take-take_append n xs ys)

take_all : {A : Type 0} (n : ℕ) (xs : List A) → length xs ≤ n → take n xs ≡ xs
take_all zero [] h = refl
take_all zero (x ∷ xs) h = absurd (omega arith)
take_all (suc n) [] h = refl
take_all (suc n) (x ∷ xs) h = ap (◌∷◌ x) (take_all n xs (omega arith))

-- One more element, as far as there is room.
take-snoc :
    {A : Type 0} (n : ℕ) (xs : List A) (y : A)
    → length xs ≤ n
    → take n (xs ++ (y ∷ [])) ≡ (if ltb (length xs) n then xs ++ (y ∷ []) else xs)
take-snoc zero [] y h = ground arith
take-snoc zero (x ∷ xs) y h = absurd (omega arith)
take-snoc (suc zero) [] y h = ground arith
take-snoc (suc (suc n)) [] y h = ground arith
take-snoc (suc n) (x ∷ xs) y h = ground (arith, take-snoc n xs y)

accepted-nil : (q : List Notification) → length q ≤ capacity → accepted q [] ≡ q
accepted-nil q h = ap (take capacity) (append-nil q) ∙ take_all capacity q h

accepted-append : (q a b : List Notification) → accepted (accepted q a) b ≡ accepted q (a ++ b)
accepted-append q a b =
    take-take_append capacity (q ++ a) b ∙ ap (take capacity) (append_assoc q a b)

-- The notifications `f h` have been sent to the subscription of handle `h`, for every `h`.
record Delivers (s s' : State) (f : ℕ → List Notification) : Type 0 where
  sound : Sound s'
  registry : s'.registry ≡ s.registry
  handle : (i : ℕ) → (s'.subs i).handle ≡ (s.subs i).handle
  queue :
      (i : ℕ)
      → (s'.subs i).queue
        ≡ (if owns s i then accepted (s.subs i).queue (f (s.subs i).handle) else (s.subs i).queue)

Delivers-nil : (s : State) → Sound s → Delivers s s (λ h. [])
Delivers-nil s v = record {
  sound = v;
  registry = refl;
  handle = λ i. refl;
  queue = λ i. ground (arith, accepted-nil (s.subs i).queue ((v.all i).small));
}

owns_same :
    (s t : State) (i : ℕ)
    → t.registry ≡ s.registry
    → (t.subs i).handle ≡ (s.subs i).handle
    → owns t i ≡ owns s i
unfolding owns
owns_same s t i r h = rw (h, r, owns) refl

Delivers-append :
    (s t u : State) (f g : ℕ → List Notification)
    → Delivers s t f
    → Delivers t u g
    → Delivers s u (λ h. f h ++ g h)
Delivers-append s t u f g d e = record {
  sound = e.sound;
  registry = e.registry ∙ d.registry;
  handle = λ i. e.handle i ∙ d.handle i;
  queue = λ i. both i (Bool-cases (owns s i));
}
  where
    both :
        (i : ℕ)
        → (owns s i ≡ true) ⊎ (owns s i ≡ false)
        → (u.subs i).queue ≡ (
            if owns s i
            then accepted (s.subs i).queue (f (s.subs i).handle ++ g (s.subs i).handle)
            else (s.subs i).queue)
    both i (inl y) =
        e.queue i
        ∙ rw (owns_same s t i d.registry (d.handle i), d.handle i, d.queue i, y)
            (accepted-append (s.subs i).queue (f (s.subs i).handle) (g (s.subs i).handle))
    both i (inr n) =
        e.queue i ∙ rw (owns_same s t i d.registry (d.handle i), n) (d.queue i ∙ rw n refl)

-- notify on an open subscription.
notify-queue :
    (n : Notification) (sub : Subscription) {sub' : Subscription}
    → SubSound sub
    → sub.is_closed ≡ false
    → notify n sub ≡ ok sub'
    → sub'.queue ≡ accepted sub.queue (n ∷ [])
unfolding notify send_notification
notify-queue n sub v c e = ground (arith, v.channel, take-snoc capacity sub.queue n v.small)

-- A queue that a subscription keeps, whether it is the owner of its handle or not.
kept_queue :
    (b : Bool) (q : List Notification) (ns : List Notification)
    → length q ≤ capacity
    → ns ≡ []
    → q ≡ (if b then accepted q ns else q)
kept_queue false q ns h e = refl
kept_queue true q ns h e = sym (ap (accepted q) e ∙ accepted-nil q h)

module _ (timestamp : ℕ) (x : NotificationSample) (s : State) (v : Sound s) where
  n : Notification
  n = record { body = x.body; timestamp = timestamp }

  -- The owner of handle `h`, if the map has one.
  owns_by :
      (i : ℕ) (o : Option ℕ)
      → lookup x.notification_handle s.registry ≡ o
      → (x.notification_handle == (s.subs i).handle) ≡ true
      → owns s i ≡ (elim o as (λ y. Bool) [ none ↦ false | some j ↦ j == i ])
  unfolding owns
  owns_by i o e same =
      let h : (s.subs i).handle ≡ x.notification_handle = ground arith in rw (h, e, owns) refl

  -- A subscription that the sample does not reach.
  kept :
      (i : ℕ) (o : Option ℕ)
      → lookup x.notification_handle s.registry ≡ o
      → (elim o as (λ y. Bool) [ none ↦ false | some j ↦ j == i ]) ≡ false
      → (s.subs i).queue ≡ (
          if owns s i
          then accepted (s.subs i).queue (mine_of_sample timestamp x (s.subs i).handle)
          else (s.subs i).queue)
  unfolding mine_of_sample
  kept i o e other = elim (Bool-cases (x.notification_handle == (s.subs i).handle)) [
    | inl same ↦ rw (owns_by i o e same ∙ other) refl
    | inr differs ↦ kept_queue (owns s i) (s.subs i).queue _ (v.all i).small (rw differs refl)
  ]

  reached :
      (i j : ℕ) (sub : Subscription)
      → lookup x.notification_handle s.registry ≡ some j
      → sub.queue ≡ accepted (s.subs j).queue (n ∷ [])
      → (set_at s.subs j sub i).queue ≡ (
          if owns s i
          then accepted (s.subs i).queue (mine_of_sample timestamp x (s.subs i).handle)
          else (s.subs i).queue)
  unfolding mine_of_sample n
  reached i j sub e q = elim (Bool-cases (i == j)) [
    | inr other ↦ rw other (kept i (some j) e (ground arith))
    | inl own ↦
        let same : i ≡ j = ground arith in
        let (_, h, _) = v.registered x.notification_handle j e in
        let mine_i : (x.notification_handle == (s.subs i).handle) ≡ true = ground arith in
        let own' : (j == i) ≡ true = ground arith in
        rw own (
          rw (owns_by i (some j) e mine_i ∙ own', mine_i)
            (q ∙ ap (λ k. accepted (s.subs k).queue (n ∷ [])) (sym same)))
  ]

  route-Delivers :
      (s' : State) × (route timestamp x s ≡ ok s') × Delivers s s' (mine_of_sample timestamp x)
  unfolding route
  route-Delivers = elim (Option-cases (lookup x.notification_handle s.registry)) [
    | inl e ↦ (
      s,
      rw (e, route) refl,
      record { sound = v; registry = refl; handle = λ i. refl; queue = λ i. kept i none e refl },
    )
    | inr (j, e) ↦
        let (sub, found, sound, handle, same) = notify-SubSound n (s.subs j) (v.all j) in
        let (_, _, opened) = v.registered x.notification_handle j e in
        (
          update_sub j sub s,
          rw (e, route) (unfold n in bind-ok _ found),
          record {
            sound = update_sub-Sound j sub s v sound handle same;
            registry = refl;
            handle = λ i. ground arith;
            queue = λ i. reached i j sub e (notify-queue n (s.subs j) (v.all j) opened found);
          },
        )
  ]

route_samples-Delivers :
    (timestamp : ℕ) (xs : List NotificationSample) (s : State)
    → Sound s
    → (s' : State) × (route_samples timestamp xs s ≡ ok s')
      × Delivers s s' (mine_of_samples timestamp xs)
unfolding route_samples mine_of_samples
route_samples-Delivers timestamp [] s v = (s, refl, Delivers-nil s v)
route_samples-Delivers timestamp (x ∷ xs) s v =
    let (t, found, d) = route-Delivers timestamp x s v in
    let (u, rest, e) = route_samples-Delivers timestamp xs t d.sound in
    (
      u,
      bind-ok _ found ∙ rest,
      Delivers-append s t u (mine_of_sample timestamp x) (mine_of_samples timestamp xs) d e,
    )

route_stamps-Delivers :
    (ts : List StampHeader) (s : State)
    → Sound s
    → (s' : State) × (route_stamps ts s ≡ ok s') × Delivers s s' (mine ts)
unfolding route_stamps mine
route_stamps-Delivers [] s v = (s, refl, Delivers-nil s v)
route_stamps-Delivers (t ∷ ts) s v =
    let time = unix_nano t.timestamp in
    let (s', found, d) = route_samples-Delivers time t.samples s v in
    let (u, rest, e) = route_stamps-Delivers ts s' d.sound in
    (
      u,
      bind-ok _ found ∙ rest,
      Delivers-append s s' u (mine_of_samples time t.samples) (mine ts) d e,
    )

-- A packet with a well-formed notification reaches exactly the subscriptions of its handles: behind
-- the queue of each come, in order, the samples of its handle with their times in nanoseconds, as
-- many as there is room for, and every other queue stays as it is. The map of handles stays too.
pub handle_notification-wire :
    (ts : List StampHeader) (rest : List ℕ) (p : Packet) (s : State)
    → All StampFits ts
    → IsU32 (length ts)
    → IsU32 (8 + length (stamps_wire ts) + length rest)
    → p.body.bytes ≡ notification_wire ts ++ rest
    → Sound s
    → (s' : State) × (handle_notification p s ≡ ok s')
      × (s'.registry ≡ s.registry)
      × ((i : ℕ)
          → (s'.subs i).queue ≡ (
              if owns s i
              then take capacity ((s.subs i).queue ++ mine ts (s.subs i).handle)
              else (s.subs i).queue))
unfolding handle_notification route_decoded
handle_notification-wire ts rest p s fits count small e v =
    let (s', found, d) = route_stamps-Delivers ts s v in
    let decoded : unmarshal_notification p.body ≡ ok ts =
      (ap (λ xs. unmarshal_notification (record { bytes = xs; spare = p.body.spare })) e
        ∙ unmarshal_notification-wire ts rest p.body.spare fits count small) in
    (s', ap (route_decoded s) decoded ∙ found, d.registry, d.queue)
