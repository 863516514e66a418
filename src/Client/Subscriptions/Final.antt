-- ===== src/Client/Subscriptions/Final.antt =====
-- subscription.go: a closed subscription stays closed and gets nothing more.
use mathlib.Core.Path.{subst}
use goadstc.Base.{
  ℕ, zero, suc, ◌+◌, ◌<◌, ◌≡◌, refl, sym, ap, ◌∙◌, ◌⊎◌, inl, inr, true, List, [], ◌∷◌, ◌==◌, drop,
  if◌then◌else◌, arith, Bool-cases,
}
use goadstc.Go.{Result, ok, err, panic, ◌>>=◌, bind-eq-ok}
use goadstc.Go.IntMap.{IntEntries}
use goadstc.Ams.Packet.{Packet}
use goadstc.Ads.Responses
use goadstc.Ads.Responses.{unmarshal_add_notification, AddDeviceNotificationResponse}
use goadstc.Errors.{classify_error}
use goadstc.Go.Strings.{text}
use goadstc.Client.Failure.{go_error}
use goadstc.Transport.Conn.{set_at}
use goadstc.Client.Retry.{Error}
use goadstc.Client.Subscriptions.{
  Notification, NotificationOptions, Subscription, State, NoError, SubscribeError, update_sub,
  close_channel, notify, receive, close_open, unregister_subscription, close, add_subscription,
  subscribe_answered, subscribe, close_registered, Op, notified, received, subscribed, closed,
  cleared, step, run,
}

-- Closed, with what is left of a queue after some receives.
pub record ClosedAfter (sub sub' : Subscription) : Type 0 where
  pub still : sub'.is_closed ≡ true
  pub taken : ℕ
  pub rest : sub'.queue ≡ drop taken sub.queue

List-cases {ℓ} : {A : Type ℓ} (xs : List A) → (xs ≡ []) ⊎ ((y : A) × (ys : List A) × (xs ≡ y ∷ ys))
List-cases [] = inl refl
List-cases (y ∷ ys) = inr (y, ys, refl)

ClosedAfter-refl : (sub : Subscription) → sub.is_closed ≡ true → ClosedAfter sub sub
ClosedAfter-refl sub c = record { still = c; taken = 0; rest = refl }

drop-nil : {A : Type 0} (n : ℕ) → drop {A = A} n [] ≡ []
drop-nil zero = refl
drop-nil (suc n) = refl

drop-drop : {A : Type 0} (m n k : ℕ) (xs : List A) → k ≡ n + m → drop m (drop n xs) ≡ drop k xs
drop-drop m zero k xs e = let e' : m ≡ k = omega arith in ap (λ j. drop j xs) e'
drop-drop m (suc n) k [] e = drop-nil m ∙ sym (drop-nil k)
drop-drop m (suc n) k (x ∷ xs) e =
    let e' : suc (n + m) ≡ k = omega arith in
    drop-drop m n (n + m) xs refl ∙ ap (λ j. drop j (x ∷ xs)) e'

ClosedAfter-trans : {a b c : Subscription} → ClosedAfter a b → ClosedAfter b c → ClosedAfter a c
ClosedAfter-trans {a} p q = record {
  still = q.still;
  taken = p.taken + q.taken;
  rest =
      q.rest
      ∙ ap (drop q.taken) p.rest
      ∙ drop-drop q.taken p.taken (p.taken + q.taken) a.queue refl;
}

notify-ClosedAfter :
    (n : Notification) (sub : Subscription) {sub' : Subscription}
    → sub.is_closed ≡ true
    → notify n sub ≡ ok sub'
    → ClosedAfter sub sub'
unfolding notify
notify-ClosedAfter n sub c e = record { still = ground arith; taken = 0; rest = ground arith }

receive-ClosedAfter : (sub : Subscription) → sub.is_closed ≡ true → ClosedAfter sub (receive sub)
unfolding receive
receive-ClosedAfter sub c = elim (List-cases sub.queue) [
  | inl e ↦ record { still = ground arith; taken = 0; rest = ground arith }
  | inr (n, ns, e) ↦ record { still = ground arith; taken = 1; rest = ground arith }
]

-- What happens between two states to the closed subscription `i`.
record Keeps (i : ℕ) (s s' : State) : Type 0 where
  made : i < s'.made
  sub : ClosedAfter (s.subs i) (s'.subs i)

-- Subscription `j` is set, and `made` does not fall.
set-Keeps :
    (i j : ℕ) (s s' : State) (sub : Subscription)
    → i < s'.made
    → s'.subs ≡ set_at s.subs j sub
    → (s.subs i).is_closed ≡ true
    → (j ≡ i → ClosedAfter (s.subs i) sub)
    → Keeps i s s'
set-Keeps i j s s' sub m e c own = record {
  made = m;
  sub = subst (λ f. ClosedAfter (s.subs i) (f i)) (sym e) kept;
}
  where
    kept : ClosedAfter (s.subs i) (set_at s.subs j sub i)
    kept = elim (Bool-cases (i == j)) [
      | inl h ↦ rw h (own (ground arith))
      | inr h ↦ rw h (ClosedAfter-refl (s.subs i) c)
    ]

module _ (i : ℕ) (s : State) (before : i < s.made) (c : (s.subs i).is_closed ≡ true) where
  same-Keeps : Keeps i s s
  same-Keeps = record { made = before; sub = ClosedAfter-refl (s.subs i) c }

  close-Keeps :
      (answer : Error ⊎ Packet) (j : ℕ) {s' : State} → close answer j s ≡ ok s' → Keeps i s s'
  unfolding close unregister_subscription
  close-Keeps answer j {s'} e = elim (Bool-cases (s.subs j).is_closed) [
    | inl closed_j ↦ subst (Keeps i s) (cc (rw closed_j at e)) same-Keeps
    | inr open_j ↦
        let f : Subscription → Result NoError State =
          λ sub. ok (update_sub j sub (unregister_subscription (s.subs j).handle s)) in
        let (sub, found, rest) = bind-eq-ok (close_open answer (s.subs j)) f (rw open_j at e) in
        subst (Keeps i s) (cc rest) (
          set-Keeps i j s (update_sub j sub (unregister_subscription (s.subs j).handle s)) sub
            before refl c (λ h. absurd (ground arith)))
  ]

  subscribe_answered-Keeps :
      (opts : NotificationOptions) (r : Result Responses.Error AddDeviceNotificationResponse)
      {x : SubscribeError ⊎ ℕ} {s' : State}
      → subscribe_answered opts s r ≡ ok (x, s')
      → Keeps i s s'
  unfolding subscribe_answered add_subscription
  subscribe_answered-Keeps opts (ok resp) {s' = s'} e = elim (Bool-cases (resp.result == 0)) [
    | inl h ↦ subst (Keeps i s) (cc (rw h at e)) (
        set-Keeps i s.made s (add_subscription opts resp.notification_handle s) _ (omega arith) refl
          c (λ h. absurd (omega arith)))
    | inr h ↦ subst (Keeps i s) (cc (rw h at e)) same-Keeps
  ]
  subscribe_answered-Keeps opts (err x) e = subst (Keeps i s) (cc e) same-Keeps
  subscribe_answered-Keeps opts panic e = cc

  subscribe-Keeps :
      (closed_at failed_at address : ℕ) (opts : NotificationOptions) (answer : Error ⊎ Packet)
      {x : SubscribeError ⊎ ℕ} {s' : State}
      → subscribe closed_at failed_at address opts answer s ≡ ok (x, s')
      → Keeps i s s'
  unfolding subscribe
  subscribe-Keeps closed_at failed_at address opts (inl e') e =
      let (ce, found, rest) =
        bind-eq-ok
          (classify_error {E = NoError} closed_at failed_at (go_error address e')
            (text "subscribe"))
          _ e in
      subst (Keeps i s) (cc rest) same-Keeps
  subscribe-Keeps closed_at failed_at address opts (inr p) e =
      subscribe_answered-Keeps opts (unmarshal_add_notification p.body) e

closed_sub-After :
    (sub : Subscription) {sub' : Subscription}
    → sub.is_closed ≡ true
    → (if sub.is_closed then ok sub else close_channel (record sub { is_closed = true })) ≡ ok sub'
    → ClosedAfter sub sub'
closed_sub-After sub c e = record { still = ground arith; taken = 0; rest = ground arith }

Keeps-trans : {i : ℕ} {s t u : State} → Keeps i s t → Keeps i t u → Keeps i s u
Keeps-trans p q = record { made = q.made; sub = ClosedAfter-trans p.sub q.sub }

close_registered-Keeps :
    (i : ℕ) (m : IntEntries ℕ) (s : State) {opts : List NotificationOptions} {s' : State}
    → i < s.made
    → (s.subs i).is_closed ≡ true
    → close_registered m s ≡ ok (opts, s')
    → Keeps i s s'
unfolding close_registered
close_registered-Keeps i [] s before c e = subst (Keeps i s) (cc e) (same-Keeps i s before c)
close_registered-Keeps i ((h, j) ∷ m) s {opts} {s'} before c e =
    let close_one : Result NoError Subscription =
      if (s.subs j).is_closed
      then ok (s.subs j)
      else close_channel (record (s.subs j) { is_closed = true }) in
    let add : List NotificationOptions × State → Result NoError (List NotificationOptions × State) =
      λ p. ok ((s.subs j).opts ∷ p.0, p.1) in
    let (sub, found, rest) =
      bind-eq-ok close_one (λ sub. close_registered m (update_sub j sub s) >>= add) e in
    let t = update_sub j sub s in
    let first = set-Keeps i j s t sub before refl c (λ h.
      subst (λ k. ClosedAfter (s.subs k) sub) h
        (closed_sub-After (s.subs j) (subst (λ k. (s.subs k).is_closed ≡ true) (sym h) c) found)) in
    let (r, found', rest') = bind-eq-ok (close_registered m t) add rest in
    subst (Keeps i s) (cc rest')
      (Keeps-trans first (close_registered-Keeps i m t first.made first.sub.still found'))

module _ (closed_at failed_at address i : ℕ) where
  step-Keeps :
      (op : Op) (s : State) {s' : State}
      → i < s.made
      → (s.subs i).is_closed ≡ true
      → step closed_at failed_at address op s ≡ ok s'
      → Keeps i s s'
  unfolding step
  step-Keeps (notified j n) s before c e =
      let (sub, found, rest) =
        bind-eq-ok (notify n (s.subs j)) (λ sub. ok (update_sub j sub s)) e in
      subst (Keeps i s) (cc rest) (
        set-Keeps i j s (update_sub j sub s) sub before refl c (λ h.
          subst (λ k. ClosedAfter (s.subs k) sub) h
            (notify-ClosedAfter n (s.subs j) (subst (λ k. (s.subs k).is_closed ≡ true) (sym h) c)
              found)))
  step-Keeps (received j) s before c e = subst (Keeps i s) (cc e) (
      set-Keeps i j s (update_sub j (receive (s.subs j)) s) (receive (s.subs j)) before refl c (λ h.
        subst (λ k. ClosedAfter (s.subs k) (receive (s.subs j))) h
          (receive-ClosedAfter (s.subs j) (subst (λ k. (s.subs k).is_closed ≡ true) (sym h) c))))
  step-Keeps (subscribed opts answer) s before c e =
      let (r, found, rest) =
        bind-eq-ok (subscribe closed_at failed_at address opts answer s) (λ r. ok r.1) e in
      subst (Keeps i s) (cc rest)
        (subscribe-Keeps i s before c closed_at failed_at address opts answer found)
  step-Keeps (closed j answer) s before c e = close-Keeps i s before c answer j e
  step-Keeps cleared s before c e =
      let (r, found, rest) =
        bind-eq-ok (close_registered s.registry s) (λ r. ok (record r.1 { registry = [] })) e in
      let k = close_registered-Keeps i s.registry s before c found in
      let t = record r.1 { registry = [] } in
      let kept : Keeps i s t = record { made = k.made; sub = k.sub } in
      subst (Keeps i s) (cc rest) kept

  -- After Close, or a renewal, a subscription stays closed and is sent nothing more, whatever else
  -- happens: its queue is what was in it then, less what has been received from it.
  pub closed_subscription_final :
      (ops : List Op) (s s' : State)
      → i < s.made
      → (s.subs i).is_closed ≡ true
      → run closed_at failed_at address ops s ≡ ok s'
      → ClosedAfter (s.subs i) (s'.subs i)
  unfolding run
  closed_subscription_final [] s s' before c e =
      let same : s ≡ s' = cc e in
      subst (λ (t : State). ClosedAfter (s.subs i) (t.subs i)) same (ClosedAfter-refl (s.subs i) c)
  closed_subscription_final (op ∷ ops) s s' before c e =
      let (t, found, rest) =
        bind-eq-ok (step closed_at failed_at address op s) (run closed_at failed_at address ops)
          e in
      let k = step-Keeps op s before c found in
      ClosedAfter-trans k.sub (closed_subscription_final ops t s' k.made k.sub.still rest)
