-- ===== src/Client/Reconnect/Recovery.antt =====
-- client.go: reconnectLoop reaches the first attempt that connects.
use goadstc.Base.{
  ℕ, zero, suc, ◌+◌, ◌≤◌, ◌<◌, ◌≡◌, ◌&&◌, refl, sym, ap, ◌∙◌, Bool, true, false, Option, none, some,
  List, [], ◌∷◌, ◌++◌, ◌==◌, arith,
}
use mathlib.Core.Path.{subst}
use mathlib.Core.List.{append_assoc}
use goadstc.Go.{ok, bind-ok}
use goadstc.Go.Strings.{text}
use goadstc.Errors.{GoError}
use goadstc.Ams.Packet.{Packet}
use goadstc.Metrics.{Event, connection_attempt}
use goadstc.Errors.Classify.{classify_error-returns}
use goadstc.Client.Retry.{Answer, answered, failed}
use goadstc.Client.Reconnect.{
  ConnectError, dial, verification, verification_ads, Attempt, Connected, connect, verify, verified,
  dialed, failure_events, Renewal, renews, waits, Rounds, Loop, renewing, reconnected, next_backoff,
  record_attempt, failed_attempt, renew, after_connect, reconnect_loop, run_reconnect_loop,
}
use goadstc.Client.Subscriptions.{NoError, reestablish_subscriptions}
use goadstc.Client.Subscriptions.Invariant.{Sound}
use goadstc.Client.Subscriptions.Renewal.{reestablish_subscriptions-Sound}
use goadstc.Client.Reconnect.Backoff.{backoff_at}

-- Whether an attempt dials and gets an answer without an ADS error.
unfoldable pub verifies : Answer → Bool
verifies (failed e) = false
verifies (answered p) = p.header.error_code == 0

unfoldable pub dials : Option GoError → Bool
dials none = true
dials (some e) = false

unfoldable pub succeeds : Attempt → Bool
unfolding dials verifies
succeeds a = dials a.dialing && verifies a.answer

-- The pauses of `n` attempts, the first of them after `i` failures.
unfoldable pub backoffs : ℕ → ℕ → ℕ → List ℕ
backoffs max_delay i zero = []
backoffs max_delay i (suc n) = backoff_at max_delay i ∷ backoffs max_delay (suc i) n

-- What connect says of an attempt.
abbrev Says : Bool → Connected → Type 0
Says true r = (r.failure ≡ none) × (r.has_conn ≡ true)
Says false r = (e : ConnectError) × (r.failure ≡ some e)

verified-Says : (p : Packet) (b : Bool) → Says b (verified p b)
unfolding verified
verified-Says p true = (refl, refl)
verified-Says p false = (verification_ads p.header.error_code, refl)

Says-events :
    (b : Bool) (r : Connected) (es : List Event) → Says b r → Says b (record r { events = es })
Says-events true r es s = s
Says-events false r es s = s

module _ (closed_at failed_at : ℕ) where
  failure_events-returns :
      (e : GoError) → (events : _) × (failure_events closed_at failed_at e ≡ ok events)
  unfolding failure_events
  failure_events-returns e =
      let (c, found) =
        classify_error-returns {E = NoError} closed_at failed_at e (text "connect") in
      (_, bind-ok _ found)

  verify-Says :
      (a : Answer) → (r : Connected) × (verify closed_at failed_at a ≡ ok r) × Says (verifies a) r
  unfolding verify verifies
  verify-Says (failed e) =
      let (events, found) = failure_events-returns e in (_, bind-ok _ found, (verification e, refl))
  verify-Says (answered p) = (_, refl, verified-Says p (p.header.error_code == 0))

  dialed-Says :
      (has_conn : Bool) (d : Option GoError) (a : Answer)
      → (r : Connected) × (dialed closed_at failed_at has_conn d a ≡ ok r)
        × Says (dials d && verifies a) r
  unfolding dialed dials
  dialed-Says has_conn none a =
      let (r, found, says) = verify-Says a in
      (
        record r { events = connection_attempt ∷ r.events },
        bind-ok _ found,
        Says-events (verifies a) r (connection_attempt ∷ r.events) says,
      )
  dialed-Says has_conn (some e) a =
      let (events, found) = failure_events-returns e in (_, bind-ok _ found, (dial e, refl))

  pub connect-Says :
      (has_conn : Bool) (a : Attempt)
      → (r : Connected) × (connect closed_at failed_at has_conn a ≡ ok r) × Says (succeeds a) r
  unfolding connect succeeds
  connect-Says has_conn a = dialed-Says has_conn a.dialing a.answer

-- The subscriptions that a renewal meets are such as the client's operations leave them.
abbrev pub RenewalSound : Renewal → Type 0
RenewalSound (renews s answers) = Sound s
RenewalSound waits = Unit

module _ (closed_at failed_at address : ℕ) where
  -- How the renewal `w` of attempt `n` leaves the loop.
  abbrev pub Renewed : Renewal → ℕ → Loop → Type 0
  Renewed (renews s answers) n l =
      (l.stage ≡ reconnected)
      × (l.reconnect_attempts ≡ 0)
      × (s' : _) × (reestablish_subscriptions closed_at failed_at address answers s ≡ ok s')
      × Sound s'
      × (l.renewed ≡ some s')
  Renewed waits n l = (l.stage ≡ renewing) × (l.reconnect_attempts ≡ n)

  -- A loop that has connected with attempt `n`, after the pauses `ps`.
  pub record Recovers (w : Renewal) (n : ℕ) (l : Loop) (ps : List ℕ) : Type 0 where
    pub renewal : Renewed w n l
    pub conn : l.has_conn ≡ true
    pub pauses : l.pauses ≡ ps

  renew-Recovers :
      (w : Renewal) (n : ℕ) (l : Loop)
      → RenewalSound w
      → l.reconnect_attempts ≡ n
      → l.has_conn ≡ true
      → (l' : Loop) × (renew closed_at failed_at address w l ≡ ok l') × Recovers w n l' l.pauses
  unfolding renew
  renew-Recovers (renews s answers) n l sound counter conn =
      let (s', found, sound') =
        reestablish_subscriptions-Sound closed_at failed_at address answers s sound in
      (
        record l { stage = reconnected; renewed = some s'; reconnect_attempts = 0 },
        bind-ok _ found,
        record { renewal = (refl, refl, s', found, sound', refl); conn = conn; pauses = refl },
      )
  renew-Recovers waits n l sound counter conn = (
    record l { stage = renewing },
    refl,
    record { renewal = (refl, counter); conn = conn; pauses = refl },
  )

module _ (closed_at failed_at address max_delay : ℕ) (env : Rounds) (k a b : ℕ) (l : Loop)
    (running : env.shut_down a ≡ false) where
  round_fails :
      succeeds (env.attempt a) ≡ false
      → (l' : Loop) × (reconnect_loop closed_at failed_at address max_delay env (suc k) a b l
          ≡ reconnect_loop closed_at failed_at address max_delay env k
              (a + 1)
              (next_backoff max_delay b)
              l')
        × (l'.pauses ≡ l.pauses ++ (b ∷ []))
  unfolding reconnect_loop after_connect
  round_fails no_success =
      let (r, found, says) = connect-Says closed_at failed_at l.has_conn (env.attempt a) in
      let (e, failure) = subst (λ s. Says s r) no_success says in
      (failed_attempt a b r l, rw running (bind-ok _ found ∙ rw failure refl), refl)

  round_succeeds :
      succeeds (env.attempt a) ≡ true
      → RenewalSound (env.renewal a)
      → (l' : Loop) × (reconnect_loop closed_at failed_at address max_delay env (suc k) a b l
          ≡ ok l')
        × Recovers closed_at failed_at address (env.renewal a) a l' (l.pauses ++ (b ∷ []))
  unfolding reconnect_loop after_connect
  round_succeeds success sound =
      let (r, found, says) = connect-Says closed_at failed_at l.has_conn (env.attempt a) in
      let (no_failure, conn) = subst (λ s. Says s r) success says in
      let (l', end, recovers) =
        renew-Recovers closed_at failed_at address (env.renewal a) a (record_attempt a b r l) sound
          refl conn in
      (l', rw running (bind-ok _ found ∙ rw no_failure end), recovers)

module _ (closed_at failed_at address max_delay : ℕ) (env : Rounds) (m : ℕ)
    (running : env.shut_down m ≡ false) (success : succeeds (env.attempt m) ≡ true)
    (sound : RenewalSound (env.renewal m)) where
  -- From attempt `a` on, with enough rounds for the one that succeeds, attempt `m`.
  reconnect_loop-Recovers :
      (n more c a i : ℕ) (l : Loop)
      → c ≡ n + more
      → m ≡ n + a
      → ((j : ℕ) → a ≤ j → j < m → (env.shut_down j ≡ false) × (succeeds (env.attempt j) ≡ false))
      → (l' : Loop) × (reconnect_loop closed_at failed_at address max_delay env
            (suc c)
            a
            (backoff_at max_delay i)
            l
          ≡ ok l')
        × Recovers closed_at failed_at address
            (env.renewal m)
            m
            l'
            (l.pauses ++ backoffs max_delay i (suc n))
  unfolding backoffs backoff_at
  reconnect_loop-Recovers zero more c a i l ec em before =
      let e : m ≡ a = omega arith in
      let (l', step, recovers) =
        round_succeeds closed_at failed_at address max_delay env c a (backoff_at max_delay i) l
          (subst (λ x. env.shut_down x ≡ false) e running)
          (subst (λ x. succeeds (env.attempt x) ≡ true) e success)
          (subst (λ x. RenewalSound (env.renewal x)) e sound) in
      let ps = l.pauses ++ (backoff_at max_delay i ∷ []) in
      (
        l',
        step,
        subst (λ x. Recovers closed_at failed_at address (env.renewal x) x l' ps) (sym e) recovers,
      )
  reconnect_loop-Recovers (suc n) more c a i l ec em before =
      let (open_a, fail_a) = before a (omega arith) (omega arith) in
      let (l', step, spent) =
        round_fails closed_at failed_at address max_delay env c a (backoff_at max_delay i) l open_a
          fail_a in
      let (l'', rest, recovers) =
        reconnect_loop-Recovers n more (n + more) (a + 1) (suc i) l' refl (omega arith)
          (λ j h k. before j (omega arith) k) in
      let left : c ≡ suc (n + more) = omega arith in
      (
        l'',
        step
            ∙ ap
                (λ x.
                  reconnect_loop closed_at failed_at address max_delay env x (a + 1)
                    (backoff_at max_delay (suc i)) l')
                left
            ∙ rest,
        subst (Recovers closed_at failed_at address (env.renewal m) m l'')
            (ap (λ ps. ps ++ backoffs max_delay (suc i) (suc n)) spent
              ∙ append_assoc l.pauses (backoff_at max_delay i ∷ []) _)
            recovers,
      )

-- The reconnection gets through. Where attempts 1 to `n` fail, attempt `n + 1` connects and gets an
-- answer without an ADS error, and no shutdown is taken before, reconnectLoop comes to the renewal of
-- the subscriptions with a connection, after `n + 1` pauses of one second, doubled each time up to the
-- maximum. Where the renewal gets its locks, and meets subscriptions such as the client's operations
-- leave them, it returns whatever the requests come to; the loop ends with the subscriptions
-- it makes and a counter of 0. Where it waits for a lock that never becomes free, the loop stays there, and the counter stays
-- `n + 1`.
pub run_reconnect_loop-Recovers :
    (closed_at failed_at address max_delay : ℕ) (env : Rounds) (n more : ℕ) (l : Loop)
    → ((j : ℕ) → 1 ≤ j → j < n + 1 → (env.shut_down j ≡ false) × (succeeds (env.attempt j) ≡ false))
    → env.shut_down (n + 1) ≡ false
    → succeeds (env.attempt (n + 1)) ≡ true
    → RenewalSound (env.renewal (n + 1))
    → (l' : Loop) × (run_reconnect_loop closed_at failed_at address max_delay env (suc (n + more)) l
        ≡ ok l')
      × Recovers closed_at failed_at address
          (env.renewal (n + 1))
          (n + 1)
          l'
          (l.pauses ++ backoffs max_delay 0 (suc n))
unfolding run_reconnect_loop backoff_at
run_reconnect_loop-Recovers closed_at failed_at address max_delay env n more l before running
      success sound =
    reconnect_loop-Recovers closed_at failed_at address max_delay env (n + 1) running success sound
      n more (n + more) 1 0 l refl refl before
