-- ===== src/Client/Subscriptions/Deadlock.antt =====
-- subscription.go and client.go: the locks that Close of a subscription and reestablishSubscriptions
-- take, one after the other, and the run in which they wait for each other.
use mathlib.Core.Path.{fun_ext, subst}
use goadstc.Base.{
  ℕ, ◌≡◌, ◌≢◌, refl, sym, ap, ◌∙◌, ◌⊎◌, inl, inr, Bool, true, false, List, [], ◌∷◌, ◌++◌, ◌==◌,
  arith, All, Bool-cases,
}
use goadstc.Transport.Conn.{set_at}

-- Where Close on one subscription stands: in front of it, with the subscription's lock, with the
-- lock of the client's map too, with the map unlocked while the PLC is asked, and behind it.
pub data Closer : Type 0 where
  called holding unregistering deleting returned : Closer

-- Where reestablishSubscriptions stands: in front of it, with the map's lock and these subscriptions
-- to go, with the lock of one subscription too, and behind the first part.
pub data Renewer : Type 0 where
  reconnected : Renewer
  renewing : List ℕ → Renewer
  closing : ℕ → List ℕ → Renewer
  subscribing : Renewer

pub record Locks : Type 0 where
  pub target : ℕ
  pub closer : Closer
  pub renewer : Renewer
  pub registered : List ℕ
  pub sub_locked : ℕ → Bool
  pub map_locked : Bool

pub data Step (s : Locks) : Locks → Type 0 where
  -- s.closeMu.Lock()
  close_begin :
      s.closer ≡ called
      → s.sub_locked s.target ≡ false
      → Step s (record s { closer = holding; sub_locked = set_at s.sub_locked s.target true })
  -- c.subscriptionsMu.Lock() in unregisterSubscription, and its end
  close_lock :
      s.closer ≡ holding
      → s.map_locked ≡ false
      → Step s (record s { closer = unregistering; map_locked = true })
  close_unlock :
      s.closer ≡ unregistering → Step s (record s { closer = deleting; map_locked = false })
  close_end :
      s.closer ≡ deleting
      → Step s (record s { closer = returned; sub_locked = set_at s.sub_locked s.target false })
  -- c.subscriptionsMu.Lock() in reestablishSubscriptions
  renew_begin :
      s.renewer ≡ reconnected
      → s.map_locked ≡ false
      → Step s (record s { renewer = renewing s.registered; map_locked = true })
  -- sub.closeMu.Lock() and Unlock() of one subscription
  renew_lock :
      (j : ℕ) (m : List ℕ)
      → s.renewer ≡ renewing (j ∷ m)
      → s.sub_locked j ≡ false
      → Step s (record s { renewer = closing j m; sub_locked = set_at s.sub_locked j true })
  renew_unlock :
      (j : ℕ) (m : List ℕ)
      → s.renewer ≡ closing j m
      → Step s (record s { renewer = renewing m; sub_locked = set_at s.sub_locked j false })
  renew_end :
      s.renewer ≡ renewing [] → Step s (record s { renewer = subscribing; map_locked = false })

pub data Reach (s : Locks) : Locks → Type 0 where
  here : Reach s s
  next : {t u : Locks} → Reach s t → Step t u → Reach s u

-- Close is about to be called on subscription `i`, and a reconnection has come about.
abbrev pub both_begin : ℕ → List ℕ → Locks
both_begin i m = record {
  target = i;
  closer = called;
  renewer = reconnected;
  registered = m;
  sub_locked = λ j. false;
  map_locked = false;
}

-- Close has its lock, and the renewal goes on with `m`.
abbrev halfway : ℕ → List ℕ → List ℕ → Locks
halfway i m rest = record {
  target = i;
  closer = holding;
  renewer = renewing rest;
  registered = m;
  sub_locked = set_at (λ j. false) i true;
  map_locked = true;
}

unlocked_again : (f : ℕ → Bool) (j : ℕ) → f j ≡ false → set_at (set_at f j true) j false ≡ f
unlocked_again f j h = fun_ext (λ k. back k (Bool-cases (k == j)))
  where
    back :
        (k : ℕ) → ((k == j) ≡ true) ⊎ ((k == j) ≡ false) → set_at (set_at f j true) j false k ≡ f k
    back k (inl e) = let same : j ≡ k = ground arith in rw e (sym h ∙ ap f same)
    back k (inr e) = rw e refl

-- The renewal passes the subscriptions in front of `i`.
halfway-pass :
    {s : Locks} (i : ℕ) (m xs rest : List ℕ)
    → All (λ j. j ≢ i) xs
    → Reach s (halfway i m (xs ++ rest))
    → Reach s (halfway i m rest)
halfway-pass i m [] rest a r = r
halfway-pass {s} i m (j ∷ xs) rest a r =
    let free : set_at (λ k. false) i true j ≡ false = ground (arith, a.0) in
    let after : Locks = record (halfway i m (xs ++ rest)) {
      sub_locked = set_at (set_at (set_at (λ k. false) i true) j true) j false;
    } in
    let same : after ≡ halfway i m (xs ++ rest) =
      ap (λ f. record (halfway i m (xs ++ rest)) { sub_locked = f })
        (unlocked_again (set_at (λ k. false) i true) j free) in
    halfway-pass i m xs rest a.1 (
      subst (Reach s) same
        (next (next r (renew_lock j (xs ++ rest) refl free)) (renew_unlock j (xs ++ rest) refl)))

-- For every subscription `i` of a client there is a run in which Close on it and the renewal after a
-- reconnection come to wait for each other for ever: Close has the subscription's lock and waits
-- for that of the map, which the renewal has, and the renewal waits for the subscription's.
pub close_renewal_deadlock :
    (i : ℕ) (xs ys : List ℕ)
    → All (λ j. j ≢ i) xs
    → (s : Locks) × Reach (both_begin i (xs ++ (i ∷ ys))) s
      × (s.closer ≡ holding)
      × (s.renewer ≡ renewing (i ∷ ys))
      × ((t : Locks) → ¬ (Step s t))
close_renewal_deadlock i xs ys a = (
  halfway i m (i ∷ ys),
  halfway-pass i m xs (i ∷ ys) a (next (next here (close_begin refl refl)) (renew_begin refl refl)),
  refl,
  refl,
  stuck,
)
  where
    m : List ℕ
    m = xs ++ (i ∷ ys)

    stuck : (t : Locks) → ¬ (Step (halfway i m (i ∷ ys)) t)
    stuck t (close_begin c f) = cc
    stuck t (close_lock c f) = cc
    stuck t (close_unlock c) = cc
    stuck t (close_end c) = cc
    stuck t (renew_begin c f) = cc
    stuck t (renew_lock j m' c f) = ground arith
    stuck t (renew_unlock j m' c) = cc
    stuck t (renew_end c) = cc
