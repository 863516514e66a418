-- ===== src/Client/Reconnect/Supervisor.antt =====
-- client.go: triggerReconnection and reconnectLoop as goroutines that share the counter under its
-- lock, and how many loops there can be.
use mathlib.Core.Path.{subst}
use goadstc.Base.{
  ℕ, Bool, true, false, if◌then◌else◌, ◌+◌, ◌≤◌, ◌<◌, ◌≡◌, ap, List, [], ◌∷◌, ◌++◌, length,
  length-append, All, arith,
}

-- Where a goroutine stands: a trigger that has passed its check and not yet started its loop, or a
-- loop that waits for its attempt `n`, is about to connect in it, or has connected and makes the
-- subscriptions again.
pub data Phase : Type 0 where
  starting : Phase
  waiting : ℕ → Phase
  connecting : ℕ → Phase
  restoring : Phase

pub record State : Type 0 where
  pub reconnect_attempts : ℕ
  pub loops : List Phase

-- One block of one goroutine, between two points where another can come between.
pub data Step (s : State) : State → Type 0 where
  -- triggerReconnection with a positive counter returns.
  skip : 0 < s.reconnect_attempts → Step s s
  -- With a counter of 0 it sets it to 1 and goes on.
  trigger :
      s.reconnect_attempts ≡ 0
      → Step s (record { reconnect_attempts = 1; loops = starting ∷ s.loops })
  -- `go c.reconnectLoop()`
  start :
      (xs ys : List Phase)
      → s.loops ≡ xs ++ (starting ∷ ys)
      → Step s (record s { loops = xs ++ (waiting 1 ∷ ys) })
  -- The pause is over, and the counter is set to the number of the attempt.
  fire :
      (xs ys : List Phase) (n : ℕ)
      → s.loops ≡ xs ++ (waiting n ∷ ys)
      → Step s (record { reconnect_attempts = n; loops = xs ++ (connecting n ∷ ys) })
  -- connect fails.
  again :
      (xs ys : List Phase) (n : ℕ)
      → s.loops ≡ xs ++ (connecting n ∷ ys)
      → Step s (record s { loops = xs ++ (waiting (n + 1) ∷ ys) })
  -- connect succeeds.
  connect :
      (xs ys : List Phase) (n : ℕ)
      → s.loops ≡ xs ++ (connecting n ∷ ys)
      → Step s (record s { loops = xs ++ (restoring ∷ ys) })
  -- The counter is set to 0 and the loop returns.
  finish :
      (xs ys : List Phase)
      → s.loops ≡ xs ++ (restoring ∷ ys)
      → Step s (record { reconnect_attempts = 0; loops = xs ++ ys })
  -- The client is closed, and select takes it.
  shut_down :
      (xs ys : List Phase) (n : ℕ)
      → s.loops ≡ xs ++ (waiting n ∷ ys)
      → Step s (record s { loops = xs ++ ys })

pub data Reach (s : State) : State → Type 0 where
  here : Reach s s
  next : {t u : State} → Reach s t → Step t u → Reach s u

-- The client of New: one that has connected, or one that has not, whose loop starts with the counter
-- at 0.
unfoldable pub new_client : Bool → State
new_client true = record { reconnect_attempts = 0; loops = [] }
new_client false = record { reconnect_attempts = 0; loops = waiting 1 ∷ [] }

-- The attempts of a loop are counted from 1 on.
abbrev Counted : Phase → Type 0
Counted starting = Unit
Counted (waiting n) = 0 < n
Counted (connecting n) = 0 < n
Counted restoring = Unit

-- At most `k` loops, and one less while the counter is 0.
record Inv (k : ℕ) (s : State) : Type 0 where
  few : length s.loops ≤ k + 1
  free : s.reconnect_attempts ≡ 0 → length s.loops ≤ k
  counted : All Counted s.loops

All-append : (xs ys : List Phase) → All Counted xs → All Counted ys → All Counted (xs ++ ys)
All-append [] ys a b = b
All-append (x ∷ xs) ys a b = (a.0, All-append xs ys a.1 b)

All-left : (xs ys : List Phase) → All Counted (xs ++ ys) → All Counted xs
All-left [] ys a = tt
All-left (x ∷ xs) ys a = (a.0, All-left xs ys a.1)

All-right : (xs ys : List Phase) → All Counted (xs ++ ys) → All Counted ys
All-right [] ys a = a
All-right (x ∷ xs) ys a = All-right xs ys a.1

module _ (k : ℕ) (s : State) (inv : Inv k s) (xs ys : List Phase) (p : Phase)
    (e : s.loops ≡ xs ++ (p ∷ ys)) where
  -- A loop moves on to `q`, and the counter to `c`.
  move-Inv :
      (c : ℕ) (q : Phase)
      → (c ≡ 0 → s.reconnect_attempts ≡ 0)
      → (Counted p → Counted q)
      → Inv k (record { reconnect_attempts = c; loops = xs ++ (q ∷ ys) })
  move-Inv c q same count =
      let parts = subst (All Counted) e inv.counted in
      let tail = All-right xs (p ∷ ys) parts in
      let size : length (xs ++ (q ∷ ys)) ≡ length s.loops =
        omega (arith, length-append xs (q ∷ ys), length-append xs (p ∷ ys), ap length e) in
      record {
        few = omega (arith, inv.few);
        free = λ z. omega (arith, inv.free (same z));
        counted = All-append xs (q ∷ ys) (All-left xs (p ∷ ys) parts) (count tail.0, tail.1);
      }

  -- A loop ends, and the counter is `c`.
  end-Inv : (c : ℕ) → Inv k (record { reconnect_attempts = c; loops = xs ++ ys })
  end-Inv c =
      let parts = subst (All Counted) e inv.counted in
      let size : length (xs ++ ys) + 1 ≡ length s.loops =
        omega (arith, length-append xs ys, length-append xs (p ∷ ys), ap length e) in
      record {
        few = omega (arith, inv.few);
        free = λ z. omega (arith, inv.few);
        counted = All-append xs ys (All-left xs (p ∷ ys) parts) (All-right xs (p ∷ ys) parts).1;
      }

  first-Counted : Counted p
  first-Counted = (All-right xs (p ∷ ys) (subst (All Counted) e inv.counted)).0

Step-Inv : {k : ℕ} {s t : State} → Inv k s → Step s t → Inv k t
Step-Inv inv (skip h) = inv
Step-Inv {k} {s} inv (trigger h) = record {
  few = omega (arith, inv.free h);
  free = λ z. absurd (omega arith);
  counted = (tt, inv.counted);
}
Step-Inv {k} {s} inv (start xs ys e) =
    move-Inv k s inv xs ys starting e s.reconnect_attempts (waiting 1) (λ z. z) (λ u. omega arith)
Step-Inv {k} {s} inv (fire xs ys n e) =
    move-Inv k s inv xs ys (waiting n) e n (connecting n)
      (λ z. absurd (omega (arith, first-Counted k s inv xs ys (waiting n) e))) (λ u. u)
Step-Inv {k} {s} inv (again xs ys n e) =
    move-Inv k s inv xs ys (connecting n) e s.reconnect_attempts (waiting (n + 1)) (λ z. z)
      (λ u. omega arith)
Step-Inv {k} {s} inv (connect xs ys n e) =
    move-Inv k s inv xs ys (connecting n) e s.reconnect_attempts restoring (λ z. z) (λ u. tt)
Step-Inv {k} {s} inv (finish xs ys e) = end-Inv k s inv xs ys restoring e 0
Step-Inv {k} {s} inv (shut_down xs ys n e) =
    end-Inv k s inv xs ys (waiting n) e s.reconnect_attempts

Reach-Inv : {k : ℕ} {s t : State} → Inv k s → Reach s t → Inv k t
Reach-Inv inv here = inv
Reach-Inv inv (next r st) = Step-Inv (Reach-Inv inv r) st

-- Whatever the order in which errors trigger reconnections and loops fail or succeed, there is never
-- more than one loop, or trigger about to start one, in a client that New has connected, and never
-- more than two in one that it has not.
pub reconnect_loops_bounded :
    (connected : Bool) (s : State)
    → Reach (new_client connected) s
    → length s.loops ≤ (if connected then 1 else 2)
unfolding new_client
reconnect_loops_bounded true s r =
    (Reach-Inv {k = 0} (record { few = omega arith; free = λ z. omega arith; counted = tt }) r).few
reconnect_loops_bounded false s r =
    (Reach-Inv {k = 1}
      (record { few = omega arith; free = λ z. omega arith; counted = (omega arith, tt) }) r).few
