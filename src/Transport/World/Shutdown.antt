-- ===== src/Transport/World/Shutdown.antt =====
-- internal/transport/conn.go: the shutdown of a connection.
use goadstc.Base.{◌≡◌, ◌≢◌, refl, sym, ◌∙◌, true, none}
use goadstc.Transport.Conn.{connected, Conn}
use goadstc.Transport.World.{World, Reach}
use goadstc.Transport.World.Kept.{IsKept, Reach-keeps}
use goadstc.Transport.World.Frame.{Frame-IsKept}

abbrev pub Left : Conn → Type 0
Left c = c.state ≢ connected

abbrev NoMap : Conn → Type 0
NoMap c = c.pending ≡ none

abbrev ShutDown : Conn → Type 0
ShutDown c = c.shutdown ≡ true

abbrev Drained : Conn → Type 0
Drained c = c.responses_closed ≡ true

pub Left-IsKept : IsKept Left
Left-IsKept =
    Frame-IsKept Left (λ c c' f q p. q (sym f.0 ∙ p)) (λ e c q p. cc) (λ c q. q)
      (λ c q. (λ p. cc, λ p. cc)) (λ c q. q)

NoMap-IsKept : IsKept NoMap
NoMap-IsKept =
    Frame-IsKept NoMap (λ c c' f q. f.3 q) (λ e c q. q) (λ c q. q) (λ c q. (q, q)) (λ c q. q)

ShutDown-IsKept : IsKept ShutDown
ShutDown-IsKept =
    Frame-IsKept ShutDown (λ c c' f q. f.1 ∙ q) (λ e c q. q) (λ c q. q) (λ c q. (q, q))
      (λ c q. refl)

Drained-IsKept : IsKept Drained
Drained-IsKept =
    Frame-IsKept Drained (λ c c' f q. f.2 ∙ q) (λ e c q. q) (λ c q. refl) (λ c q. (q, q)) (λ c q. q)

-- However the threads interleave, four things are final: a connection that is not connected never
-- is connected again, a map of pending calls that is nil stays nil, the shutdown stays signalled,
-- and a closed queue of responses stays closed.
pub shutdown_is_final :
    {w u : World}
    → Reach w u
    → (w.conn.state ≢ connected → u.conn.state ≢ connected)
      × (w.conn.pending ≡ none → u.conn.pending ≡ none)
      × (w.conn.shutdown ≡ true → u.conn.shutdown ≡ true)
      × (w.conn.responses_closed ≡ true → u.conn.responses_closed ≡ true)
shutdown_is_final r = (
  Reach-keeps Left Left-IsKept r,
  Reach-keeps NoMap NoMap-IsKept r,
  Reach-keeps ShutDown ShutDown-IsKept r,
  Reach-keeps Drained Drained-IsKept r,
)
