-- ===== src/Client/Subscriptions/Renewal.antt =====
-- client.go, reestablishSubscriptions: it returns, and keeps the subscriptions sound.
use goadstc.Base.{ℕ, ◌≡◌, refl, ◌∙◌, ◌⊎◌, List, [], ◌∷◌, length}
use goadstc.Go.{ok, bind-ok}
use goadstc.Go.IntMap.{lookup}
use goadstc.Ams.Packet.{Packet}
use goadstc.Client.Retry.{Error}
use goadstc.Client.Subscriptions.{
  NotificationOptions, State, subscribe_all, reestablish_subscriptions,
}
use goadstc.Client.Subscriptions.Invariant.{Sound, close_registered-returns, subscribe-Sound}

module _ (closed_at failed_at address : ℕ) (answers : ℕ → Error ⊎ Packet) where
  subscribe_all-Sound :
      (opts : List NotificationOptions) (s : State)
      → Sound s
      → (s' : State) × (subscribe_all closed_at failed_at address opts answers s ≡ ok s') × Sound s'
  unfolding subscribe_all
  subscribe_all-Sound [] s v = (s, refl, v)
  subscribe_all-Sound (o ∷ more) s v =
      let (x, s', found, sound) =
        subscribe-Sound closed_at failed_at address o (answers (length more)) s v in
      let (s'', rest, sound') = subscribe_all-Sound more s' sound in
      (s'', bind-ok _ found ∙ rest, sound')

  pub reestablish_subscriptions-Sound :
      (s : State)
      → Sound s
      → (s' : State) × (reestablish_subscriptions closed_at failed_at address answers s ≡ ok s')
        × Sound s'
  unfolding reestablish_subscriptions
  reestablish_subscriptions-Sound s v =
      let (opts, s', found, all) = close_registered-returns s.registry s v.all in
      let (s'', rest, sound) =
        subscribe_all-Sound opts (record s' { registry = [] })
          (record { all = all; registered = λ h i e. unfold lookup in cc }) in
      (s'', bind-ok _ found ∙ rest, sound)
