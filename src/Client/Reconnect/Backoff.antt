-- ===== src/Client/Reconnect/Backoff.antt =====
-- client.go: the pauses of reconnectLoop, and when it ends.
use goadstc.Base.{ℕ, zero, suc}
use goadstc.Client.Reconnect.{next_backoff, second}

-- The pause of attempt `n + 1`.
unfoldable pub backoff_at : ℕ → ℕ → ℕ
backoff_at max_delay zero = second
backoff_at max_delay (suc n) = next_backoff max_delay (backoff_at max_delay n)
