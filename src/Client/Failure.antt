-- ===== src/Client/Failure.antt =====
-- client.go: the errors of requests as values of type error, with the texts that fmt.Errorf makes.
use goadstc.Base.{ℕ, zero, suc, ◌+◌, ◌/◌, ◌%◌, List, [], ◌∷◌, ◌++◌, ltb, if◌then◌else◌}
use goadstc.Go.Strings.{text}
use goadstc.Ads.Errors.{error_text}
use goadstc.Errors.{GoError, code, at}
use goadstc.Client.Retry.{Error, passed, ads, not_connected, failed_after}

-- `%d` of a number below ten to the power of `k`.
abbrev pub decimal : ℕ → ℕ → List ℕ
decimal zero n = []
decimal (suc k) n =
    let front = decimal k (n / 10) in
    if ltb n 10 then (48 + n) ∷ [] else front ++ ((48 + n % 10) ∷ [])

-- `address` is that of the error which errors.New or fmt.Errorf makes. The number of retries is an
-- int, of at most nineteen digits.
unfoldable pub go_error : ℕ → Error → GoError
unfolding error_text
go_error address (passed e) = e
go_error address (ads n) = record { chain = code n ∷ []; message = error_text n }
go_error address not_connected = record { chain = at address ∷ []; message = text "not connected" }
go_error address (failed_after n e) = record {
  chain = at address ∷ e.chain;
  message = text "request failed after " ++ (decimal 19 n ++ (text " retries: " ++ e.message));
}
