-- ===== src/Errors.antt =====
-- errors.go: the classification of errors.
pub mod Search
pub mod Classify
use goadstc.Base.{
  ℕ, zero, suc, ◌+◌, ◌-◌, Bool, true, false, ◌&&◌, ◌||◌, Option, none, some, List, [], ◌∷◌, length,
  leb, ◌==◌, if◌then◌else◌,
}
use goadstc.Go.{Result, ok, ◌>>=◌, exact, slice}
use goadstc.Go.Strings.{text, same}
use goadstc.Ads.Responses.{err_target_port_not_found, err_target_machine_not_found}

-- type ErrorCategory
pub data ErrorCategory : Type 0 where
  unknown network protocol ads validation configuration timeout state : ErrorCategory

-- One error of a chain of wrapped errors: an ads.Error with its code, or another error, which
-- errors.Is tells apart by its address.
pub data Link : Type 0 where
  code : ℕ → Link
  at : ℕ → Link

-- An error: the chain that Unwrap walks, and the text of Error().
pub record GoError : Type 0 where
  pub chain : List Link
  pub message : List ℕ

-- ClassifiedError, without its optional symbol name and indices, which ClassifyError leaves unset.
pub record ClassifiedError : Type 0 where
  pub category : ErrorCategory
  pub operation : List ℕ
  pub inner : GoError
  pub retryable : Bool
  pub ads_error : Option ℕ

-- errors.As with an ads.Error as its target: the first in the chain.
unfoldable pub as_ads : List Link → Option ℕ
as_ads [] = none
as_ads (code n ∷ ls) = some n
as_ads (at a ∷ ls) = as_ads ls

-- errors.Is with a target that is told apart by its address.
unfoldable pub is_at : ℕ → List Link → Bool
is_at a [] = false
is_at a (code n ∷ ls) = is_at a ls
is_at a (at b ∷ ls) = b == a || is_at a ls

-- isRetryableADSError
unfoldable pub is_retryable_ads_error : ℕ → Bool
is_retryable_ads_error e = e == err_target_port_not_found || e == err_target_machine_not_found

-- The loop of indexString, `rounds` before its end: `none` for -1. Cutting out `s[i:i+len(substr)]`
-- may panic.
unfoldable pub index_loop : {E : Type 0} → ℕ → ℕ → List ℕ → List ℕ → Result E (Option ℕ)
index_loop zero i s substr = ok none
index_loop (suc rounds) i s substr = do
  part ← slice (exact s) i (i + length substr)
  elim (same part.bytes substr) [ true ↦ ok (some i) | false ↦ index_loop rounds (i + 1) s substr ]

-- indexString: the loop runs while i <= len(s)-len(substr), a difference of ints.
unfoldable pub index_string : {E : Type 0} → List ℕ → List ℕ → Result E (Option ℕ)
index_string s substr = index_loop (length s + 1 - length substr) 0 s substr

-- contains
unfoldable pub contains : {E : Type 0} → List ℕ → List ℕ → Result E Bool
contains s substr =
    if leb (length substr) (length s)
    then (if same s substr
        then ok true
        else (do i ← index_string s substr; ok (elim i [ none ↦ false | some n ↦ true ])))
    else ok false

-- containsAny
unfoldable pub contains_any : {E : Type 0} → List ℕ → List (List ℕ) → Result E Bool
contains_any s [] = ok false
contains_any s (substr ∷ substrs) = do
  found ← contains s substr
  elim found [ true ↦ ok true | false ↦ contains_any s substrs ]

-- The texts that ClassifyError looks for.
abbrev pub network_texts : List (List ℕ)
network_texts =
    text "connection refused"
    ∷ text "connection reset"
    ∷ text "broken pipe"
    ∷ text "network is unreachable"
    ∷ text "no route to host"
    ∷ text "i/o timeout"
    ∷ []

abbrev pub timeout_texts : List (List ℕ)
timeout_texts = text "timeout" ∷ text "deadline exceeded" ∷ text "context deadline exceeded" ∷ []

abbrev pub state_texts : List (List ℕ)
state_texts = text "client closed" ∷ text "client not connected" ∷ text "connection closed" ∷ []

abbrev pub validation_texts : List (List ℕ)
validation_texts =
    text "invalid" ∷ text "empty" ∷ text "cannot be empty" ∷ text "must be positive" ∷ []

abbrev pub protocol_texts : List (List ℕ)
protocol_texts =
    text "protocol" ∷ text "packet" ∷ text "marshal" ∷ text "unmarshal" ∷ text "parse" ∷ []

-- The part of ClassifyError that reads the message; `sentinel` is the result of its two errors.Is.
unfoldable pub classify_message : {E : Type 0} → Bool → List ℕ → Result E (ErrorCategory × Bool)
classify_message sentinel message = do
  net ← (if sentinel then ok true else contains_any message network_texts)
  if net then ok (network, true) else (do
    time ← contains_any message timeout_texts
    if time then ok (timeout, true) else (do
      closed ← contains_any message state_texts
      if closed then ok (state, false) else (do
        bad ← contains_any message validation_texts
        if bad then ok (validation, false) else (do
          proto ← contains_any message protocol_texts
          ok (if proto then (protocol, false) else (unknown, false))))))

-- ClassifyError, of an error that is not nil; `closed` and `failed` are the addresses of the two
-- errors that it makes by errors.New to compare with.
unfoldable pub classify_error : {E : Type 0} → ℕ → ℕ → GoError → List ℕ → Result E ClassifiedError
unfolding as_ads is_at is_retryable_ads_error
classify_error closed failed e operation = elim (as_ads e.chain) [
  | some n ↦ ok (record {
    category = ads;
    operation = operation;
    inner = e;
    retryable = is_retryable_ads_error n;
    ads_error = some n;
  })
  | none ↦ (do
    (category, retryable) ←
        classify_message (is_at closed e.chain || is_at failed e.chain) e.message
    ok (record {
      category = category;
      operation = operation;
      inner = e;
      retryable = retryable;
      ads_error = none;
    }))
]

-- NewNetworkError, NewValidationError, NewADSError and NewStateError; `address` is that of the
-- error that errors.New makes.
unfoldable pub new_network_error : List ℕ → GoError → ClassifiedError
new_network_error operation e = record {
  category = network;
  operation = operation;
  inner = e;
  retryable = true;
  ads_error = none;
}

unfoldable pub new_validation_error : ℕ → List ℕ → List ℕ → ClassifiedError
new_validation_error address operation message = record {
  category = validation;
  operation = operation;
  inner = record { chain = at address ∷ []; message = message };
  retryable = false;
  ads_error = none;
}

unfoldable pub new_ads_error : List ℕ → ℕ → List ℕ → ClassifiedError
unfolding is_retryable_ads_error
new_ads_error operation n message = record {
  category = ads;
  operation = operation;
  inner = record { chain = code n ∷ []; message = message };
  retryable = is_retryable_ads_error n;
  ads_error = some n;
}

unfoldable pub new_state_error : ℕ → List ℕ → List ℕ → ClassifiedError
new_state_error address operation message = record {
  category = state;
  operation = operation;
  inner = record { chain = at address ∷ []; message = message };
  retryable = false;
  ads_error = none;
}
