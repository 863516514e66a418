-- ===== src/Errors/Classify.antt =====
-- errors.go: ClassifyError.
use goadstc.Base.{
  ℕ, ◌≡◌, refl, ◌↔◌, ◌⊎◌, inl, inr, ◌||◌, Bool, true, false, none, some, List, arith, if◌then◌else◌,
  Option-cases, Bool-cases,
}
use goadstc.Go.{ok}
use goadstc.Errors.{
  ErrorCategory, unknown, network, protocol, ads, validation, timeout, state, GoError,
  ClassifiedError, as_ads, is_at, is_retryable_ads_error, network_texts, timeout_texts, state_texts,
  validation_texts, protocol_texts, classify_message, classify_error,
}
use goadstc.Errors.Search.{any_in, contains_any-any_in}

-- The category of a message: that of the first list with a text that stands in it.
unfoldable pub message_category : List ℕ → ErrorCategory
unfolding any_in
message_category m =
    if any_in m network_texts
    then network
    else if any_in m timeout_texts
    then timeout
    else if any_in m state_texts
    then state
    else if any_in m validation_texts
    then validation
    else if any_in m protocol_texts
    then protocol
    else unknown

pub is_transient : ErrorCategory → Bool
is_transient network = true
is_transient timeout = true
is_transient _ = false

classify_message-category :
    {E : Type 0} (m : List ℕ)
    → classify_message {E = E} false m ≡ ok (message_category m, is_transient (message_category m))
unfolding classify_message message_category is_transient
classify_message-category {E} m = ground (
  arith,
  contains_any-any_in {E = E} m network_texts,
  contains_any-any_in {E = E} m timeout_texts,
  contains_any-any_in {E = E} m state_texts,
  contains_any-any_in {E = E} m validation_texts,
  contains_any-any_in {E = E} m protocol_texts,
)

module _ {E : Type 0} (closed failed : ℕ) (e : GoError) (operation : List ℕ) where
  -- An error with an ads.Error in its chain is of category ads, whatever its text says, and may be
  -- retried exactly for the codes 6 (port not found) and 7 (machine not found) of the first one.
  pub classify_error-ads :
      (n : ℕ)
      → as_ads e.chain ≡ some n
      → (c : ClassifiedError) × (classify_error {E = E} closed failed e operation ≡ ok c)
        × (c.category ≡ ads)
        × (c.ads_error ≡ some n)
        × ((c.retryable ≡ true) ↔ (n ≡ 6 ⊎ n ≡ 7))
  unfolding classify_error is_retryable_ads_error
  classify_error-ads n h = (
    record {
      category = ads;
      operation = operation;
      inner = e;
      retryable = is_retryable_ads_error n;
      ads_error = some n;
    },
    rw (h, classify_error) refl,
    refl,
    refl,
    ground arith,
  )

  -- Any other error gets the category of its message alone, since no error of the chain is one of
  -- the two that ClassifyError has just made: that of the first list of texts, in the order network,
  -- timeout, state, validation and protocol, of which one stands in the message, and unknown where
  -- none does. It may be retried exactly if the category is network or timeout.
  pub classify_error-message :
      as_ads e.chain ≡ none
      → is_at closed e.chain ≡ false
      → is_at failed e.chain ≡ false
      → (c : ClassifiedError) × (classify_error {E = E} closed failed e operation ≡ ok c)
        × (c.category ≡ message_category e.message)
        × (c.retryable ≡ is_transient (message_category e.message))
        × (c.ads_error ≡ none)
  unfolding classify_error
  classify_error-message h fc ff = (
    record {
      category = message_category e.message;
      operation = operation;
      inner = e;
      retryable = is_transient (message_category e.message);
      ads_error = none;
    },
    rw (h, fc, ff, classify_error) (rw (classify_message-category {E = E} e.message) refl),
    refl,
    refl,
    refl,
  )

-- ClassifyError never panics.
pub classify_error-returns :
    {E : Type 0} (closed failed : ℕ) (e : GoError) (operation : List ℕ)
    → (c : ClassifiedError) × (classify_error {E = E} closed failed e operation ≡ ok c)
unfolding classify_error classify_message
classify_error-returns {E} closed failed e operation = elim (Option-cases (as_ads e.chain)) [
  | inr (n, h) ↦ let r = classify_error-ads {E = E} closed failed e operation n h in (r.0, r.1)
  | inl h ↦ elim (Bool-cases (is_at closed e.chain || is_at failed e.chain)) [
    | inl s ↦ (
      record {
        category = network;
        operation = operation;
        inner = e;
        retryable = true;
        ads_error = none;
      },
      rw (h, classify_error) (rw s refl),
    )
    | inr s ↦ (
      record {
        category = message_category e.message;
        operation = operation;
        inner = e;
        retryable = is_transient (message_category e.message);
        ads_error = none;
      },
      rw (h, classify_error) (rw (s, classify_message-category {E = E} e.message) refl),
    )
  ]
]
