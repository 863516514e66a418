-- ===== src/Ads/Responses/Decode.antt =====
-- internal/ads/commands.go and symbols.go: the decoders of the responses on any bytes.
use goadstc.Base.{
  ◌≢◌, ℕ, ◌+◌, ◌%◌, ◌^◌, ◌≤◌, ◌<◌, ◌≡◌, refl, none, some, List, ◌∷◌, ◌++◌, arith, ◌&&◌, Bool,
  length, leb, ltb, take, drop, if◌then◌else◌,
}
use goadstc.Go.{
  ok, panic, Slice, slice?, bytes16, bytes32, uint16?, uint32?, IsU16, IsU32, copy-take,
  join32-bytes32, join16-bytes16, slice?-after, slice?-after_beyond, slice?-crossed, mod32_lem,
}
use goadstc.Ads.Responses.{
  counted_data, unmarshal_read, unmarshal_read_write, unmarshal_write, unmarshal_write_control,
  unmarshal_delete_notification, unmarshal_handle, unmarshal_add_notification,
  unmarshal_upload_info, unmarshal_data_type_info, unmarshal_read_state,
}

-- A result code and a length, the start of the answers to Read and ReadWrite.
pub start : ℕ → ℕ → List ℕ
start result n = bytes32 result ++ bytes32 n

-- `8 + n`, a uint32, neither wraps nor passes the capacity.
abbrev pub in_bounds : ℕ → List ℕ → Bool
in_bounds n xs = ltb (8 + n) (2 ^ 32) && leb n (length xs)

module _ (result n : ℕ) (rest spare : List ℕ) where
  abbrev answer : Slice
  answer = record { bytes = start result n ++ rest; spare = spare }

  part_ok :
      8 + n < 2 ^ 32
      → n ≤ length (rest ++ spare)
      → slice? answer 8 ((8 + n) % 2 ^ 32)
        ≡ some (record { bytes = take n (rest ++ spare); spare = drop n (rest ++ spare) })
  unfolding start bytes32
  part_ok small fits =
      rw (mod32_lem (8 + n) small) (slice?-after (start result n) rest spare n fits)

  part_beyond :
      8 + n < 2 ^ 32 → length (rest ++ spare) < n → slice? answer 8 ((8 + n) % 2 ^ 32) ≡ none
  unfolding start bytes32
  part_beyond small past =
      rw (mod32_lem (8 + n) small) (slice?-after_beyond (start result n) rest spare n past)

  part_wraps : IsU32 n → 2 ^ 32 ≤ 8 + n → slice? answer 8 ((8 + n) % 2 ^ 32) ≡ none
  part_wraps h big = slice?-crossed answer 8 _ (omega arith)

  counted :
      IsU32 n
      → counted_data answer n
        ≡ (if in_bounds n (rest ++ spare) then ok (take n (rest ++ spare)) else panic)
  unfolding counted_data
  counted h = ground (arith, part_ok, part_beyond, part_wraps, copy-take n (rest ++ spare))

  -- The answer to Read, whole. A response with the code `result`, the length `n` and the bytes
  -- `rest` behind it decodes to these with the next `n` bytes, those of the spare capacity
  -- included, exactly when `8 + n` fits a uint32 and `n` bytes are there; in every other case the
  -- decoder panics.
  pub unmarshal_read-answer :
      IsU32 result
      → IsU32 n
      → unmarshal_read answer ≡ (
          if in_bounds n (rest ++ spare)
          then ok (record { result = result; length = n; body = take n (rest ++ spare) })
          else panic)
  unfolding unmarshal_read slice? uint32? start bytes32
  unmarshal_read-answer hr hn =
      rw (join32-bytes32 result hr, join32-bytes32 n hn) (rw (counted hn) (ground arith))

  -- The answer to ReadWrite, whole. A response with the code `result`, the length `n` and the bytes
  -- `rest` behind it decodes to these with the next `n` bytes, those of the spare capacity
  -- included, exactly when `8 + n` fits a uint32 and `n` bytes are there; in every other case the
  -- decoder panics.
  pub unmarshal_read_write-answer :
      IsU32 result
      → IsU32 n
      → unmarshal_read_write answer ≡ (
          if in_bounds n (rest ++ spare)
          then ok (record { result = result; length = n; body = take n (rest ++ spare) })
          else panic)
  unfolding unmarshal_read_write slice? uint32? start bytes32
  unmarshal_read_write-answer hr hn =
      rw (join32-bytes32 result hr, join32-bytes32 n hn) (rw (counted hn) (ground arith))

-- The answers of fixed size: each of the eight decoders gives back the fields whose little-endian
-- bytes stand in front of its data, for fields in the range of their types.
pub fixed_answers :
    (result value : ℕ) (state device : ℕ) (rest spare : List ℕ)
    → IsU32 result
    → IsU32 value
    → IsU16 state
    → IsU16 device
    → let one : Slice = record { bytes = bytes32 result ++ rest; spare = spare } in
      let two : Slice = record {
        bytes = bytes32 result ++ (bytes32 value ++ rest);
        spare = spare;
      } in
      let states : Slice = record {
        bytes = bytes32 result ++ (bytes16 state ++ (bytes16 device ++ rest));
        spare = spare;
      } in
      (unmarshal_write one ≡ ok result)
      × (unmarshal_write_control one ≡ ok result)
      × (unmarshal_delete_notification one ≡ ok result)
      × (unmarshal_handle one ≡ ok result)
      × (unmarshal_add_notification two
          ≡ ok (record { result = result; notification_handle = value }))
      × (unmarshal_upload_info two ≡ ok (record { count = result; size = value }))
      × (unmarshal_data_type_info two ≡ ok (record { count = result; size = value }))
      × (unmarshal_read_state states
          ≡ ok (record { result = result; ads_state = state; device_state = device }))
unfolding unmarshal_write unmarshal_write_control unmarshal_delete_notification unmarshal_handle
    unmarshal_add_notification unmarshal_upload_info unmarshal_data_type_info unmarshal_read_state
    slice? uint16? uint32? bytes16 bytes32
fixed_answers result value state device rest spare hr hv hs hd =
    simp
      (
        join32-bytes32 result hr,
        join32-bytes32 value hv,
        join16-bytes16 state hs,
        join16-bytes16 device hd,
      )
      (refl, refl, refl, refl, refl, refl, refl, refl)

-- Whatever the bytes, none of the eight decoders of answers of fixed size panics.
pub fixed_answers_safe :
    (xs spare : List ℕ)
    → let s : Slice = record { bytes = xs; spare = spare } in
      (unmarshal_write s ≢ panic)
      × (unmarshal_write_control s ≢ panic)
      × (unmarshal_delete_notification s ≢ panic)
      × (unmarshal_handle s ≢ panic)
      × (unmarshal_add_notification s ≢ panic)
      × (unmarshal_upload_info s ≢ panic)
      × (unmarshal_data_type_info s ≢ panic)
      × (unmarshal_read_state s ≢ panic)
unfolding unmarshal_write unmarshal_write_control unmarshal_delete_notification unmarshal_handle
    unmarshal_add_notification unmarshal_upload_info unmarshal_data_type_info unmarshal_read_state
    slice? uint16? uint32?
fixed_answers_safe (a ∷ b ∷ c ∷ d ∷ e ∷ f ∷ g ∷ h ∷ xs) spare =
    (λ p. cc, λ p. cc, λ p. cc, λ p. cc, λ p. cc, λ p. cc, λ p. cc, λ p. cc)
fixed_answers_safe _ spare =
    (λ p. cc, λ p. cc, λ p. cc, λ p. cc, λ p. cc, λ p. cc, λ p. cc, λ p. cc)
