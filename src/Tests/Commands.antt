-- ===== src/Tests/Commands.antt =====
-- Runs of internal/ads on concrete requests, responses and notifications.
use goadstc.Base.{
  ◌-◌, ◌^◌, ◌≡◌, ◌≢◌, refl, List, [], ◌∷◌, ◌++◌, arith, replicate, take, if◌then◌else◌,
}
use goadstc.Go.{slice?, uint32?, ok, panic, exact, Slice, bytes16, bytes32, bytes64}
use goadstc.Ads.Requests.Layout.{Request, write, encode, wire, encode-wire}
use goadstc.Ads.Responses.{
  unmarshal_read, device_name, unmarshal_write, unmarshal_write_control,
  unmarshal_delete_notification, unmarshal_handle, unmarshal_add_notification,
  unmarshal_upload_info, unmarshal_data_type_info, unmarshal_read_state,
}
use goadstc.Ads.Responses.Decode.{start, in_bounds, unmarshal_read-answer, fixed_answers}
use goadstc.Ads.Notification.{
  StampHeader, max_alloc, make_slice, unmarshal_notification, unmarshal_notification_in,
}
use goadstc.Ads.Notification.Safety.{unmarshal_notification-ne-panic}
use goadstc.Ads.Notification.RoundTrip.{
  notification_wire, stamps_wire, stamp_wire, samples_wire, sample_wire,
  unmarshal_notification-wire,
}

abbrev write_one : Request
write_one = write (record { index_group = 0x4020; index_offset = 4; length = 2; body = 1 ∷ 0 ∷ [] })

encode-wire_example : encode write_one ≡ ok (wire write_one)
encode-wire_example = encode-wire write_one

unmarshal_read-answer_example :
    unmarshal_read (record { bytes = start 0 2 ++ (7 ∷ 8 ∷ 9 ∷ []); spare = [] }) ≡ (
      if in_bounds 2 ((7 ∷ 8 ∷ 9 ∷ []) ++ [])
      then ok (record { result = 0; length = 2; body = take 2 ((7 ∷ 8 ∷ 9 ∷ []) ++ []) })
      else panic)
unmarshal_read-answer_example =
    unmarshal_read-answer 0 2 (7 ∷ 8 ∷ 9 ∷ []) [] (omega arith) (omega arith)

fixed_answers_example :
    let one : Slice = record { bytes = bytes32 0 ++ []; spare = [] } in
    let two : Slice = record { bytes = bytes32 0 ++ (bytes32 300 ++ []); spare = [] } in
    let states : Slice = record {
      bytes = bytes32 0 ++ (bytes16 5 ++ (bytes16 1 ++ []));
      spare = [];
    } in
    (unmarshal_write one ≡ ok 0)
    × (unmarshal_write_control one ≡ ok 0)
    × (unmarshal_delete_notification one ≡ ok 0)
    × (unmarshal_handle one ≡ ok 0)
    × (unmarshal_add_notification two ≡ ok (record { result = 0; notification_handle = 300 }))
    × (unmarshal_upload_info two ≡ ok (record { count = 0; size = 300 }))
    × (unmarshal_data_type_info two ≡ ok (record { count = 0; size = 300 }))
    × (unmarshal_read_state states ≡ ok (record { result = 0; ads_state = 5; device_state = 1 }))
fixed_answers_example =
    fixed_answers 0 300 5 1 [] [] (omega arith) (omega arith) (omega arith) (omega arith)

-- An empty name comes back as sixteen zero bytes.
empty_name : device_name (replicate 16 0) ≡ replicate 16 0
unfolding device_name
empty_name = refl

unmarshal_notification-ne-panic_example :
    unmarshal_notification_in max_alloc (exact (replicate 12 255)) ≢ panic
unmarshal_notification-ne-panic_example =
    unmarshal_notification-ne-panic max_alloc (exact (replicate 12 255)) (omega arith) (omega arith)

-- Eight bytes that count 2^32 - 1 stamps, where 16 GiB can be had.
large_count : unmarshal_notification_in (2 ^ 34) (exact (bytes32 4 ++ bytes32 (2 ^ 32 - 1))) ≡ panic
unfolding unmarshal_notification_in make_slice bytes32 slice? uint32?
large_count = refl

abbrev stamps : List StampHeader
stamps =
    record {
      timestamp = 132000;
      samples =
          record { notification_handle = 3; body = 1 ∷ 2 ∷ [] }
          ∷ record { notification_handle = 4; body = [] }
          ∷ [];
    }
    ∷ []

unmarshal_notification-wire_example :
    unmarshal_notification (record { bytes = notification_wire stamps ++ []; spare = [] })
    ≡ ok stamps
unfolding stamps_wire stamp_wire samples_wire sample_wire bytes64
unmarshal_notification-wire_example =
    unmarshal_notification-wire stamps [] [] (omega arith) (omega arith) (omega arith)
