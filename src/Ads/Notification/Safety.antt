-- ===== src/Ads/Notification/Safety.antt =====
-- internal/ads/commands.go, DeviceNotificationRequest: the reads of the decoder.
use goadstc.Base.{
  ℕ, zero, suc, ◌+◌, ◌*◌, ◌%◌, ◌^◌, ◌≡◌, ◌++◌, All, le→ltb, ◌≢◌, ◌≤◌, refl, inl, inr, arith, length,
  ltb, Bool-cases, shorter, shorter-length,
}
use goadstc.Go.{
  ok, IsByte, IsU32, read32-IsU32, panic, Slice, bind-ne-panic, slice-inside, read32-inside,
  read64-inside,
}
use goadstc.Ads.Responses.{Error}
use goadstc.Ads.Notification.{
  read_sample, read_samples, read_stamp, read_stamps, make_slice, element_size,
  unmarshal_notification_in,
}

read_sample-ne-panic : (s : Slice) (offset : ℕ) → read_sample s offset ≢ panic
unfolding read_sample
read_sample-ne-panic s offset = elim (Bool-cases (ltb (length s.bytes) (offset + 8))) [
  | inl short ↦ rw short (λ p. cc)
  | inr long ↦
      let (handle, eh) = read32-inside {E = Error} s offset (offset + 4) refl (ground arith) in
      let (size, es) =
        read32-inside {E = Error} s (offset + 4) (offset + 8) (omega arith) (ground arith) in
      elim (Bool-cases (ltb (length s.bytes) (offset + 8 + size))) [
        | inl cut_off ↦ rw (long, eh, es, cut_off) (λ p. cc)
        | inr whole ↦
            let (part, ep, _) =
              slice-inside s (offset + 8) (offset + 8 + size) (omega arith) (ground arith) in
            rw (long, eh, es, whole, ep) (λ p. cc)
      ]
]

read_samples-ne-panic : (n : ℕ) (s : Slice) (offset : ℕ) → read_samples n s offset ≢ panic
unfolding read_samples
read_samples-ne-panic zero s offset = λ p. cc
read_samples-ne-panic (suc n) s offset =
    bind-ne-panic (read_sample s offset) _ (read_sample-ne-panic s offset)
      λ r. bind-ne-panic (read_samples n s r.1) _ (read_samples-ne-panic n s r.1) (λ t p. cc)

module _ (room : ℕ) (enough : 2 ^ 32 * element_size ≤ room) (s : Slice)
    (bytes : All IsByte (s.bytes ++ s.spare)) where
  make_slice-IsU32 : (n : ℕ) → IsU32 n → make_slice room element_size n ≡ ok tt
  unfolding make_slice
  make_slice-IsU32 n h = rw (le→ltb room (n * element_size) (omega arith))

  read_stamp-ne-panic : (offset : ℕ) → read_stamp room s offset ≢ panic
  unfolding read_stamp
  read_stamp-ne-panic offset = elim (Bool-cases (ltb (length s.bytes) (offset + 12))) [
    | inl short ↦ rw short (λ p. cc)
    | inr long ↦
        let (time, et) = read64-inside {E = Error} s offset (offset + 8) refl (ground arith) in
        let (count, ec, small) =
          read32-IsU32 {E = Error} s (offset + 8) (offset + 12) (omega arith) (ground arith)
            bytes in
        rw (long, et, ec, make_slice-IsU32 count small)
          (bind-ne-panic (read_samples count s (offset + 12)) _
            (read_samples-ne-panic count s (offset + 12)) (λ t p. cc))
  ]

  read_stamps-ne-panic : (n : ℕ) (offset : ℕ) → read_stamps room n s offset ≢ panic
  unfolding read_stamps
  read_stamps-ne-panic zero offset = λ p. cc
  read_stamps-ne-panic (suc n) offset =
      bind-ne-panic (read_stamp room s offset) _ (read_stamp-ne-panic offset)
        λ r. bind-ne-panic (read_stamps room n s r.1) _ (read_stamps-ne-panic n r.1) (λ t p. cc)

-- Where a slice of 2^32 stamps or samples can be made, 128 GiB, the decoder of device notifications
-- returns or reports an error on any bytes, however wrong their length, stamp and sample counts and
-- sizes.
pub unmarshal_notification-ne-panic :
    (room : ℕ) (s : Slice)
    → 2 ^ 32 * element_size ≤ room
    → All IsByte (s.bytes ++ s.spare)
    → unmarshal_notification_in room s ≢ panic
unfolding unmarshal_notification_in
unmarshal_notification-ne-panic room s enough bytes = elim (Bool-cases (shorter s.bytes 8)) [
  | inl short ↦ rw short (λ p. cc)
  | inr long ↦
      let eight : 8 ≤ length s.bytes = ground (arith, shorter-length s.bytes 8) in
      let (len, el) = read32-inside {E = Error} s 0 4 refl (omega arith) in
      let (stamps, es, small) = read32-IsU32 {E = Error} s 4 8 refl (omega arith) bytes in
      rw (long, el, es)
        (elim (Bool-cases (ltb (length s.bytes % 2 ^ 32) ((4 + len) % 2 ^ 32))) [
          | inl missing ↦ rw missing (λ p. cc)
          | inr complete ↦
              rw (complete, make_slice-IsU32 room enough s bytes stamps small)
                (read_stamps-ne-panic room enough s bytes stamps 8)
        ])
]
