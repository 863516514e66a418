-- ===== src/Ads/Notification.antt =====
-- internal/ads/commands.go: the decoder of a device notification, the packets that the PLC pushes.
-- Offsets are Go's `int`, of 64 bits: they stay far below its limit, as they stop at the length of
-- the data plus a uint32.
pub mod Safety
pub mod RoundTrip
use goadstc.Base.{
  ℕ, zero, suc, ◌+◌, ◌*◌, ◌%◌, ◌^◌, List, [], ◌∷◌, length, ltb, replicate, shorter, if◌then◌else◌,
}
use goadstc.Go.{Result, ok, err, panic, ◌>>=◌, Slice, slice, read32, read64, copy}
use goadstc.Ads.Responses.{
  Error, notification_short, notification_length, stamp_short, sample_short, sample_data_short,
}

pub record NotificationSample : Type 0 where
  pub notification_handle : ℕ
  pub body : List ℕ

pub record StampHeader : Type 0 where
  pub timestamp : ℕ
  pub samples : List NotificationSample

-- One round of the inner loop: the sample at `offset`, and the offset behind it.
unfoldable pub read_sample : Slice → ℕ → Result Error (NotificationSample × ℕ)
read_sample data_in offset =
    if ltb (length data_in.bytes) (offset + 8) then err sample_short else do
      notification_handle ← read32 data_in offset (offset + 4)
      size ← read32 data_in (offset + 4) (offset + 8)
      let offset = offset + 8
      if ltb (length data_in.bytes) (offset + size) then err sample_data_short else (do
        part ← slice data_in offset (offset + size)
        ok (
          record {
            notification_handle = notification_handle;
            body = copy (replicate size 0) part.bytes;
          },
          offset + size,
        ))

-- `for j := 0; j < sampleCount; j++`, with the rounds left.
unfoldable pub read_samples : ℕ → Slice → ℕ → Result Error (List NotificationSample × ℕ)
read_samples zero data_in offset = ok ([], offset)
read_samples (suc n) data_in offset = do
  (sample, offset) ← read_sample data_in offset
  (samples, offset) ← read_samples n data_in offset
  ok (sample ∷ samples, offset)

-- `make([]T, 0, n)` for a T of `size` bytes, where a slice of `room` bytes can be made at most: behind
-- that the program ends.
unfoldable pub make_slice : ℕ → ℕ → ℕ → Result Error (Unit {0})
make_slice room size n = if ltb room (n * size) then panic else ok tt

-- The bytes of a StampHeader and of a NotificationSample: a number of 8 or 4 bytes, with padding, and
-- a slice of 24.
abbrev pub element_size : ℕ
element_size = 32

module _ (room : ℕ) where
  -- One round of the outer loop.
  unfoldable pub read_stamp : Slice → ℕ → Result Error (StampHeader × ℕ)
  read_stamp data_in offset =
      if ltb (length data_in.bytes) (offset + 12) then err stamp_short else do
        timestamp ← read64 data_in offset (offset + 8)
        sample_count ← read32 data_in (offset + 8) (offset + 12)
        _ ← make_slice room element_size sample_count
        (samples, offset) ← read_samples sample_count data_in (offset + 12)
        ok (record { timestamp = timestamp; samples = samples }, offset)

  unfoldable pub read_stamps : ℕ → Slice → ℕ → Result Error (List StampHeader)
  read_stamps zero data_in offset = ok []
  read_stamps (suc n) data_in offset = do
    (stamp, offset) ← read_stamp data_in offset
    stamps ← read_stamps n data_in offset
    ok (stamp ∷ stamps)

  -- (*DeviceNotificationRequest).UnmarshalBinary with this room.
  unfoldable pub unmarshal_notification_in : Slice → Result Error (List StampHeader)
  unmarshal_notification_in data_in = if shorter data_in.bytes 8 then err notification_short else do
    len ← read32 data_in 0 4
    stamps ← read32 data_in 4 8
    let expected = (4 + len) % 2 ^ 32
    if ltb (length data_in.bytes % 2 ^ 32) expected
        then err (notification_length expected (length data_in.bytes))
        else (do _ ← make_slice room element_size stamps; read_stamps stamps data_in 8)

-- The most bytes that a slice can have on amd64, the runtime's maxAlloc.
abbrev pub max_alloc : ℕ
max_alloc = 2 ^ 48

-- (*DeviceNotificationRequest).UnmarshalBinary where memory is no obstacle.
unfoldable pub unmarshal_notification : Slice → Result Error (List StampHeader)
unmarshal_notification data_in = unmarshal_notification_in max_alloc data_in
