-- ===== src/Ads/Notification/RoundTrip.antt =====
-- internal/ads/commands.go, DeviceNotificationRequest: the wire form of notifications.
use mathlib.Core.List.{append_assoc, append-nil}
use goadstc.Base.{
  ℕ, ◌+◌, ◌*◌, ◌%◌, ◌^◌, ◌≡◌, refl, sym, ap, ◌∙◌, List, [], ◌∷◌, ◌++◌, arith, All, length,
  length-append, le→ltb,
}
use goadstc.Go.{
  ok, Slice, bytes32, bytes64, IsU32, IsU64, copy-replicate, read32-at, read64-at, slice-at, slice?,
  uint32?, join32-bytes32,
}
use goadstc.Ads.Responses.{Error}
use goadstc.Ads.Notification.{
  NotificationSample, StampHeader, read_sample, read_samples, make_slice, element_size, max_alloc,
  read_stamp, read_stamps, unmarshal_notification_in, unmarshal_notification,
}

-- The wire form that the ADS specification gives.
unfoldable pub sample_wire : NotificationSample → List ℕ
unfolding bytes32
sample_wire x = bytes32 x.notification_handle ++ (bytes32 (length x.body) ++ x.body)

unfoldable pub samples_wire : List NotificationSample → List ℕ
samples_wire [] = []
samples_wire (x ∷ xs) = sample_wire x ++ samples_wire xs

unfoldable pub stamp_wire : StampHeader → List ℕ
stamp_wire t = bytes64 t.timestamp ++ (bytes32 (length t.samples) ++ samples_wire t.samples)

unfoldable pub stamps_wire : List StampHeader → List ℕ
stamps_wire [] = []
stamps_wire (t ∷ ts) = stamp_wire t ++ stamps_wire ts

unfoldable pub notification_wire : List StampHeader → List ℕ
notification_wire ts =
    bytes32 (4 + length (stamps_wire ts)) ++ (bytes32 (length ts) ++ stamps_wire ts)

abbrev pub SampleFits : NotificationSample → Type 0
SampleFits x = IsU32 x.notification_handle × IsU32 (length x.body)

abbrev pub StampFits : StampHeader → Type 0
StampFits t = IsU64 t.timestamp × IsU32 (length t.samples) × All SampleFits t.samples

-- Any uint32 of stamps or samples can be made.
make_slice-IsU32 : (n : ℕ) → IsU32 n → make_slice max_alloc element_size n ≡ ok tt
unfolding make_slice
make_slice-IsU32 n h = rw (le→ltb max_alloc (n * element_size) (omega arith))

length-sample_wire : (x : NotificationSample) → length (sample_wire x) ≡ 8 + length x.body
unfolding sample_wire
length-sample_wire x = omega arith

read_sample-wire :
    (s : Slice) (a rest : List ℕ) (x : NotificationSample) {offset : ℕ}
    → s.bytes ≡ a ++ (sample_wire x ++ rest)
    → offset ≡ length a
    → SampleFits x
    → read_sample s offset ≡ ok (x, length a + length (sample_wire x))
unfolding read_sample sample_wire
read_sample-wire s a rest x {offset} e eo f =
    let h = x.notification_handle in
    let n = length x.body in
    let e₂ : s.bytes ≡ (a ++ bytes32 h) ++ (bytes32 n ++ (x.body ++ rest)) =
      e ∙ sym (append_assoc a (bytes32 h) _) in
    let e₃ : s.bytes ≡ (a ++ (bytes32 h ++ bytes32 n)) ++ (x.body ++ rest) =
      e ∙ sym (append_assoc a (bytes32 h ++ bytes32 n) _) in
    let (part, cut_out, whole) =
      slice-at s (a ++ (bytes32 h ++ bytes32 n)) x.body rest {lo = offset + 8} {hi = offset + 8 + n}
        e₃ (omega (arith, length-append a (bytes32 h ++ bytes32 n))) refl in
    let total : length s.bytes ≡ length a + (8 + n + length rest) =
      ap length e
      ∙ omega
          (arith, length-append a (sample_wire x ++ rest), length-append (sample_wire x) rest) in
    rw
      (
        le→ltb (length s.bytes) (offset + 8) (omega arith),
        read32-at {E = Error} s a (bytes32 n ++ (x.body ++ rest)) h {lo = offset} {hi = offset + 4}
            e eo refl f.0,
        read32-at {E = Error} s (a ++ bytes32 h) (x.body ++ rest) n {lo = offset + 4}
            {hi = offset + 8} e₂ (omega (arith, length-append a (bytes32 h))) (omega arith) f.1,
        le→ltb (length s.bytes) (offset + 8 + n) (omega arith),
        cut_out,
        whole,
        copy-replicate x.body,
      )
      (ap (λ k. ok (x, k)) (omega arith))

-- From here on the offset is the length of what has been read.
read_samples-wire :
    (s : Slice) (xs : List NotificationSample) (a rest : List ℕ)
    → s.bytes ≡ a ++ (samples_wire xs ++ rest)
    → All SampleFits xs
    → read_samples (length xs) s (length a) ≡ ok (xs, length (a ++ samples_wire xs))
unfolding read_samples samples_wire
read_samples-wire s [] a rest e f = rw append-nil
read_samples-wire s (x ∷ xs) a rest e f =
    let e₁ : s.bytes ≡ a ++ (sample_wire x ++ (samples_wire xs ++ rest)) =
      e ∙ ap (◌++◌ a) (append_assoc (sample_wire x) (samples_wire xs) rest) in
    let e₂ : s.bytes ≡ (a ++ sample_wire x) ++ (samples_wire xs ++ rest) =
      e₁ ∙ sym (append_assoc a (sample_wire x) _) in
    rw (
      read_sample-wire s a (samples_wire xs ++ rest) x e₁ refl f.0,
      ← length-append a (sample_wire x),
      read_samples-wire s xs (a ++ sample_wire x) rest e₂ f.1,
      append_assoc a (sample_wire x) (samples_wire xs),
    )

read_stamp-wire :
    (s : Slice) (a rest : List ℕ) (t : StampHeader)
    → s.bytes ≡ a ++ (stamp_wire t ++ rest)
    → StampFits t
    → read_stamp max_alloc s (length a) ≡ ok (t, length (a ++ stamp_wire t))
unfolding read_stamp stamp_wire
read_stamp-wire s a rest t e f =
    let n = length t.samples in
    let stamp = bytes64 t.timestamp in
    let front = a ++ (stamp ++ bytes32 n) in
    let e₁ : s.bytes ≡ a ++ (stamp ++ (bytes32 n ++ (samples_wire t.samples ++ rest))) =
      e
      ∙ ap (◌++◌ a)
          (append_assoc stamp _ rest ∙ ap (◌++◌ stamp) (append_assoc (bytes32 n) _ rest)) in
    let e₂ : s.bytes ≡ (a ++ stamp) ++ (bytes32 n ++ (samples_wire t.samples ++ rest)) =
      e₁ ∙ sym (append_assoc a stamp _) in
    let e₃ : s.bytes ≡ front ++ (samples_wire t.samples ++ rest) =
      e₁
      ∙ ap (◌++◌ a) (sym (append_assoc stamp (bytes32 n) _))
      ∙ sym (append_assoc a (stamp ++ bytes32 n) _) in
    let ends : length a + 12 ≡ length front =
      omega (arith, length-append a (stamp ++ bytes32 n), length-head t.timestamp n) in
    let total : length s.bytes ≡ length front + length (samples_wire t.samples ++ rest) =
      ap length e₃ ∙ length-append front _ in
    rw
      (
        le→ltb (length s.bytes) (length a + 12) (omega arith),
        read64-at {E = Error} s a (bytes32 n ++ (samples_wire t.samples ++ rest)) t.timestamp
            {lo = length a} {hi = length a + 8} e₁ refl refl f.0,
        read32-at {E = Error} s (a ++ stamp) (samples_wire t.samples ++ rest) n {lo = length a + 8}
            {hi = length a + 12} e₂
            (omega (
              arith,
              length-append a stamp,
              length-head t.timestamp n,
              length-append stamp (bytes32 n),
              length-bytes32 n,
            ))
            (omega arith) f.1,
        make_slice-IsU32 n f.1,
        ends,
        read_samples-wire s t.samples front rest e₃ f.2,
      )
      (ap (λ xs. ok (t, length xs)) (append_assoc a _ _ ∙ ap (◌++◌ a) (append_assoc stamp _ _)))
  where
    length-bytes32 : (n : ℕ) → length (bytes32 n) ≡ 4
    length-bytes32 n = unfold bytes32 in refl

    length-head : (v n : ℕ) → length (bytes64 v ++ bytes32 n) ≡ 12
    length-head v n = unfold bytes64 bytes32 in refl

read_stamps-wire :
    (s : Slice) (ts : List StampHeader) (a rest : List ℕ)
    → s.bytes ≡ a ++ (stamps_wire ts ++ rest)
    → All StampFits ts
    → read_stamps max_alloc (length ts) s (length a) ≡ ok ts
unfolding read_stamps stamps_wire
read_stamps-wire s [] a rest e f = refl
read_stamps-wire s (t ∷ ts) a rest e f =
    let e₁ : s.bytes ≡ a ++ (stamp_wire t ++ (stamps_wire ts ++ rest)) =
      e ∙ ap (◌++◌ a) (append_assoc (stamp_wire t) (stamps_wire ts) rest) in
    let e₂ : s.bytes ≡ (a ++ stamp_wire t) ++ (stamps_wire ts ++ rest) =
      e₁ ∙ sym (append_assoc a (stamp_wire t) _) in
    rw (
      read_stamp-wire s a (stamps_wire ts ++ rest) t e₁ f.0,
      read_stamps-wire s ts (a ++ stamp_wire t) rest e₂ f.1,
    )

-- A notification of the specified form decodes to its stamps with their samples, in order and byte
-- for byte, whatever follows it. The counts and sizes fit their fields, and the whole of the data
-- is shorter than 2^32.
pub unmarshal_notification-wire :
    (ts : List StampHeader) (rest spare : List ℕ)
    → All StampFits ts
    → IsU32 (length ts)
    → IsU32 (8 + length (stamps_wire ts) + length rest)
    → unmarshal_notification (record { bytes = notification_wire ts ++ rest; spare = spare })
      ≡ ok ts
unfolding unmarshal_notification unmarshal_notification_in notification_wire bytes32 slice? uint32?
unmarshal_notification-wire ts rest spare f count small =
    let n = length (stamps_wire ts) in
    let front = bytes32 (4 + n) ++ bytes32 (length ts) in
    let s : Slice = record { bytes = notification_wire ts ++ rest; spare = spare } in
    rw
      (
        join32-bytes32 (4 + n) (omega arith),
        join32-bytes32 (length ts) count,
        le→ltb (length s.bytes % 2 ^ 32) ((4 + (4 + n)) % 2 ^ 32)
            (omega (arith, length-append (stamps_wire ts) rest)),
        make_slice-IsU32 (length ts) count,
      )
      (read_stamps-wire s ts front rest refl f)
