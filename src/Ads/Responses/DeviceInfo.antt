-- ===== src/Ads/Responses/DeviceInfo.antt =====
-- internal/ads/commands.go: the device name of ReadDeviceInfo.
use goadstc.Base.{
  ℕ, ◌+◌, ◌≡◌, refl, Bool, true, false, List, [], ◌∷◌, ◌++◌, arith, length, if◌then◌else◌,
}
use goadstc.Go.{
  ok, slice?, bytes16, bytes32, uint16?, uint32?, IsU16, IsU32, join16-bytes16, join32-bytes32,
  take-length,
}
use goadstc.Go.Text.{until_zero, has_zero, take-until_zero, until_zero_whole}
use goadstc.Ads.Responses.{name_length, device_name, unmarshal_device_info}

name_length_lem :
    (i : ℕ) (xs : List ℕ)
    → name_length i xs ≡ (if has_zero xs then i + length (until_zero xs) else 0)
unfolding name_length
name_length_lem i [] = refl
name_length_lem i (x ∷ xs) = ground (arith, name_length_lem (i + 1) xs)

abbrev pub is_empty : List ℕ → Bool
is_empty [] = true
is_empty (x ∷ xs) = false

-- Of sixteen bytes the name is what stands before the first zero byte, or all sixteen where that
-- is nothing: an empty name, with a zero byte in front, comes back as all sixteen bytes.
pub device_name-until_zero :
    (xs : List ℕ)
    → length xs ≡ 16
    → device_name xs ≡ (if is_empty (until_zero xs) then xs else until_zero xs)
unfolding device_name
device_name-until_zero xs e =
    ground (arith, name_length_lem 0 xs, take-until_zero xs, until_zero_whole xs, take-length xs)

-- The answer to ReadDeviceInfo is decoded to the result, the versions and the build that stand in it
-- and to the device name: of its sixteen bytes those before the first zero byte, or all sixteen
-- where that is nothing.
unmarshal_device_info_answer :
    (result major minor build : ℕ) (name rest spare : List ℕ)
    → IsU32 result
    → IsU16 build
    → length name ≡ 16
    → unmarshal_device_info (record {
      bytes = bytes32 result ++ (major ∷ minor ∷ (bytes16 build ++ (name ++ rest)));
      spare = spare;
    })
      ≡ ok (record {
        result = result;
        major_version = major;
        minor_version = minor;
        version_build = build;
        device_name = if is_empty (until_zero name) then name else until_zero name;
      })
unfolding unmarshal_device_info slice? uint16? uint32? bytes16 bytes32
unmarshal_device_info_answer result major minor build
      (x0 ∷ x1 ∷ x2 ∷ x3 ∷ x4 ∷ x5 ∷ x6 ∷ x7 ∷ x8 ∷ x9 ∷ x10 ∷ x11 ∷ x12 ∷ x13 ∷ x14 ∷ x15 ∷ [])
      rest spare hr hb e =
    simp (
      join32-bytes32 result hr,
      join16-bytes16 build hb,
      device_name-until_zero
          (x0 ∷ x1 ∷ x2 ∷ x3 ∷ x4 ∷ x5 ∷ x6 ∷ x7 ∷ x8 ∷ x9 ∷ x10 ∷ x11 ∷ x12 ∷ x13 ∷ x14 ∷ x15 ∷ [])
          refl,
    )
unmarshal_device_info_answer result major minor build _ rest spare hr hb e = absurd (omega arith)
