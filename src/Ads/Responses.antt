-- ===== src/Ads/Responses.antt =====
-- internal/ads/commands.go, symbols.go and errors.go: the responses and their decoders.
pub mod Decode
pub mod DeviceInfo
use goadstc.Base.{
  ℕ, ◌+◌, ◌%◌, ◌^◌, Bool, not, List, [], ◌∷◌, length, replicate, shorter, ◌==◌, if◌then◌else◌,
  get_elem?, take,
}
use goadstc.Go.{Result, ok, err, ◌>>=◌, or_panic, Slice, slice, read16, read32, copy}

-- The texts of the package's errors, with the lengths that they print.
pub data Error : Type 0 where
  read_short write_short read_state_short device_info_short read_write_short : Error
  write_control_short add_notification_short delete_notification_short : Error
  handle_short upload_info_short data_type_info_short : ℕ → Error
  notification_short stamp_short sample_short sample_data_short : Error
  notification_length : ℕ → ℕ → Error

-- type Error uint32, with its named values; `is_error` is IsError.
abbrev pub err_no_error : ℕ
err_no_error = 0x0000

abbrev pub err_target_port_not_found : ℕ
err_target_port_not_found = 0x0006

abbrev pub err_target_machine_not_found : ℕ
err_target_machine_not_found = 0x0007

unfoldable pub is_error : ℕ → Bool
is_error e = not (e == err_no_error)

-- `make([]byte, length)` filled by `copy(..., data[8:8+length])`, where 8+length is a uint32.
unfoldable pub counted_data : Slice → ℕ → Result Error (List ℕ)
counted_data data_in len = do
  part ← slice data_in 8 ((8 + len) % 2 ^ 32)
  ok (copy (replicate len 0) part.bytes)

pub record ReadResponse : Type 0 where
  pub result : ℕ
  pub length : ℕ
  pub body : List ℕ

unfoldable pub unmarshal_read : Slice → Result Error ReadResponse
unmarshal_read data_in = if shorter data_in.bytes 8 then err read_short else do
  result ← read32 data_in 0 4
  len ← read32 data_in 4 8
  body ← counted_data data_in len
  ok (record { result = result; length = len; body = body })

pub record ReadWriteResponse : Type 0 where
  pub result : ℕ
  pub length : ℕ
  pub body : List ℕ

unfoldable pub unmarshal_read_write : Slice → Result Error ReadWriteResponse
unmarshal_read_write data_in = if shorter data_in.bytes 8 then err read_write_short else do
  result ← read32 data_in 0 4
  len ← read32 data_in 4 8
  body ← counted_data data_in len
  ok (record { result = result; length = len; body = body })

-- WriteResponse, WriteControlResponse and DeleteDeviceNotificationResponse hold the result alone.
unfoldable pub unmarshal_write : Slice → Result Error ℕ
unmarshal_write data_in = if shorter data_in.bytes 4 then err write_short else read32 data_in 0 4

unfoldable pub unmarshal_write_control : Slice → Result Error ℕ
unmarshal_write_control data_in =
    if shorter data_in.bytes 4 then err write_control_short else read32 data_in 0 4

unfoldable pub unmarshal_delete_notification : Slice → Result Error ℕ
unmarshal_delete_notification data_in =
    if shorter data_in.bytes 4 then err delete_notification_short else read32 data_in 0 4

pub record ReadStateResponse : Type 0 where
  pub result : ℕ
  pub ads_state : ℕ
  pub device_state : ℕ

unfoldable pub unmarshal_read_state : Slice → Result Error ReadStateResponse
unmarshal_read_state data_in = if shorter data_in.bytes 8 then err read_state_short else do
  result ← read32 data_in 0 4
  ads_state ← read16 data_in 4 6
  device_state ← read16 data_in 6 8
  ok (record { result = result; ads_state = ads_state; device_state = device_state })

pub record ReadDeviceInfoResponse : Type 0 where
  pub result : ℕ
  pub major_version : ℕ
  pub minor_version : ℕ
  pub version_build : ℕ
  pub device_name : List ℕ

-- `for i, b := range nameBytes { if b == 0 { nameLen = i; break } }`, from index `i` on; 0 where the
-- loop finds no zero byte.
unfoldable pub name_length : ℕ → List ℕ → ℕ
name_length i [] = 0
name_length i (b ∷ bs) = let rest = name_length (i + 1) bs in if b == 0 then i else rest

unfoldable pub device_name : List ℕ → List ℕ
unfolding name_length
device_name name_bytes =
    let found = name_length 0 name_bytes in
    let name_len = (if found == 0 then 16 else found) in take name_len name_bytes

unfoldable pub unmarshal_device_info : Slice → Result Error ReadDeviceInfoResponse
unmarshal_device_info data_in = if shorter data_in.bytes 24 then err device_info_short else do
  result ← read32 data_in 0 4
  major ← or_panic (get_elem? data_in.bytes 4)
  minor ← or_panic (get_elem? data_in.bytes 5)
  build ← read16 data_in 6 8
  name_bytes ← slice data_in 8 24
  ok (record {
    result = result;
    major_version = major;
    minor_version = minor;
    version_build = build;
    device_name = device_name name_bytes.bytes;
  })

pub record AddDeviceNotificationResponse : Type 0 where
  pub result : ℕ
  pub notification_handle : ℕ

unfoldable pub unmarshal_add_notification : Slice → Result Error AddDeviceNotificationResponse
unmarshal_add_notification data_in =
    if shorter data_in.bytes 8 then err add_notification_short else do
      result ← read32 data_in 0 4
      notification_handle ← read32 data_in 4 8
      ok (record { result = result; notification_handle = notification_handle })

-- GetSymbolHandleByNameResponse
unfoldable pub unmarshal_handle : Slice → Result Error ℕ
unmarshal_handle data_in =
    if shorter data_in.bytes 4
    then err (handle_short (length data_in.bytes))
    else read32 data_in 0 4

-- SymbolUploadInfoResponse and DataTypeUploadInfoResponse: a count and a size in bytes.
pub record UploadInfo : Type 0 where
  pub count : ℕ
  pub size : ℕ

unfoldable pub unmarshal_upload_info : Slice → Result Error UploadInfo
unmarshal_upload_info data_in =
    if shorter data_in.bytes 8 then err (upload_info_short (length data_in.bytes)) else do
      count ← read32 data_in 0 4
      size ← read32 data_in 4 8
      ok (record { count = count; size = size })

unfoldable pub unmarshal_data_type_info : Slice → Result Error UploadInfo
unmarshal_data_type_info data_in =
    if shorter data_in.bytes 8 then err (data_type_info_short (length data_in.bytes)) else do
      count ← read32 data_in 0 4
      size ← read32 data_in 4 8
      ok (record { count = count; size = size })
