-- ===== src/Ads/Requests.antt =====
-- internal/ads/commands.go and symbols.go: command numbers and the requests with their encoders.
pub mod Layout
use goadstc.Base.{ℕ, ◌+◌, List, [], ◌∷◌, ◌++◌, length, replicate}
use goadstc.Go.{Result, ok, ◌>>=◌, put16, put32, put_byte, copy_to}

-- type CommandID
abbrev pub cmd_read_device_info : ℕ
cmd_read_device_info = 0x0001

abbrev pub cmd_read : ℕ
cmd_read = 0x0002

abbrev pub cmd_write : ℕ
cmd_write = 0x0003

abbrev pub cmd_read_state : ℕ
cmd_read_state = 0x0004

abbrev pub cmd_write_control : ℕ
cmd_write_control = 0x0005

abbrev pub cmd_add_device_notification : ℕ
cmd_add_device_notification = 0x0006

abbrev pub cmd_del_device_notification : ℕ
cmd_del_device_notification = 0x0007

abbrev pub cmd_device_notification : ℕ
cmd_device_notification = 0x0008

abbrev pub cmd_read_write : ℕ
cmd_read_write = 0x0009

-- The encoders return no error.
pub data NoError : Type 0 where

abbrev pub Bytes : Type 0
Bytes = Result NoError (List ℕ)

pub record ReadRequest : Type 0 where
  pub index_group : ℕ
  pub index_offset : ℕ
  pub length : ℕ

unfoldable pub marshal_read : ReadRequest → Bytes
marshal_read r = do
  let buf : List ℕ = replicate 12 0
  buf ← put32 r.index_group 0 buf
  buf ← put32 r.index_offset 4 buf
  buf ← put32 r.length 8 buf
  ok buf

pub record WriteRequest : Type 0 where
  pub index_group : ℕ
  pub index_offset : ℕ
  pub length : ℕ
  pub body : List ℕ

unfoldable pub marshal_write : WriteRequest → Bytes
marshal_write w = do
  let buf : List ℕ = replicate (12 + length w.body) 0
  buf ← put32 w.index_group 0 buf
  buf ← put32 w.index_offset 4 buf
  buf ← put32 w.length 8 buf
  buf ← copy_to w.body 12 buf
  ok buf

pub record ReadWriteRequest : Type 0 where
  pub index_group : ℕ
  pub index_offset : ℕ
  pub read_length : ℕ
  pub write_length : ℕ
  pub body : List ℕ

unfoldable pub marshal_read_write : ReadWriteRequest → Bytes
marshal_read_write r = do
  let buf : List ℕ = replicate (16 + length r.body) 0
  buf ← put32 r.index_group 0 buf
  buf ← put32 r.index_offset 4 buf
  buf ← put32 r.read_length 8 buf
  buf ← put32 r.write_length 12 buf
  buf ← copy_to r.body 16 buf
  ok buf

pub record WriteControlRequest : Type 0 where
  pub ads_state : ℕ
  pub device_state : ℕ
  pub length : ℕ
  pub body : List ℕ

unfoldable pub marshal_write_control : WriteControlRequest → Bytes
marshal_write_control w = do
  let buf : List ℕ = replicate (8 + length w.body) 0
  buf ← put16 w.ads_state 0 buf
  buf ← put16 w.device_state 2 buf
  buf ← put32 w.length 4 buf
  buf ← copy_to w.body 8 buf
  ok buf

pub record AddDeviceNotificationRequest : Type 0 where
  pub index_group : ℕ
  pub index_offset : ℕ
  pub length : ℕ
  pub transmission_mode : ℕ
  pub max_delay : ℕ
  pub cycle_time : ℕ

unfoldable pub marshal_add_notification : AddDeviceNotificationRequest → Bytes
marshal_add_notification a = do
  let buf : List ℕ = replicate 40 0
  buf ← put32 a.index_group 0 buf
  buf ← put32 a.index_offset 4 buf
  buf ← put32 a.length 8 buf
  buf ← put32 a.transmission_mode 12 buf
  buf ← put32 a.max_delay 16 buf
  buf ← put32 a.cycle_time 20 buf
  ok buf

-- DeleteDeviceNotificationRequest and ReleaseSymbolHandleRequest hold one handle each.
unfoldable pub marshal_delete_notification : ℕ → Bytes
marshal_delete_notification notification_handle = do
  let buf : List ℕ = replicate 4 0
  buf ← put32 notification_handle 0 buf
  ok buf

unfoldable pub marshal_release_handle : ℕ → Bytes
marshal_release_handle symbol_handle = do
  let buf : List ℕ = replicate 4 0
  buf ← put32 symbol_handle 0 buf
  ok buf

-- GetSymbolHandleByNameRequest and SymbolInfoByNameRequest: the name and a zero byte.
unfoldable pub marshal_handle_by_name : List ℕ → Bytes
marshal_handle_by_name name = do
  let buf : List ℕ = replicate (length name + 1) 0
  buf ← copy_to name 0 buf
  buf ← put_byte 0 (length name) buf
  ok buf
