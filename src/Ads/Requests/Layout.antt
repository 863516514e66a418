-- ===== src/Ads/Requests/Layout.antt =====
-- internal/ads/commands.go and symbols.go: each request on the wire.
use goadstc.Base.{ℕ, ◌≡◌, refl, some, List, [], ◌∷◌, ◌++◌, length, replicate, replicate-add}
use goadstc.Go.{ok, put_at, bytes16, bytes32, copy-replicate, copy-replicate_add}
use goadstc.Ads.Requests.{
  Bytes, ReadRequest, marshal_read, WriteRequest, marshal_write, ReadWriteRequest,
  marshal_read_write, WriteControlRequest, marshal_write_control, AddDeviceNotificationRequest,
  marshal_add_notification, marshal_delete_notification, marshal_release_handle,
  marshal_handle_by_name,
}

-- Any request of the protocol that has a body of its own.
pub data Request : Type 0 where
  read : ReadRequest → Request
  write : WriteRequest → Request
  read_write : ReadWriteRequest → Request
  write_control : WriteControlRequest → Request
  add_notification : AddDeviceNotificationRequest → Request
  delete_notification : ℕ → Request
  release_handle : ℕ → Request
  handle_by_name : List ℕ → Request

-- The encoder of its type.
unfoldable pub encode : Request → Bytes
unfolding marshal_read marshal_write marshal_read_write marshal_write_control
    marshal_add_notification marshal_delete_notification marshal_release_handle
    marshal_handle_by_name
encode (read r) = marshal_read r
encode (write r) = marshal_write r
encode (read_write r) = marshal_read_write r
encode (write_control r) = marshal_write_control r
encode (add_notification r) = marshal_add_notification r
encode (delete_notification h) = marshal_delete_notification h
encode (release_handle h) = marshal_release_handle h
encode (handle_by_name name) = marshal_handle_by_name name

-- The bytes that the ADS specification gives for it: its fields in order, little-endian.
unfoldable pub wire : Request → List ℕ
unfolding bytes16 bytes32
wire (read r) = bytes32 r.index_group ++ (bytes32 r.index_offset ++ bytes32 r.length)
wire (write r) = bytes32 r.index_group ++ (bytes32 r.index_offset ++ (bytes32 r.length ++ r.body))
wire (read_write r) =
    bytes32 r.index_group
    ++ (bytes32 r.index_offset ++ (bytes32 r.read_length ++ (bytes32 r.write_length ++ r.body)))
wire (write_control r) =
    bytes16 r.ads_state ++ (bytes16 r.device_state ++ (bytes32 r.length ++ r.body))
wire (add_notification r) =
    bytes32 r.index_group
    ++ (bytes32 r.index_offset
        ++ (bytes32 r.length
            ++ (bytes32 r.transmission_mode
                ++ (bytes32 r.max_delay ++ (bytes32 r.cycle_time ++ replicate 16 0)))))
wire (delete_notification h) = bytes32 h
wire (release_handle h) = bytes32 h
wire (handle_by_name name) = name ++ (0 ∷ [])

put_at-append :
    (a bs buf : List ℕ) (r : List ℕ)
    → put_at 0 bs buf ≡ some r
    → put_at (length a) bs (a ++ buf) ≡ some (a ++ r)
put_at-append [] bs buf r e = e
put_at-append (x ∷ a) bs buf r e = rw (put_at-append a bs buf r e)

-- Every encoder writes exactly the specified bytes, and none panics.
pub encode-wire : (r : Request) → encode r ≡ ok (wire r)
unfolding encode wire
encode-wire (read r) = refl
encode-wire (write r) = rw (replicate-add {A = ℕ} 12 (length r.body) 0) (rw (copy-replicate r.body))
encode-wire (read_write r) =
    rw (replicate-add {A = ℕ} 16 (length r.body) 0) (rw (copy-replicate r.body))
encode-wire (write_control r) =
    rw (replicate-add {A = ℕ} 8 (length r.body) 0) (rw (copy-replicate r.body))
encode-wire (add_notification r) = refl
encode-wire (delete_notification h) = refl
encode-wire (release_handle h) = refl
encode-wire (handle_by_name name) =
    rw (copy-replicate_add name 1) (rw (put_at-append name (0 ∷ []) (0 ∷ []) (0 ∷ []) refl))
