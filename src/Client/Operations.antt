-- ===== src/Client/Operations.antt =====
-- client.go: the requests of the client, from the arguments of a method to its result, with the events
-- that its metrics get. An error that a method wraps has the words of its text without the name of the
-- symbol, and a classified error is without the index group and offset that Read and Write note in it.
pub mod Symbolic
pub mod Memory
pub mod EndToEnd
use goadstc.Base.{
  ℕ, Bool, true, false, Option, none, some, List, [], ◌∷◌, ◌++◌, ◌⊎◌, inl, inr, length, ◌%◌, ◌^◌,
  ◌==◌, shorter, if◌then◌else◌,
}
use goadstc.Go
use goadstc.Go.{Result, ok, err, panic, Slice, exact, bytes32}
use goadstc.Go.Strings.{text}
use goadstc.Ams.Packet.{Packet}
use goadstc.Ads.Requests
use goadstc.Ads.Requests.{
  Bytes, ReadRequest, cmd_read_device_info, cmd_read, cmd_write, cmd_read_state, cmd_write_control,
  cmd_read_write, marshal_read, marshal_write, marshal_read_write, marshal_write_control,
}
use goadstc.Ads.Responses
use goadstc.Ads.Responses.{
  ReadResponse, ReadWriteResponse, ReadStateResponse, ReadDeviceInfoResponse, UploadInfo,
  unmarshal_read, unmarshal_write, unmarshal_read_write, unmarshal_read_state,
  unmarshal_write_control, unmarshal_device_info, unmarshal_handle, unmarshal_upload_info,
}
use goadstc.Ads.Errors.{error_text}
use goadstc.Errors.{ErrorCategory, protocol, ads, ClassifiedError, classify_error, new_ads_error}
use goadstc.Metrics.{Event, operation_started, operation_completed, error_occurred, sent, received}
use goadstc.Client.Retry
use goadstc.Symbols.Table
use goadstc.Client.Access
use goadstc.Client.Access.{Client}
use goadstc.Client.Failure.{go_error}

-- The errors of the methods: a classified error, that of a decoder, one of sendRequest as it came, a
-- result code, and a value that is too short.
pub data Error : Type 0 where
  classified : ClassifiedError → Error
  answer : Responses.Error → Error
  request : Retry.Error → Error
  refused : ℕ → Error
  handle_answer upload_info_answer : ℕ → Error
  wrapped : List ℕ → Error → Error
  of_table : Table.Error → Error
  of_access : Access.Error → Error
  size_mismatch : ℕ → ℕ → Error
  insufficient : ℕ → Error
  empty_table : Error

-- The rest of the program during a call: the PLC and the way to it, the caches of the client, and the
-- events so far.
pub record World (S : Type 0) : Type 0 where
  pub plc : S
  pub client : Client
  pub events : List Event

-- A call changes the world and returns, fails or panics.
abbrev pub Call : Type 0 → Type 0 → Type 0
Call S A = World S → Result Error A × World S

module _ {S A B : Type 0} where
  abbrev pub after : Result Error A × World S → (A → Call S B) → Result Error B × World S
  after (ok a, w) f = f a w
  after (err e, w) f = (err e, w)
  after (panic, w) f = (panic, w)

  infixl 5 ◌>>=◌
  abbrev pub ◌>>=◌ : Call S A → (A → Call S B) → Call S B
  ◌>>=◌ m f w = after (m w) f

module _ {S : Type 0} where
  abbrev pub return : {A : Type 0} → A → Call S A
  return a w = (ok a, w)

  abbrev pub fail : {A : Type 0} → Error → Call S A
  fail e w = (err e, w)

  abbrev pub crash : {A : Type 0} → Call S A
  crash w = (panic, w)

  -- An error of `m` with a text in front of it.
  abbrev pub wrapping_result :
      {A : Type 0} → List ℕ → Result Error A × World S → Result Error A × World S
  wrapping_result message (ok a, w) = (ok a, w)
  wrapping_result message (err e, w) = (err (wrapped message e), w)
  wrapping_result message (panic, w) = (panic, w)

  abbrev pub wrapping : {A : Type 0} → List ℕ → Call S A → Call S A
  wrapping message m w = wrapping_result message (m w)

  -- Calls of the metrics.
  abbrev pub record_all : List Event → Call S (Unit {0})
  record_all es w = (ok tt, record w { events = w.events ++ es })

-- An encoder's bytes; the encoders fail on nothing.
abbrev pub encoded : {S : Type 0} → Bytes → Call S (List ℕ)
encoded (ok xs) = return xs
encoded (err e) = elim e [ ]
encoded panic = crash

-- sendRequest, the time that an operation took, and the addresses of errors are parameters.
pub record Session (S : Type 0) : Type 0 where
  pub send : ℕ → List ℕ → S → (Retry.Error ⊎ Packet) × S
  pub elapsed : S → ℕ
  pub closed_at : ℕ
  pub failed_at : ℕ
  pub address : ℕ

module _ {S : Type 0} (c : Session S) where
  unfoldable pub send_request : ℕ → List ℕ → Call S (Retry.Error ⊎ Packet)
  send_request command xs w =
      let (r, plc) = c.send command xs w.plc in (ok r, record w { plc = plc })

  -- metrics.OperationCompleted
  unfoldable pub completed : List ℕ → Bool → Call S (Unit {0})
  completed op failing w = record_all (operation_completed op (c.elapsed w.plc) failing ∷ []) w

  -- What ClassifyError gives is counted and returned.
  unfoldable pub classify : {A : Type 0} → List ℕ → Result Retry.Error ClassifiedError → Call S A
  classify op (ok ce) = do _ ← record_all (error_occurred ce.category op ∷ []); fail (classified ce)
  classify op (err e) = fail (request e)
  classify op panic = crash

  -- An error of sendRequest in a method with metrics.
  unfoldable pub request_failed : {A : Type 0} → List ℕ → Retry.Error → Call S A
  unfolding completed classify
  request_failed op e = do
    _ ← completed op true
    classify op (classify_error c.closed_at c.failed_at (go_error c.address e) op)

  -- An answer that the decoder refuses.
  unfoldable pub answer_failed : {A : Type 0} → List ℕ → Responses.Error → Call S A
  unfolding completed
  answer_failed op e = do
    _ ← completed op true
    _ ← record_all (error_occurred protocol op ∷ [])
    fail (answer e)

  -- An answer with a result code.
  unfoldable pub answer_refused : {A : Type 0} → List ℕ → ℕ → Call S A
  unfolding completed
  answer_refused op result = do
    _ ← completed op true
    _ ← record_all (error_occurred ads op ∷ [])
    fail (classified (new_ads_error op result (error_text result)))

  -- Read, from the decoded answer on.
  unfoldable pub read_answered : Result Responses.Error ReadResponse → Call S (List ℕ)
  unfolding completed answer_failed answer_refused
  read_answered (ok resp) =
      if resp.result == 0
      then (do
        _ ← record_all (received (length resp.body) ∷ [])
        _ ← completed (text "read") false
        return resp.body)
      else answer_refused (text "read") resp.result
  read_answered (err e) = answer_failed (text "read") e
  read_answered panic = crash

  unfoldable pub read_sent : Retry.Error ⊎ Packet → Call S (List ℕ)
  unfolding request_failed read_answered
  read_sent (inl e) = request_failed (text "read") e
  read_sent (inr p) = read_answered (unmarshal_read p.body)

  -- Read
  unfoldable pub read : ℕ → ℕ → ℕ → Call S (List ℕ)
  unfolding send_request read_sent
  read index_group index_offset len = do
    _ ← record_all (operation_started (text "read") ∷ [])
    xs ← encoded (
        marshal_read
          (record { index_group = index_group; index_offset = index_offset; length = len }))
    r ← send_request cmd_read xs
    read_sent r

  -- Write, from the decoded answer on.
  unfoldable pub write_answered : ℕ → Result Responses.Error ℕ → Call S (Unit {0})
  unfolding completed answer_failed answer_refused
  write_answered n (ok result) =
      if result == 0
      then (do _ ← record_all (sent n ∷ []); completed (text "write") false)
      else answer_refused (text "write") result
  write_answered n (err e) = answer_failed (text "write") e
  write_answered n panic = crash

  unfoldable pub write_sent : ℕ → Retry.Error ⊎ Packet → Call S (Unit {0})
  unfolding request_failed write_answered
  write_sent n (inl e) = request_failed (text "write") e
  write_sent n (inr p) = write_answered n (unmarshal_write p.body)

  -- Write
  unfoldable pub write : ℕ → ℕ → List ℕ → Call S (Unit {0})
  unfolding send_request write_sent
  write index_group index_offset body = do
    _ ← record_all (operation_started (text "write") ∷ [])
    xs ← encoded (
        marshal_write (record {
          index_group = index_group;
          index_offset = index_offset;
          length = length body % 2 ^ 32;
          body = body;
        }))
    r ← send_request cmd_write xs
    write_sent (length body) r

  -- ReadState, which completes no operation where it gets an answer that it can decode.
  unfoldable pub read_state_answered : Result Responses.Error ReadStateResponse → Call S (ℕ × ℕ)
  unfolding answer_failed
  read_state_answered (ok resp) =
      if resp.result == 0
      then return (resp.ads_state, resp.device_state)
      else fail (refused resp.result)
  read_state_answered (err e) = answer_failed (text "read_state") e
  read_state_answered panic = crash

  unfoldable pub read_state_sent : Retry.Error ⊎ Packet → Call S (ℕ × ℕ)
  unfolding request_failed read_state_answered
  read_state_sent (inl e) = request_failed (text "read_state") e
  read_state_sent (inr p) = read_state_answered (unmarshal_read_state p.body)

  unfoldable pub read_state : Call S (ℕ × ℕ)
  unfolding send_request read_state_sent
  read_state = do
    _ ← record_all (operation_started (text "read_state") ∷ [])
    r ← send_request cmd_read_state []
    read_state_sent r

  -- The methods without metrics: a decoder's result, by its error.
  abbrev pub decoded : {A : Type 0} → Result Responses.Error A → Call S A
  decoded (ok a) = return a
  decoded (err e) = fail (answer e)
  decoded panic = crash

  abbrev pub answered : Retry.Error ⊎ Packet → Call S Packet
  answered (inl e) = fail (request e)
  answered (inr p) = return p

  -- ReadDeviceInfo
  unfoldable pub read_device_info : Call S ReadDeviceInfoResponse
  unfolding send_request
  read_device_info = do
    r ← send_request cmd_read_device_info []
    p ← answered r
    resp ← decoded (unmarshal_device_info p.body)
    if resp.result == 0 then return resp else fail (refused resp.result)

  -- WriteControl
  unfoldable pub write_control : ℕ → ℕ → List ℕ → Call S (Unit {0})
  unfolding send_request
  write_control ads_state device_state body = do
    xs ← encoded (
        marshal_write_control (record {
          ads_state = ads_state;
          device_state = device_state;
          length = length body % 2 ^ 32;
          body = body;
        }))
    r ← send_request cmd_write_control xs
    p ← answered r
    result ← decoded (unmarshal_write_control p.body)
    if result == 0 then return tt else fail (refused result)

  -- ReadWrite
  unfoldable pub read_write : ℕ → ℕ → ℕ → List ℕ → Call S (List ℕ)
  unfolding send_request
  read_write index_group index_offset read_length write_data = do
    xs ← encoded (
        marshal_read_write (record {
          index_group = index_group;
          index_offset = index_offset;
          read_length = read_length;
          write_length = length write_data % 2 ^ 32;
          body = write_data;
        }))
    r ← send_request cmd_read_write xs
    p ← answered r
    resp ← decoded (unmarshal_read_write p.body)
    if resp.result == 0 then return resp.body else fail (refused resp.result)

  -- GetSymbolHandle; a slice that a method returns has no bytes behind it that are read.
  unfoldable pub get_symbol_handle : List ℕ → Call S ℕ
  unfolding read_write
  get_symbol_handle name = do
    xs ← wrapping (text "get symbol handle") (read_write 0xF003 0 4 (name ++ (0 ∷ [])))
    if shorter xs 4
        then fail (handle_answer (length xs))
        else wrapping (text "parse symbol handle response") (decoded (unmarshal_handle (exact xs)))

  -- ReleaseSymbolHandle
  unfoldable pub release_symbol_handle : ℕ → Call S (Unit {0})
  unfolding write
  release_symbol_handle symbol_handle =
      wrapping (text "release symbol handle") (write 0xF006 0 (bytes32 symbol_handle))

  -- GetSymbolUploadInfo
  unfoldable pub get_symbol_upload_info : Call S UploadInfo
  unfolding read
  get_symbol_upload_info = do
    xs ← wrapping (text "get symbol upload info") (read 0xF00C 0 0x30)
    if shorter xs 8
        then fail (upload_info_answer (length xs))
        else wrapping (text "parse symbol upload info") (decoded (unmarshal_upload_info (exact xs)))

  -- UploadSymbolTable, without the deadline of its second request.
  unfoldable pub upload_symbol_table : Call S (List ℕ)
  unfolding get_symbol_upload_info read
  upload_symbol_table = do
    info ← get_symbol_upload_info
    if info.size == 0
        then fail empty_table
        else wrapping (text "upload symbol table") (read 0xF00B 0 info.size)
