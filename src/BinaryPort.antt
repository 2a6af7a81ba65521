-- ===== src/BinaryPort.antt =====
-- The binary port client of contract-api (crates/contract-api/src/binary_port.rs). The state is the
-- request counter and the connection. Sockets and timers (tokio) and the message types of
-- casper_binary_port are the parameters `Network` and `Protocol`.
pub mod Frames
pub mod Ids
pub mod Exchange
use casper_contract_kit.Base.{
  ℕ, ◌+◌, ◌%◌, ◌^◌, Bool, true, false, not, Option, none, some, List, ◌++◌, ◌⊎◌, inl, inr, Bytes,
  length, take, drop, ltb, ◌==◌, Outcome, ok, err, stop, panicked, Exec, pure, throw, panic, err_if,
  map_err, from_result, expect, unwrap_or, if◌then◌else◌, ◌>>=◌, ◌>>◌,
}
use casper_contract_kit.Base.LittleEndian.{to_le_bytes, from_le_bytes}

-- The formatted texts of `Error::Response`, by what they print.
pub data ResponseError : Type 0 where
  unsupported_type : ℕ → ResponseError
  too_small : ℕ → ℕ → Bytes → ResponseError
  id_mismatch : ℕ → ℕ → ResponseError

-- `Error`; the errors of other crates are told apart by a number.
pub data PortError : Type 0 where
  timeout : PortError
  response : ResponseError → PortError
  bytesrepr : ℕ → PortError
  binary_port : ℕ → PortError
  io : ℕ → PortError

-- What a call under `timeout(..)` comes to: `Err(Elapsed)`, `Ok(Err(e))` or `Ok(Ok(_))`.
pub data IoEnd : Type 0 where
  elapsed : IoEnd
  failed : ℕ → IoEnd
  finished : IoEnd

-- tokio: `TcpStream::connect`, and the timed calls. `read_exact` also gives what is then in its
-- buffer of the asked length.
pub record Network (W : Type 0) : Type 0 where
  pub connect : Bytes → W → (ℕ ⊎ Unit {0}) × W
  pub write_all : Bytes → W → IoEnd × W
  pub flush : W → IoEnd × W
  pub read_exact : ℕ → W → IoEnd × Bytes × W

-- casper_binary_port and bytesrepr: `Command::tag`, `CommandHeader::new(..).write_bytes`,
-- `Command::write_bytes`, `deserialize_from_slice` and `BinaryResponseAndRequest::request`.
pub record Protocol (Command Answer : Type 0) : Type 0 where
  pub tag : Command → ℕ
  pub header_bytes : ℕ → ℕ → ℕ ⊎ Bytes
  pub command_bytes : Command → ℕ ⊎ Bytes
  pub parse_answer : Bytes → ℕ ⊎ Answer
  pub request : Answer → Bytes

-- `BinaryResponse`, by its accessors.
pub record BinaryResponse : Type 0 where
  pub returned_data_type_tag : Option ℕ
  pub payload : Bytes

-- The static `COUNTER`, and the world of the network.
pub record Session (W : Type 0) : Type 0 where
  pub counter : ℕ
  pub link : W

-- The code never reverts.
abbrev pub Client : Type 0 → Type 0 → Type 0 → Type 0
Client W E A = Exec (Session W) ⊥ E A

abbrev pub length_field_size : ℕ
length_field_size = 4

abbrev pub request_id_start : ℕ
request_id_start = 7

abbrev pub request_id_end : ℕ
request_id_end = request_id_start + 2

module _ {W : Type 0} where
  abbrev pub initialize_request_id : ℕ → Client W PortError (Unit {0})
  initialize_request_id id s = (ok tt, record s { counter = id })

  -- `COUNTER.fetch_add(1)`, which wraps around.
  unfoldable pub fetch_add : Client W PortError ℕ
  fetch_add s = (ok s.counter, record s { counter = (s.counter + 1) % 2 ^ 16 })

module _ {W : Type 0} (net : Network W) where
  unfoldable pub connect_to_node : Bytes → Client W ℕ (Unit {0})
  connect_to_node node_address s =
      let (end, link) = net.connect node_address s.link in
      let s' = record s { link = link } in elim end [ inl e ↦ (err e, s') | inr _ ↦ (ok tt, s') ]

  -- `let _ = timeout(..).await.map_err(|_| Error::Timeout)?`: the inner result is dropped.
  unfoldable pub within : (W → IoEnd × W) → Client W PortError (Unit {0})
  within call s =
      let (end, link) = call s.link in
      let s' = record s { link = link } in
      elim end [ elapsed ↦ (err timeout, s') | failed _ ↦ (ok tt, s') | finished ↦ (ok tt, s') ]

  -- The same for `read_exact`, and the buffer afterwards.
  unfoldable pub read_within : ℕ → Client W PortError Bytes
  read_within n s =
      let (end, buffer, link) = net.read_exact n s.link in
      let s' = record s { link = link } in
      elim end [
        | elapsed ↦ (err timeout, s')
        | failed _ ↦ (ok buffer, s')
        | finished ↦ (ok buffer, s')
      ]

  unfoldable pub send_payload : Bytes → Client W PortError (Unit {0})
  send_payload payload = do
    within (net.write_all (to_le_bytes length_field_size (length payload % 2 ^ 32)))
    within (net.write_all payload)
    within net.flush
    pure tt

  unfoldable pub read_response : Client W PortError Bytes
  read_response = do
    length_buf ← read_within length_field_size
    read_within (from_le_bytes length_buf)

module _ {W Command Answer : Type 0} (protocol : Protocol Command Answer) where
  unfoldable pub encode_request : Command → ℕ → Client W ℕ Bytes
  encode_request req request_id = do
    header ← from_result (protocol.header_bytes (protocol.tag req) request_id)
    body ← from_result (protocol.command_bytes req)
    pure (header ++ body)

  unfoldable pub process_response : Bytes → ℕ → Client W PortError Answer
  process_response response_buf request_id = do
    answer ← map_err bytesrepr (from_result (protocol.parse_answer response_buf))
    let request = protocol.request answer
    err_if (ltb (length request) request_id_end)
        (response (too_small request_id_end (length request) request))
    let response_request_id = from_le_bytes (take 2 (drop request_id_start request))
    err_if (not (request_id == response_request_id))
        (response (id_mismatch request_id response_request_id))
    pure answer

module _ {W Command Answer : Type 0} (net : Network W) (protocol : Protocol Command Answer) where
  unfoldable pub send_raw : Bytes → Bytes → Option ℕ → Client W PortError Answer
  send_raw node_address bytes request_id = do
    map_err io (connect_to_node net node_address)
    send_payload net bytes
    response_buf ← read_response net
    process_response protocol response_buf (unwrap_or 0 request_id)

  unfoldable pub send_request : Bytes → Command → Client W PortError Answer
  send_request node_address request = do
    request_id ← fetch_add
    raw_bytes ← expect (encode_request protocol request request_id)
    send_raw node_address raw_bytes (some request_id)

-- `parse_response::<A>`: `response_type` is `A::RESPONSE_TYPE`, `deserialize` that of `A`.
unfoldable pub parse_response :
    {W A : Type 0} → ℕ → (Bytes → ℕ ⊎ A) → BinaryResponse → Client W PortError (Option A)
parse_response response_type deserialize r = elim r.returned_data_type_tag [
  | none ↦ pure none
  | some found ↦
      if found == response_type
      then (do a ← map_err bytesrepr (from_result (deserialize r.payload)); pure (some a))
      else throw (response (unsupported_type found))
]
