-- ===== src/BinaryPort/Ids.antt =====
-- The request ids of the binary port client: the counter, and the checks on a response.
use casper_contract_kit.Base.{
  ℕ, zero, suc, ◌+◌, ◌%◌, ◌^◌, ◌≤◌, ◌<◌, ◌≡◌, refl, ◌∙◌, ap, sym, ◌≢◌, ◌↔◌, ◌⊎◌, inl, inr, ◌∷◌,
  ◌++◌, Bytes, length, take, drop, if◌then◌else◌, ◌==◌, arith, Option, none, some, expect, ok, err,
}
use casper_contract_kit.Base.LittleEndian.{to_le_bytes, from_le_bytes}
use casper_contract_kit.BinaryPort.{
  PortError, ResponseError, Protocol, Session, request_id_start, request_id_end, fetch_add,
  encode_request, process_response, initialize_request_id, BinaryResponse, parse_response,
}

-- The session after some requests took their ids.
pub after : {W : Type 0} → ℕ → Session W → Session W
after zero s = s
after (suc n) s = (fetch_add (after n s)).1

-- The id that the next request takes.
pub next_id : {W : Type 0} → Session W → ℕ
next_id s = s.counter

counter-after :
    {W : Type 0} (n : ℕ) (s : Session W)
    → s.counter < 2 ^ 16
    → (after n s).counter ≡ (s.counter + n) % 2 ^ 16
unfolding after fetch_add
counter-after zero s h = omega arith
counter-after (suc n) s h = omega (arith, counter-after n s h)

same_id :
    {W : Type 0} (s : Session W) (i j : ℕ)
    → s.counter < 2 ^ 16
    → i < j
    → j < i + 2 ^ 16
    → (after i s).counter ≢ (after j s).counter
same_id s i j h lt near e = omega (arith, counter-after i s h, counter-after j s h)

-- Whatever order the requests of a process come in, any 65536 of them in a row take different ids,
-- below 65536, beginning with the id that was set; the next one takes the first id again.
pub fetch_add_distinct :
    {W : Type 0} (s : Session W) (id i j : ℕ)
    → id < 2 ^ 16
    → i < j
    → j < i + 2 ^ 16
    → let s0 = (initialize_request_id id s).1 in
      let id_of = λ (n : ℕ). (fetch_add (after n s0)).0 in
      (id_of 0 ≡ ok id)
      × (id_of j ≡ ok ((id + j) % 2 ^ 16))
      × (id_of i ≢ id_of j)
      × (id_of (i + 2 ^ 16) ≡ id_of i)
unfolding fetch_add initialize_request_id after
fetch_add_distinct s id i j h lt near =
    let s0 = (initialize_request_id id s).1 in
    (
      refl,
      ap ok (counter-after j s0 h),
      (λ e. same_id s0 i j h lt near (cc)),
      ap ok (counter-after (i + 2 ^ 16) s0 h ∙ omega arith ∙ sym (counter-after i s0 h)),
    )

-- The id that a response carries: the two bytes of the echoed request after its first seven.
abbrev pub echoed_id : Bytes → ℕ
echoed_id request = from_le_bytes (take 2 (drop request_id_start request))

-- The documented layout of a command header: two bytes of version, one of tag, two of id.
pub record HasHeaders {Command Answer : Type 0} (protocol : Protocol Command Answer) : Type 0 where
  pub low : ℕ
  pub high : ℕ
  pub header_lem :
      (tag id : ℕ) → protocol.header_bytes tag id ≡ inr (low ∷ high ∷ tag ∷ to_le_bytes 2 id)

-- What makes a response acceptable for a request id.
pub record Echoes {Answer : Type 0} (parsed : ℕ ⊎ Answer) (request : Answer → Bytes) (id : ℕ)
    (a : Answer) : Type 0 where
  pub parsed_as : parsed ≡ inr a
  pub long_enough : request_id_end ≤ length (request a)
  pub same_id : echoed_id (request a) ≡ id

-- Such a request in its frame, as a node echoes it.
echoed_frame :
    (low high tag sent n : ℕ) (body : Bytes)
    → sent < 2 ^ 16
    → (request_id_end ≤ length (to_le_bytes 4 n ++ low ∷ high ∷ tag ∷ (to_le_bytes 2 sent ++ body)))
      × (echoed_id (to_le_bytes 4 n ++ low ∷ high ∷ tag ∷ (to_le_bytes 2 sent ++ body)) ≡ sent)
unfolding to_le_bytes from_le_bytes
echoed_frame low high tag sent n body lt = (omega arith, omega arith)

module _ {W Command Answer : Type 0} (protocol : Protocol Command Answer) where
  accepted :
      (buf : Bytes) (id : ℕ) (s : Session W) (a : Answer) (r : ℕ ⊎ Answer)
      → protocol.parse_answer buf ≡ r
      → ((process_response protocol buf id s).0 ≡ ok a) ↔ Echoes r protocol.request id a
  unfolding process_response
  accepted buf id s a (inl e) h = rw h (λ p. cc, λ q. cc (q.parsed_as))
  accepted buf id s a (inr b) h = rw h (
    λ p. record { parsed_as = ground arith; long_enough = ground arith; same_id = ground arith },
    λ q. ground arith,
  )

  -- A response is accepted exactly if it parses, its request has at least nine bytes, and the two
  -- bytes after the first seven are the expected id. The answer is then what was parsed.
  pub process_response_accepts_iff :
      (buf : Bytes) (id : ℕ) (s : Session W) (a : Answer)
      → ((process_response protocol buf id s).0 ≡ ok a)
        ↔ Echoes (protocol.parse_answer buf) protocol.request id a
  process_response_accepts_iff buf id s a = accepted buf id s a (protocol.parse_answer buf) refl

  -- What an encoded request begins with.
  encoded_request :
      (h : HasHeaders protocol) (req : Command) (sent : ℕ) (s : Session W) {bytes : Bytes}
      (r : ℕ ⊎ Bytes)
      → protocol.command_bytes req ≡ r
      → (encode_request protocol req sent s).0 ≡ ok bytes
      → (body : Bytes) × (bytes ≡ h.low ∷ h.high ∷ protocol.tag req ∷ (to_le_bytes 2 sent ++ body))
  unfolding encode_request
  encoded_request h req sent s (inl x) b e = ground (arith, h.header_lem (protocol.tag req) sent)
  encoded_request h req sent s (inr body) b e =
      (body, ground (arith, h.header_lem (protocol.tag req) sent))

  -- A node that echoes the frame of a request, sent under one id, is accepted by a client that
  -- expects this id, and by no other: that one reports both ids.
  pub process_response-encode_request :
      (h : HasHeaders protocol) (req : Command) (sent id n : ℕ) (buf : Bytes) (s t : Session W)
      {bytes : Bytes} {a : Answer}
      → sent < 2 ^ 16
      → (encode_request protocol req sent s).0 ≡ ok bytes
      → protocol.parse_answer buf ≡ inr a
      → protocol.request a ≡ to_le_bytes 4 n ++ bytes
      → (process_response protocol buf id t).0 ≡ (
          if id == sent then ok a else err (PortError.response (ResponseError.id_mismatch id sent)))
  unfolding process_response
  process_response-encode_request h req sent id n buf s t lt enc parsed echo =
      let (body, shape) = encoded_request h req sent s (protocol.command_bytes req) refl enc in
      ground (arith, echoed_frame h.low h.high (protocol.tag req) sent n body lt)

-- A request's encoding, where its command serializes to `body`.
abbrev pub encoding :
    {Command Answer : Type 0} {protocol : Protocol Command Answer}
    → HasHeaders protocol
    → Command
    → ℕ
    → Bytes
    → Bytes
encoding {protocol} h req id body = h.low ∷ h.high ∷ protocol.tag req ∷ (to_le_bytes 2 id ++ body)

module _ {W Command Answer : Type 0} {protocol : Protocol Command Answer}
    (h : HasHeaders protocol) where
  pub encode_request_lem :
      (req : Command) (id : ℕ) (body : Bytes) (t : Session W)
      → protocol.command_bytes req ≡ inr body
      → expect {F = PortError} (encode_request protocol req id) t ≡ (ok (encoding h req id body), t)
  unfolding encode_request
  encode_request_lem req id body t b = rw (h.header_lem (protocol.tag req) id, b) refl

  -- The response to a request, from a peer that echoes the request's frame.
  pub process_echo :
      (req : Command) (id n : ℕ) (body buf : Bytes) (a : Answer) (t : Session W)
      → id < 2 ^ 16
      → protocol.parse_answer buf ≡ inr a
      → protocol.request a ≡ to_le_bytes 4 n ++ encoding h req id body
      → process_response protocol buf id t ≡ (ok a, t)
  unfolding process_response
  process_echo req id n body buf a t lt parsed echo =
      ground (arith, echoed_frame h.low h.high (protocol.tag req) id n body lt)

module _ {W A : Type 0} (response_type : ℕ) (deserialize : Bytes → ℕ ⊎ A) (r : BinaryResponse) where
  parsed :
      (s : Session W) (tag : Option ℕ) (d : ℕ ⊎ A) (a : A)
      → r.returned_data_type_tag ≡ tag
      → deserialize r.payload ≡ d
      → (((parse_response response_type deserialize r s).0 ≡ ok (some a))
          ↔ ((tag ≡ some response_type) × (d ≡ inr a)))
        × (((parse_response response_type deserialize r s).0 ≡ ok none) ↔ (tag ≡ none))
  unfolding parse_response
  parsed s none d a e h = rw e ((λ p. cc, λ q. cc), (λ p. refl, λ q. refl))
  parsed s (some t) (inl x) a e h =
      rw (e, h) ((λ p. ground arith, λ q. ground arith), (λ p. ground arith, λ q. ground arith))
  parsed s (some t) (inr b) a e h =
      rw (e, h)
        (
          (λ p. (ground arith, ground arith), λ q. ground arith),
          (λ p. ground arith, λ q. ground arith),
        )

  -- parse_response gives a value exactly if the response has the tag of the asked type and its
  -- payload deserializes to this value, and gives no value exactly if the response has no tag.
  pub parse_response_accepts_iff :
      (s : Session W) (a : A)
      → (((parse_response response_type deserialize r s).0 ≡ ok (some a))
          ↔ ((r.returned_data_type_tag ≡ some response_type) × (deserialize r.payload ≡ inr a)))
        × (((parse_response response_type deserialize r s).0 ≡ ok none)
            ↔ (r.returned_data_type_tag ≡ none))
  parse_response_accepts_iff s a =
      parsed s r.returned_data_type_tag (deserialize r.payload) a refl refl
