-- ===== src/BinaryPort/Exchange.antt =====
-- Whole exchanges over the wire: what one end sends and the other reads, a request with its
-- response, and what is made of failures.
use casper_contract_kit.Base.{
  ℕ, zero, suc, ◌+◌, ◌%◌, ◌^◌, ◌≤◌, ◌<◌, ◌≡◌, refl, ◌∙◌, ap, sym, inr, [], ◌∷◌, ◌++◌, Bytes, length,
  take, drop, arith, ok, append_assoc, map_err,
}
use casper_contract_kit.Base.LittleEndian.{to_le_bytes, from_le_bytes}
use casper_contract_kit.BinaryPort.Ids.{HasHeaders, encoding, encode_request_lem, process_echo}
use casper_contract_kit.BinaryPort.{
  PortError, Network, Protocol, Session, failed, within, read_within, connect_to_node, fetch_add,
  send_payload, read_response, send_raw, send_request,
}
use casper_contract_kit.BinaryPort.Frames.{
  frame, IsReliable, send_payload_lem, read_response_lem, connect_to_node_lem,
}

-- The part of a payload that its cut length covers.
abbrev pub covered : Bytes → Bytes
covered payload = take (length payload % 2 ^ 32) payload

take-drop : (n : ℕ) (xs : Bytes) → take n xs ++ drop n xs ≡ xs
take-drop zero xs = refl
take-drop (suc n) [] = refl
take-drop (suc n) (x ∷ xs) = ap (λ t. x ∷ t) (take-drop n xs)

length-take : (n : ℕ) (xs : Bytes) → n ≤ length xs → length (take n xs) ≡ n
length-take zero xs h = refl
length-take (suc n) [] h = absurd (omega arith)
length-take (suc n) (x ∷ xs) h = ap suc (length-take n xs (omega arith))

drop_all : (xs : Bytes) → drop (length xs) xs ≡ []
drop_all [] = refl
drop_all (x ∷ xs) = drop_all xs

take_all : (xs : Bytes) → take (length xs) xs ≡ xs
take_all [] = refl
take_all (x ∷ xs) = ap (λ t. x ∷ t) (take_all xs)

module _ {W : Type 0} (net : Network W) (reliable : IsReliable net) where
  open reliable use {sent, incoming}

  -- The part of a payload that its cut length covers is what the other end reads.
  read_covered :
      (payload rest : Bytes) (s t : Session W)
      → sent s.link ≡ []
      → incoming t.link ≡ sent (send_payload net payload s).1.link ++ rest
      → ((read_response net t).0 ≡ ok (covered payload))
        × (incoming (read_response net t).1.link ≡ drop (length payload % 2 ^ 32) payload ++ rest)
  read_covered payload rest s t fresh arrives =
      let n = length payload % 2 ^ 32 in
      let len = to_le_bytes 4 n in
      let cut : len ++ payload ≡ (len ++ take n payload) ++ drop n payload =
        ap (λ x. len ++ x) (sym (take-drop n payload))
        ∙ sym (append_assoc len (take n payload) (drop n payload)) in
      let sent_all : sent (send_payload net payload s).1.link ≡ len ++ payload =
        (send_payload_lem net reliable payload s).1 ∙ ap (λ x. x ++ frame payload) fresh in
      let stream : incoming t.link ≡ (len ++ take n payload) ++ (drop n payload ++ rest) =
        arrives
        ∙ ap (λ x. x ++ rest) (sent_all ∙ cut)
        ∙ append_assoc (len ++ take n payload) (drop n payload) rest in
      let got =
        read_response_lem net reliable n (take n payload) (drop n payload ++ rest) t (omega arith)
          (length-take n payload (omega arith)) stream in
      (got.0, got.1)

  -- A payload of less than 2^32 bytes that one end sends first over a reliable connection is what
  -- the other end reads, and what was sent after it is left for the next read.
  pub read_response-send_payload :
      (payload rest : Bytes) (s t : Session W)
      → length payload < 2 ^ 32
      → sent s.link ≡ []
      → incoming t.link ≡ sent (send_payload net payload s).1.link ++ rest
      → ((read_response net t).0 ≡ ok payload) × (incoming (read_response net t).1.link ≡ rest)
  read_response-send_payload payload rest s t lt fresh arrives =
      let n : length payload % 2 ^ 32 ≡ length payload = omega arith in
      let got = read_covered payload rest s t fresh arrives in
      (
        got.0 ∙ ap ok (ap (λ k. take k payload) n ∙ take_all payload),
        got.1 ∙ ap (λ x. x ++ rest) (ap (λ k. drop k payload) n ∙ drop_all payload),
      )

module _ {W Command Answer : Type 0} (net : Network W) (reliable : IsReliable net)
    (protocol : Protocol Command Answer) where
  open reliable use {sent, incoming}

  -- A request over a reliable connection to a peer whose first frame is a response that echoes the
  -- frame of the request: the answer is what that response parses to, the frame of the request
  -- under the current id is all that was sent, and the counter has moved on, modulo 2^16.
  pub send_request_effect :
      (h : HasHeaders protocol) (address : Bytes) (request : Command) (n : ℕ)
      (body buf rest : Bytes) (a : Answer) (s : Session W)
      → s.counter < 2 ^ 16
      → length buf < 2 ^ 32
      → protocol.command_bytes request ≡ inr body
      → incoming s.link ≡ (to_le_bytes 4 (length buf) ++ buf) ++ rest
      → protocol.parse_answer buf ≡ inr a
      → protocol.request a ≡ to_le_bytes 4 n ++ encoding h request s.counter body
      → let done = send_request net protocol address request s in
        (done.0 ≡ ok a)
        × (sent done.1.link ≡ frame (encoding h request s.counter body))
        × (done.1.counter ≡ (s.counter + 1) % 2 ^ 16)
  unfolding send_request send_raw fetch_add
  send_request_effect h address request n body buf rest a s id_lt lt b arrives parsed echo =
      let bytes = encoding h request s.counter body in
      let s1 = (fetch_add s).1 in
      let s2 = (map_err PortError.io (connect_to_node net address) s1).1 in
      let s3 = (send_payload net bytes s2).1 in
      let c = connect_to_node_lem net reliable address s1 in
      let p = send_payload_lem net reliable bytes s2 in
      let r =
        read_response_lem net reliable (length buf) buf rest s3 lt refl (p.2 ∙ c.2 ∙ arrives) in
      let s4 = (read_response net s3).1 in
      ground (
        arith,
        encode_request_lem h request s.counter body s1 b,
        c,
        p,
        r,
        process_echo h request s.counter n body buf a s4 id_lt parsed echo,
      )

-- A connection on which every call fails with an error of the system.
pub record IsBroken {W : Type 0} (net : Network W) : Type 0 where
  pub write_code : ℕ
  pub read_code : ℕ
  pub write_fails : (bytes : Bytes) (w : W) → (net.write_all bytes w).0 ≡ failed write_code
  pub flush_fails : (w : W) → (net.flush w).0 ≡ failed write_code
  pub read_fails : (n : ℕ) (w : W) → (net.read_exact n w).0 ≡ failed read_code

module _ {W : Type 0} (net : Network W) where
  -- On a connection on which every write, flush and read fails with an I/O error, send_payload
  -- reports success and read_response answers what is in its buffer as if it had been received.
  pub broken_connection_is_silent :
      (broken : IsBroken net) (payload : Bytes) (s : Session W)
      → ((send_payload net payload s).0 ≡ ok tt)
        × (let (_, length_buf, w) = net.read_exact 4 s.link in
            (read_response net s).0 ≡ ok (net.read_exact (from_le_bytes length_buf) w).1)
  unfolding send_payload read_response within read_within
  broken_connection_is_silent broken payload s =
      grind (arith, broken.write_fails, broken.flush_fails, broken.read_fails)
