-- ===== src/Runs/Port.antt =====
-- Concrete exchanges of the binary port client over a connection in memory.
use casper_contract_kit.Base.{
  ℕ, zero, suc, ◌+◌, ◌%◌, ◌^◌, ◌≡◌, refl, ◌∙◌, ap, ◌↔◌, inr, [], ◌∷◌, ◌++◌, Bytes, length, take,
  drop, arith, ok,
}
use casper_contract_kit.Base.LittleEndian.{to_le_bytes, from_le_bytes}
use casper_contract_kit.BinaryPort.{
  Network, Protocol, Session, failed, finished, process_response, send_payload, read_response,
  send_request,
}
use casper_contract_kit.BinaryPort.Ids.{HasHeaders, Echoes, encoding, process_response_accepts_iff}
use casper_contract_kit.BinaryPort.Frames.{frame, IsReliable}
use casper_contract_kit.BinaryPort.Exchange.{
  IsBroken, read_response-send_payload, send_request_effect, broken_connection_is_silent,
}

record Wire : Type 0 where
  sent : Bytes
  incoming : Bytes

-- A connection in memory: what is sent is kept, and the peer's bytes are there.
abbrev memory_net : Network Wire
memory_net = record {
  connect = λ _ w. (inr tt, record w { sent = [] });
  write_all = λ bytes w. (finished, record w { sent = w.sent ++ bytes });
  flush = λ w. (finished, w);
  read_exact = λ n w. (finished, take n w.incoming, record w { incoming = drop n w.incoming });
}

take-append : (xs ys : Bytes) → take (length xs) (xs ++ ys) ≡ xs
take-append [] ys = refl
take-append (x ∷ xs) ys = ap (λ t. x ∷ t) (take-append xs ys)

drop-append : (xs ys : Bytes) → drop (length xs) (xs ++ ys) ≡ ys
drop-append [] ys = refl
drop-append (x ∷ xs) ys = drop-append xs ys

abbrev memory_net_laws : IsReliable memory_net
memory_net_laws = record {
  sent = λ w. w.sent;
  incoming = λ w. w.incoming;
  connect_lem = λ _ w. (refl, refl, refl);
  write_lem = λ _ w. (refl, refl, refl);
  flush_lem = λ w. (refl, refl, refl);
  read_lem = λ bytes rest w h. (
    refl,
    ap (λ x. take (length bytes) x) h ∙ take-append bytes rest,
    ap (λ x. drop (length bytes) x) h ∙ drop-append bytes rest,
    refl,
  );
}

-- A connection that the system has closed: every call fails, and the buffers keep their zeros.
abbrev zeros : ℕ → Bytes
zeros zero = []
zeros (suc n) = 0 ∷ zeros n

abbrev closed_net : Network (Unit {0})
closed_net = record {
  connect = λ _ w. (inr tt, w);
  write_all = λ _ w. (failed 32, w);
  flush = λ w. (failed 32, w);
  read_exact = λ n w. (failed 104, zeros n, w);
}

abbrev closed_net_fails : IsBroken closed_net
closed_net_fails = record {
  write_code = 32;
  read_code = 104;
  write_fails = λ _ w. refl;
  flush_fails = λ w. refl;
  read_fails = λ n w. refl;
}

-- A command is its tag; a response is the frame of the request that it echoes.
abbrev toy_protocol : Protocol ℕ Bytes
toy_protocol = record {
  tag = λ c. c;
  header_bytes = λ tag id. inr (1 ∷ 0 ∷ tag ∷ to_le_bytes 2 id);
  command_bytes = λ c. inr (c ∷ c ∷ []);
  parse_answer = λ buf. inr buf;
  request = λ a. a;
}

abbrev toy_headers : HasHeaders toy_protocol
toy_headers = record { low = 1; high = 0; header_lem = λ _ _. refl }

abbrev quiet : Session Wire
quiet = record { counter = 65535; link = record { sent = []; incoming = [] } }

abbrev echo : Bytes
echo = to_le_bytes 4 7 ++ encoding toy_headers 5 65535 (5 ∷ 5 ∷ [])

abbrev answered : Session Wire
answered = record {
  counter = 65535;
  link = record { sent = 9 ∷ []; incoming = (to_le_bytes 4 (length echo) ++ echo) ++ 8 ∷ [] };
}

process_response_accepts_iff_example :
    ((process_response toy_protocol echo 65535 quiet).0 ≡ ok echo)
    ↔ Echoes (toy_protocol.parse_answer echo) toy_protocol.request 65535 echo
process_response_accepts_iff_example =
    process_response_accepts_iff toy_protocol echo 65535 quiet echo

read_response-send_payload_example :
    let sent = (send_payload memory_net (3 ∷ 4 ∷ []) quiet).1.link.sent in
    let other = record quiet { link = record { sent = []; incoming = sent ++ 7 ∷ [] } } in
    ((read_response memory_net other).0 ≡ ok (3 ∷ 4 ∷ []))
    × ((read_response memory_net other).1.link.incoming ≡ 7 ∷ [])
read_response-send_payload_example =
    read_response-send_payload memory_net memory_net_laws (3 ∷ 4 ∷ []) (7 ∷ []) quiet
      (record quiet {
        link = record {
          sent = [];
          incoming = (send_payload memory_net (3 ∷ 4 ∷ []) quiet).1.link.sent ++ 7 ∷ [];
        };
      })
      (omega arith) refl refl

send_request_effect_example :
    let done = send_request memory_net toy_protocol [] 5 answered in
    (done.0 ≡ ok echo)
    × (done.1.link.sent ≡ frame (encoding toy_headers 5 65535 (5 ∷ 5 ∷ [])))
    × (done.1.counter ≡ (65535 + 1) % 2 ^ 16)
unfolding to_le_bytes
send_request_effect_example =
    send_request_effect memory_net memory_net_laws toy_protocol toy_headers [] 5 7 (5 ∷ 5 ∷ []) echo
      (8 ∷ []) echo answered (omega arith) (omega arith) refl refl refl refl

broken_connection_is_silent_example :
    let s : Session (Unit {0}) = record { counter = 0; link = tt } in
    ((send_payload closed_net (3 ∷ []) s).0 ≡ ok tt)
    × ((read_response closed_net s).0 ≡ ok (zeros (from_le_bytes (zeros 4))))
broken_connection_is_silent_example =
    broken_connection_is_silent closed_net closed_net_fails (3 ∷ [])
      (record { counter = 0; link = tt })
