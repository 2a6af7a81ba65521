-- ===== src/BinaryPort/Frames.antt =====
-- Frames on the wire: a length of four bytes and the payload, as send_payload writes and
-- read_response reads them.
use casper_contract_kit.Base.{
  ℕ, ◌%◌, ◌^◌, ◌<◌, ◌≡◌, ◌∙◌, inr, [], ◌++◌, Bytes, length, arith, ok, append_assoc, map_err,
}
use casper_contract_kit.Base.LittleEndian.{
  to_le_bytes, length-to_le_bytes, from_le_bytes-to_le_bytes,
}
use casper_contract_kit.BinaryPort.{
  PortError, Network, Session, finished, within, read_within, connect_to_node, send_payload,
  read_response,
}

-- What goes over the wire for a payload; the length is cut to 32 bits.
abbrev pub frame : Bytes → Bytes
frame payload = to_le_bytes 4 (length payload % 2 ^ 32) ++ payload

-- A connection without faults, by what was sent on it and what the peer sends: writes and flushes
-- finish, and a read finishes with the next bytes of the peer if there are as many.
pub record IsReliable {W : Type 0} (net : Network W) : Type 0 where
  pub sent : W → Bytes
  pub incoming : W → Bytes
  pub connect_lem :
      (address : Bytes) (w : W)
      → ((net.connect address w).0 ≡ inr tt)
        × (sent (net.connect address w).1 ≡ [])
        × (incoming (net.connect address w).1 ≡ incoming w)
  pub write_lem :
      (bytes : Bytes) (w : W)
      → ((net.write_all bytes w).0 ≡ finished)
        × (sent (net.write_all bytes w).1 ≡ sent w ++ bytes)
        × (incoming (net.write_all bytes w).1 ≡ incoming w)
  pub flush_lem :
      (w : W)
      → ((net.flush w).0 ≡ finished)
        × (sent (net.flush w).1 ≡ sent w)
        × (incoming (net.flush w).1 ≡ incoming w)
  pub read_lem :
      (bytes rest : Bytes) (w : W)
      → incoming w ≡ bytes ++ rest
      → ((net.read_exact (length bytes) w).0 ≡ finished)
        × ((net.read_exact (length bytes) w).1 ≡ bytes)
        × (incoming (net.read_exact (length bytes) w).2 ≡ rest)
        × (sent (net.read_exact (length bytes) w).2 ≡ sent w)

module _ {W : Type 0} (net : Network W) (reliable : IsReliable net) where
  open reliable use {sent, incoming, connect_lem, write_lem, flush_lem, read_lem}

  -- How the next bytes of the peer are read.
  read_within_lem :
      (n : ℕ) (bytes rest : Bytes) (s : Session W)
      → length bytes ≡ n
      → incoming s.link ≡ bytes ++ rest
      → ((read_within net n s).0 ≡ ok bytes)
        × (incoming (read_within net n s).1.link ≡ rest)
        × (sent (read_within net n s).1.link ≡ sent s.link)
        × ((read_within net n s).1.counter ≡ s.counter)
  unfolding read_within
  read_within_lem n bytes rest s e h = rw (← e) (ground (arith, read_lem bytes rest s.link))

  write_within_lem :
      (bytes : Bytes) (s : Session W)
      → ((within net (net.write_all bytes) s).0 ≡ ok tt)
        × (sent (within net (net.write_all bytes) s).1.link ≡ sent s.link ++ bytes)
        × (incoming (within net (net.write_all bytes) s).1.link ≡ incoming s.link)
        × ((within net (net.write_all bytes) s).1.counter ≡ s.counter)
  unfolding within
  write_within_lem bytes s = ground (arith, write_lem bytes s.link)

  flush_within_lem :
      (s : Session W)
      → ((within net net.flush s).0 ≡ ok tt)
        × (sent (within net net.flush s).1.link ≡ sent s.link)
        × (incoming (within net net.flush s).1.link ≡ incoming s.link)
        × ((within net net.flush s).1.counter ≡ s.counter)
  unfolding within
  flush_within_lem s = ground (arith, flush_lem s.link)

  -- A payload is sent as its frame.
  pub send_payload_lem :
      (payload : Bytes) (s : Session W)
      → ((send_payload net payload s).0 ≡ ok tt)
        × (sent (send_payload net payload s).1.link ≡ sent s.link ++ frame payload)
        × (incoming (send_payload net payload s).1.link ≡ incoming s.link)
        × ((send_payload net payload s).1.counter ≡ s.counter)
  unfolding send_payload
  send_payload_lem payload s =
      let len = to_le_bytes 4 (length payload % 2 ^ 32) in
      let s1 = (within net (net.write_all len) s).1 in
      let s2 = (within net (net.write_all payload) s1).1 in
      ground (
        arith,
        write_within_lem len s,
        write_within_lem payload s1,
        flush_within_lem s2,
        append_assoc (sent s.link) len payload,
      )

  -- A frame whose length field says how long its body is is read whole.
  pub read_response_lem :
      (n : ℕ) (body rest : Bytes) (s : Session W)
      → n < 2 ^ 32
      → length body ≡ n
      → incoming s.link ≡ (to_le_bytes 4 n ++ body) ++ rest
      → ((read_response net s).0 ≡ ok body)
        × (incoming (read_response net s).1.link ≡ rest)
        × (sent (read_response net s).1.link ≡ sent s.link)
        × ((read_response net s).1.counter ≡ s.counter)
  unfolding read_response
  read_response_lem n body rest s lt e h =
      let len = to_le_bytes 4 n in
      let first =
        read_within_lem 4 len (body ++ rest) s (length-to_le_bytes 4 n)
          (h ∙ append_assoc len body rest) in
      let s1 = (read_within net 4 s).1 in
      ground
        (arith, first, from_le_bytes-to_le_bytes 4 n lt, read_within_lem n body rest s1 e (first.1))

  pub connect_to_node_lem :
      (address : Bytes) (s : Session W)
      → ((map_err PortError.io (connect_to_node net address) s).0 ≡ ok tt)
        × (sent (map_err PortError.io (connect_to_node net address) s).1.link ≡ [])
        × (incoming (map_err PortError.io (connect_to_node net address) s).1.link ≡ incoming s.link)
        × ((map_err PortError.io (connect_to_node net address) s).1.counter ≡ s.counter)
  unfolding connect_to_node
  connect_to_node_lem address s = ground (arith, connect_lem address s.link)
