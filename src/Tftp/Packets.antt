-- ===== src/Tftp/Packets.antt =====
-- src/networking/tftp/tftp_client_handle.c: packets of a client that arrive whole, and packets that
-- are sent without a failure.
use file_share_server.Common.{
  ℕ, suc, ◌+◌, ◌-◌, ◌/◌, ◌%◌, ◌≤◌, ◌<◌, ◌==◌, ltb, ◌≡◌, refl, true, false, Option, none, some, List,
  [], ◌∷◌, ◌++◌, length, take, drop, done, arith,
}
use file_share_server.Checksum.{checksum}
use file_share_server.Checksum.Sum.{IsBytes, word_sum, complement, checksum-complement}
use file_share_server.Checksum.Packet.{with_checksum, received_checksum, received-with_checksum}
use file_share_server.Tftp.{
  data_opcode, ack, load16, store16, ntohs, SockaddrIn, Arrival, arrives, Datagram, PacketBuffer,
  LastPacket, Session, returned,
}
use file_share_server.Tftp.Send.{send_loop, sendto, send}
use file_share_server.Tftp.Receive.{
  recv, check_error, compare_address, recv_client, recv_packet_mul, recv_packet, recv_data,
  recv_ack,
}

-- The packet with its checksum in front.
unfoldable pub sealed : List ℕ → List ℕ
sealed bytes = complement (word_sum bytes) / 256 ∷ complement (word_sum bytes) % 256 ∷ bytes

pub with_checksum-sealed :
    (bytes : List ℕ)
    → IsBytes bytes
    → length bytes ≤ 65533
    → with_checksum bytes ≡ done (sealed bytes)
unfolding with_checksum sealed
with_checksum-sealed bytes b h =
    rw (checksum-complement bytes (length bytes % 2) b (omega arith)) refl

pub checksum-sealed :
    (bytes : List ℕ)
    → IsBytes bytes
    → length bytes ≤ 65533
    → checksum (length bytes + 2) 0 (sealed bytes) ≡ done 0
unfolding received_checksum sealed
checksum-sealed bytes b h =
    let size : length bytes + 2 ≡ length (sealed bytes) = omega arith in
    let accepted : received_checksum (sealed bytes) ≡ done 0 =
      rw (with_checksum-sealed bytes b h) at (received-with_checksum bytes b h) in
    rw size accepted

-- The bytes of a DATA packet and of an ACK packet.
abbrev pub data_bytes : ℕ → List ℕ → List ℕ
data_bytes block_id bytes = data_opcode ++ (store16 (ntohs (block_id % 65536)) ++ bytes)

abbrev pub ack_bytes : ℕ → List ℕ
ack_bytes block_id = ack ++ store16 (ntohs (block_id % 65536))

pub compare_address-same : (address : SockaddrIn) → compare_address address address ≡ true
compare_address-same address = ground arith

pub ack_bytes-IsBytes : (n : ℕ) → IsBytes (ack_bytes n)
ack_bytes-IsBytes n = (omega arith, (omega arith, (omega arith, (omega arith, tt))))

pub data_bytes-IsBytes : (n : ℕ) (bytes : List ℕ) → IsBytes bytes → IsBytes (data_bytes n bytes)
data_bytes-IsBytes n bytes h = (omega arith, (omega arith, (omega arith, (omega arith, h))))

pub stored_id :
    (n : ℕ) (bytes : List ℕ) → n < 65536 → ntohs (load16 (store16 (ntohs (n % 65536)) ++ bytes)) ≡ n
stored_id n bytes h = omega arith

abbrev pub packet_of : SockaddrIn → List ℕ → PacketBuffer
packet_of address datagram = record {
  opcode = ntohs (load16 (drop 2 datagram));
  bytes = drop 4 datagram;
  data_len = length datagram - 4;
  client_address = address;
  raw_data = datagram;
  block_id = 0;
}

module _ {W : Type 0} (allow block_size window_size : ℕ) (address : SockaddrIn) where
  -- The handler behind the request, where sending does not fail.
  abbrev pub listening : List Arrival → List Datagram → W → Option LastPacket → Session W
  listening inbox outbox files last_packet = record {
    inbox = inbox;
    sendings = [];
    outbox = outbox;
    files = files;
    is_allow_upload = allow;
    address = address;
    block_size = block_size;
    window_size = window_size;
    check_addr = 1;
    last_packet = last_packet;
    packet_buffer = none;
    opcodes_behind = [];
  }

  recv_packet_mul-arrives :
      (opcode min_data_length : ℕ) (datagram : List ℕ) (rest : List Arrival)
      (outbox : List Datagram) (files : W) (last_packet : Option LastPacket)
      → ltb (length datagram) 4 ≡ false
      → ntohs (load16 (drop 2 datagram)) ≡ opcode
      → (opcode == 1280) ≡ false
      → ltb (length datagram - 4) min_data_length ≡ false
      → recv_packet_mul
          (opcode ∷ [])
          min_data_length
          0
          (listening (arrives address datagram ∷ rest) outbox files last_packet)
        ≡ returned (some (packet_of address datagram)) (listening rest outbox files last_packet)
  unfolding recv_packet_mul recv_client recv check_error
  recv_packet_mul-arrives opcode min_data_length datagram rest outbox files last_packet a b c d =
      let fuel : suc (length rest) + 2 ≡ suc (length rest + 2) = omega arith in
      let same : (opcode == opcode) ≡ true = ground arith in
      rw (fuel, a, compare_address-same address, b, c, same, d) refl

  -- The packet of a block of the client.
  pub recv_data-arrives :
      (block_id : ℕ) (bytes : List ℕ) (rest : List Arrival) (outbox : List Datagram) (files : W)
      (last_packet : Option LastPacket)
      → block_id < 65536
      → recv_data 0 (
          listening
            (arrives address (sealed (data_bytes block_id bytes)) ∷ rest)
            outbox
            files
            last_packet)
        ≡ returned
            (record {
              opcode = 3;
              bytes =
                  take (length bytes) bytes
                  ++ drop (length bytes) (store16 (ntohs (block_id % 65536)) ++ bytes);
              data_len = length bytes;
              client_address = address;
              raw_data = sealed (data_bytes block_id bytes);
              block_id = block_id;
            })
            (listening rest outbox files last_packet)
  unfolding recv_data recv_packet sealed
  recv_data-arrives block_id bytes rest outbox files last_packet h =
      let datagram = sealed (data_bytes block_id bytes) in
      let len : length datagram - 4 - 2 ≡ length bytes = omega arith in
      let id : ntohs (load16 (store16 (ntohs (block_id % 65536)) ++ bytes)) ≡ block_id =
        stored_id block_id bytes h in
      rw
        (recv_packet_mul-arrives 3 2 datagram rest outbox files last_packet (ground arith) refl refl
          (ground arith))
        (rw (len, id) refl)

  -- The packet of an acknowledgement of the client.
  pub recv_ack-arrives :
      (block_id : ℕ) (rest : List Arrival) (outbox : List Datagram) (files : W)
      (last_packet : Option LastPacket)
      → block_id < 65536
      → recv_ack 0 (
          listening (arrives address (sealed (ack_bytes block_id)) ∷ rest) outbox files last_packet)
        ≡ returned (some block_id) (listening rest outbox files last_packet)
  unfolding recv_ack recv_packet
  recv_ack-arrives block_id rest outbox files last_packet h =
      let datagram = sealed (ack_bytes block_id) in
      let accepted : checksum 6 0 datagram ≡ done 0 =
        checksum-sealed (ack_bytes block_id) (ack_bytes-IsBytes block_id) (omega arith) in
      let id : ntohs (load16 (store16 (ntohs (block_id % 65536)))) ≡ block_id =
        stored_id block_id [] h in
      rw
        (recv_packet_mul-arrives 4 2 datagram rest outbox files last_packet (unfold sealed in refl)
          (unfold sealed in refl) refl (unfold sealed in refl))
        (unfold sealed in rw (accepted, id) refl)

  -- What is sent where sending does not fail.
  pub send-sent :
      (bytes : List ℕ) (inbox : List Arrival) (outbox : List Datagram) (files : W)
      (last_packet : Option LastPacket)
      → IsBytes bytes
      → length bytes ≤ 65532
      → send bytes none (listening inbox outbox files last_packet)
        ≡ returned tt (
            listening inbox
              (outbox ++ record { receiver = address; bytes = sealed bytes } ∷ [])
              files
              (some (record { client_address = address; bytes = bytes; data_len = none })))
  unfolding send send_loop sendto
  send-sent bytes inbox outbox files last_packet b h =
      let fits : ltb 65532 (length bytes) ≡ false = ground arith in
      rw (with_checksum-sealed bytes b (omega arith), fits) refl
