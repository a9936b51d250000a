-- ===== src/Tftp/Sent.antt =====
-- src/networking/tftp/tftp_client_handle.c: `_send_file` in windows of one block, where each block is
-- acknowledged.
use file_share_server.Common.{
  ℕ, zero, suc, ◌+◌, ◌-◌, ◌*◌, ◌/◌, ◌%◌, ◌≤◌, ◌<◌, ltb, ◌≡◌, refl, ◌∙◌, ap, true, false, Option,
  none, some, List, [], ◌∷◌, ◌++◌, append_assoc, append-nil, length, drop, arith,
}
use file_share_server.Database.{Text, System}
use file_share_server.Tftp.{SockaddrIn, Arrival, Datagram, LastPacket, Session, returned}
use file_share_server.Tftp.Send.{send_data}
use file_share_server.Tftp.Transfer.{block_loop, send_blocks, send_file_loop, send_file}
use file_share_server.Tftp.Packets.{
  sealed, data_bytes, ack_bytes, data_bytes-IsBytes, listening, recv_ack-arrives, send-sent,
}
use file_share_server.Tftp.Blocks.{concat, IsBlocks, data_packets, from}
use file_share_server.Tftp.Rounds.{
  IsLeft, take_more, reads, block_length, block_IsBytes, slice_front, IsLeft-after, replied, placed,
}

-- The acknowledgements of the blocks that follow the block `k`.
abbrev pub ack_packets : ℕ → List (List ℕ) → List (List ℕ)
ack_packets k [] = []
ack_packets k (block ∷ blocks) = sealed (ack_bytes ((k + 1) % 65536)) ∷ ack_packets (k + 1) blocks

abbrev pub posted : SockaddrIn → List (List ℕ) → List Datagram
posted address [] = []
posted address (packet ∷ packets) =
    record { receiver = address; bytes = packet } ∷ posted address packets

abbrev kept_packet : SockaddrIn → List ℕ → LastPacket
kept_packet address bytes = record { client_address = address; bytes = bytes; data_len = none }

enough_acks :
    (address : SockaddrIn) (k : ℕ) (blocks : List (List ℕ)) (rest : List Arrival)
    → length blocks ≤ length (from address (ack_packets k blocks) rest)
enough_acks address k [] rest = omega arith
enough_acks address k (block ∷ blocks) rest = omega (arith, enough_acks address (k + 1) blocks rest)

module _ {W : Type 0} (allow block_size : ℕ) (address : SockaddrIn) (size : ℕ)
    (small : block_size ≤ 65464) (bounded : size + block_size ≤ 2147483647) where
  abbrev state : List Arrival → List Datagram → W → Option LastPacket → Session W
  state = listening allow block_size 1 address

  -- The end of the file: no block is sent.
  no_block :
      (k : ℕ) (buffer : List ℕ) (inbox : List Arrival) (outbox : List Datagram) (files : W)
      (last_packet : Option LastPacket)
      → IsLeft block_size size k []
      → send_blocks buffer size (k / 65536) (k % 65536) (state inbox outbox files last_packet)
        ≡ returned 0 (state inbox outbox files last_packet)
  unfolding send_blocks block_loop
  no_block k buffer inbox outbox files last_packet h =
      let in_range : ltb 2147483647 (k * block_size) ≡ false = ground (arith, h.1, bounded) in
      let behind : ltb size (k * block_size) ≡ true = ground (arith, h.0) in
      rw (placed k, in_range, behind) refl

  one_block :
      (k : ℕ) (block : List ℕ) (blocks : List (List ℕ)) (stale : List ℕ) (inbox : List Arrival)
      (outbox : List Datagram) (files : W) (last_packet : Option LastPacket)
      → IsLeft block_size size k (block ∷ blocks)
      → send_blocks
          (block ++ stale)
          size
          (k / 65536)
          (k % 65536)
          (state inbox outbox files last_packet)
        ≡ returned 1 (
            state inbox
              (outbox
                ++ record { receiver = address; bytes = sealed (data_bytes (k + 1) block) } ∷ [])
              files
              (some (kept_packet address (data_bytes (k + 1) block))))
  unfolding send_blocks block_loop send_data
  one_block k block blocks stale inbox outbox files last_packet h =
      let in_range : ltb 2147483647 (k * block_size) ≡ false = ground (arith, h.1, bounded) in
      let before : ltb size (k * block_size) ≡ false = ground (arith, h.1) in
      let rest : size - k * block_size ≡ length (concat (block ∷ blocks)) = omega (arith, h.1) in
      let count = block_length block_size block blocks h.0 in
      let start : 0 * block_size ≡ 0 = omega arith in
      let id : (k + 1) % 65536 % 65536 ≡ (k + 1) % 65536 = omega arith in
      let bytes = data_bytes (k + 1) block in
      let own = block_IsBytes block_size block blocks h.0 in
      rw
        (
          placed k,
          in_range,
          before,
          rest,
          count,
          start,
          slice_front block stale,
          id,
          send-sent allow block_size 1 address bytes inbox outbox files last_packet
              (data_bytes-IsBytes (k + 1) block own.0) (omega (arith, own.1, small)),
        )
        refl

  send_file_loop-blocks :
      (fuel k : ℕ) (blocks : List (List ℕ)) (buffer : List ℕ) (rest : List Arrival)
      (outbox : List Datagram) (files : W) (last_packet : Option LastPacket)
      → length blocks < fuel
      → IsLeft block_size size k blocks
      → (last : Option LastPacket) × (send_file_loop fuel
            (concat blocks)
            buffer
            size
            (k / 65536)
            (k % 65536)
            (state (from address (ack_packets k blocks) rest) outbox files last_packet)
          ≡ returned tt (state rest (outbox ++ posted address (data_packets k blocks)) files last))
  unfolding send_file_loop
  send_file_loop-blocks zero k blocks buffer rest outbox files last_packet f h =
      absurd (omega (arith, f))
  send_file_loop-blocks (suc fuel) k [] buffer rest outbox files last_packet f h = (
    last_packet,
    rw (append-nil outbox) (
        rw
          (
            take_more (block_size * 1) [] (omega arith),
            no_block k buffer rest outbox files last_packet h,
          )
          refl),
  )
  send_file_loop-blocks (suc fuel) k (block ∷ blocks) buffer rest outbox files last_packet f h =
      let read = reads block_size block blocks h.0 in
      let packet = data_bytes (k + 1) block in
      let stale = drop (length block) buffer in
      let inbox = from address (ack_packets (k + 1) blocks) rest in
      let sent : Datagram = record { receiver = address; bytes = sealed packet } in
      let last = kept_packet address packet in
      let after =
        send_file_loop-blocks fuel (k + 1) blocks (block ++ stale) rest (outbox ++ sent ∷ []) files
          (some last) (omega (arith, f)) (IsLeft-after block_size size k block blocks h) in
      let answer = replied k in
      (
        after.0,
        rw
            (
              read.0,
              read.1,
              one_block k block blocks stale (from address (ack_packets k (block ∷ blocks)) rest)
                  outbox files last_packet h,
              recv_ack-arrives allow block_size 1 address ((k + 1) % 65536) inbox
                  (outbox ++ sent ∷ []) files (some last) (omega arith),
              answer.0,
              answer.1,
            )
            (after.1
              ∙ ap (λ sent_now. returned tt (state rest sent_now files after.0))
                  (append_assoc outbox (sent ∷ []) (posted address (data_packets (k + 1) blocks)))),
      )

module _ {W : Type 0} (system : System W) where
  -- In windows of one block, of a size of at most 65464 bytes, and where nothing that is sent fails: a
  -- file whose blocks are full but for the last, and whose size with that of a block is below 2 ^ 31, is
  -- sent to the end to a client that acknowledges each block, with its number modulo 65536; what is
  -- sent is each block in a packet with its number and its checksum, in their order.
  pub send_file-blocks :
      (allow block_size : ℕ) (address : SockaddrIn) (filename : Text) (blocks : List (List ℕ))
      (rest : List Arrival) (outbox : List Datagram) (files : W) (last_packet : Option LastPacket)
      → block_size ≤ 65464
      → length (concat blocks) + block_size ≤ 2147483647
      → IsBlocks block_size blocks
      → system.fopen filename files ≡ some (concat blocks)
      → (last : Option LastPacket) × (send_file system filename (length (concat blocks)) (
            listening allow block_size 1 address
              (from address (ack_packets 0 blocks) rest)
              outbox
              files
              last_packet)
          ≡ returned tt (
              listening allow block_size 1 address rest
                (outbox ++ posted address (data_packets 0 blocks))
                files
                last))
  unfolding send_file
  send_file-blocks allow block_size address filename [] rest outbox files last_packet small bounded
        b e =
      absurd b
  send_file-blocks allow block_size address filename (block ∷ blocks) rest outbox files last_packet
        small bounded b e =
      let size = length (concat (block ∷ blocks)) in
      let inbox = from address (ack_packets 0 (block ∷ blocks)) rest in
      let (last, sent) =
        send_file_loop-blocks allow block_size address size small bounded (length inbox + 2) 0
          (block ∷ blocks) [] rest outbox files last_packet
          (omega (arith, enough_acks address 0 (block ∷ blocks) rest)) (b, omega arith) in
      (last, rw e sent)
