-- ===== src/Tftp/RoundTrip.antt =====
-- src/networking/tftp/tftp_client_handle.c: `_send_file` and `_recv_file` at the two ends.
use file_share_server.Common.{
  ℕ, zero, suc, ◌+◌, ◌*◌, ◌%◌, ◌≤◌, ◌<◌, ltb, ◌≡◌, refl, ◌∙◌, ap, sym, true, false, Option, none,
  some, List, [], ◌∷◌, ◌++◌, append_assoc, append-nil, length, pos, arith,
}
use file_share_server.Database.{Text, System}
use file_share_server.Checksum.Sum.{IsBytes}
use file_share_server.Tftp.{SockaddrIn, Arrival, Datagram, LastPacket, Writer, Session, returned}
use file_share_server.Tftp.Send.{send_ack}
use file_share_server.Tftp.Transfer.{
  complete, acknowledge, window_loop, recv_file_loop, recv_file, send_file,
}
use file_share_server.Tftp.Packets.{sealed, ack_bytes, ack_bytes-IsBytes, listening, send-sent}
use file_share_server.Tftp.Blocks.{
  concat, IsBlocks, data_packets, from, blocks_of, concat-cut, cut-IsBlocks, length-cut,
  IsFileWriter,
}
use file_share_server.Tftp.Accepted.{window_loop-accepts}
use file_share_server.Tftp.Received.{enough_arrivals}
use file_share_server.Tftp.Sent.{ack_packets, posted, send_file-blocks}

module _ {W : Type 0} (system : System W) (writer : Writer W)
    (reliable : IsFileWriter system writer) (allow block_size : ℕ) (address : SockaddrIn)
    (path : Text) (small : block_size ≤ 65464) where
  abbrev single : List Arrival → List Datagram → W → Option LastPacket → Session W
  single = listening allow block_size 1 address

  abbrev ack_datagram : ℕ → Datagram
  ack_datagram k = record { receiver = address; bytes = sealed (ack_bytes ((k + 1) % 65536)) }

  abbrev kept_ack : ℕ → Option LastPacket
  kept_ack k =
      some
        (record { client_address = address; bytes = ack_bytes ((k + 1) % 65536); data_len = none })

  sent_ack :
      (k : ℕ) (inbox : List Arrival) (outbox : List Datagram) (files : W)
      (last_packet : Option LastPacket)
      → send_ack ((k + 1) % 65536) (single inbox outbox files last_packet)
        ≡ returned tt (single inbox (outbox ++ ack_datagram k ∷ []) files (kept_ack k))
  unfolding send_ack
  sent_ack k inbox outbox files last_packet =
      send-sent allow block_size 1 address (ack_bytes ((k + 1) % 65536)) inbox outbox files
        last_packet (ack_bytes-IsBytes ((k + 1) % 65536)) (omega arith)

  -- A window of one block, which is the last or not.
  window_loop-last :
      (k : ℕ) (block : List ℕ) (rest : List Arrival) (outbox : List Datagram) (files : W)
      (last_packet : Option LastPacket)
      → IsBlocks block_size (block ∷ [])
      → k + 1 < 65536
      → window_loop system writer 1 path
          (pos k)
          (single (from address (data_packets k (block ∷ [])) rest) outbox files last_packet)
        ≡ returned complete (
            single rest
              (outbox ++ ack_datagram k ∷ [])
              (writer.fwrite path block files).1
              (kept_ack k))
  window_loop-last k block rest outbox files last_packet b h =
      let short : ltb (length block) block_size ≡ true = ground (arith, b.0) in
      rw
        (
          window_loop-accepts system writer reliable allow block_size 1 address path small 0 k block
              rest outbox files last_packet b.1 (omega (arith, small, b.0)) h,
          short,
          sent_ack k rest outbox (writer.fwrite path block files).1 last_packet,
        )
        refl

  window_loop-full :
      (k : ℕ) (block : List ℕ) (rest : List Arrival) (outbox : List Datagram) (files : W)
      (last_packet : Option LastPacket)
      → length block ≡ block_size
      → IsBytes block
      → k + 1 < 65536
      → window_loop system writer 1 path
          (pos k)
          (single (from address (data_packets k (block ∷ [])) rest) outbox files last_packet)
        ≡ returned
            (acknowledge (pos (k + 1)))
            (single rest outbox (writer.fwrite path block files).1 last_packet)
  unfolding window_loop
  window_loop-full k block rest outbox files last_packet e b h =
      let full : ltb (length block) block_size ≡ false = ground (arith, e) in
      rw
        (
          window_loop-accepts system writer reliable allow block_size 1 address path small 0 k block
              rest outbox files last_packet b (omega (arith, small, e)) h,
          full,
        )
        refl

  -- In windows of one block, each block is acknowledged.
  recv_file_loop-acknowledges :
      (fuel k : ℕ) (blocks : List (List ℕ)) (rest : List Arrival) (outbox : List Datagram)
      (files : W) (last_packet : Option LastPacket) (content : List ℕ)
      → length blocks < fuel
      → IsBlocks block_size blocks
      → k + length blocks < 65536
      → system.fopen path files ≡ some content
      → (files' : W) × (last : Option LastPacket) × (recv_file_loop system writer fuel path
            (pos k)
            (single (from address (data_packets k blocks) rest) outbox files last_packet)
          ≡ returned tt (single rest (outbox ++ posted address (ack_packets k blocks)) files' last))
        × (system.fopen path files' ≡ some (content ++ concat blocks))
  unfolding recv_file_loop
  recv_file_loop-acknowledges zero k blocks rest outbox files last_packet content f b h e =
      absurd (omega (arith, f))
  recv_file_loop-acknowledges (suc fuel) k [] rest outbox files last_packet content f b h e =
      absurd b
  recv_file_loop-acknowledges (suc fuel) k (block ∷ []) rest outbox files last_packet content f b h
        e =
      (
        (writer.fwrite path block files).1,
        kept_ack k,
        rw (window_loop-last k block rest outbox files last_packet b (omega (arith, h))) refl,
        rw (append-nil block) (reliable.fwrite_appends path block content files e),
      )
  recv_file_loop-acknowledges (suc fuel) k (block ∷ other ∷ blocks) rest outbox files last_packet
        content f b h e =
      let inbox = from address (data_packets (k + 1) (other ∷ blocks)) rest in
      let files' = (writer.fwrite path block files).1 in
      let after =
        recv_file_loop-acknowledges fuel (k + 1) (other ∷ blocks) rest
          (outbox ++ ack_datagram k ∷ []) files' (kept_ack k) (content ++ block) (omega (arith, f))
          b.1 (omega (arith, h)) (reliable.fwrite_appends path block content files e) in
      (
        after.0,
        after.1,
        rw
            (
              window_loop-full k block inbox outbox files last_packet b.0.0 b.0.1
                  (omega (arith, h)),
              sent_ack k inbox outbox files' last_packet,
            )
            (after.2
              ∙ ap (λ datagrams. returned tt (single rest datagrams after.0 after.1))
                  (append_assoc outbox (ack_datagram k ∷ [])
                    (posted address (ack_packets (k + 1) (other ∷ blocks))))),
        after.3 ∙ ap some (append_assoc content block (concat (other ∷ blocks))),
      )

module _ {W : Type 0} (system : System W) (writer : Writer W) where
  -- Where a file can be created and what is written to it stands at its end, and nothing that is sent
  -- fails: a file of less than 65535 blocks of a size between 1 and 65464, whose size with that of a
  -- block is below 2 ^ 31, is sent to the end by `_send_file` of one server, in windows of one block, and
  -- received to the end by `_recv_file` of another, where what each sends arrives at the other in its
  -- order; the file that is received is the one that is sent.
  pub recv_file-send_file :
      (reliable : IsFileWriter system writer) (allow block_size : ℕ) (sender receiver : SockaddrIn)
      (filename path : Text) (bytes : List ℕ) (files files' created : W)
      → 0 < block_size
      → block_size ≤ 65464
      → length bytes < 65535 * block_size
      → length bytes + block_size ≤ 2147483647
      → IsBytes bytes
      → system.fopen filename files ≡ some bytes
      → writer.create path files' ≡ some created
      → (packets : List (List ℕ)) × (acks : List (List ℕ)) × (last : Option LastPacket)
        × (last' : Option LastPacket) × (received : W) × (send_file system filename
              (length bytes)
              (listening allow block_size 1 receiver (from receiver acks []) [] files none)
            ≡ returned tt
                (listening allow block_size 1 receiver [] (posted receiver packets) files last))
        × (recv_file system writer path
              (listening allow block_size 1 sender (from sender packets []) [] files' none)
            ≡ returned tt
                (listening allow block_size 1 sender [] (posted sender acks) received last'))
        × (system.fopen path received ≡ some bytes)
  unfolding recv_file
  recv_file-send_file reliable allow block_size sender receiver filename path bytes files files'
        created positive small few bounded b e e' =
      let blocks = blocks_of block_size bytes in
      let are_blocks : IsBlocks block_size blocks =
        cut-IsBlocks (length bytes) block_size bytes positive (omega arith) b in
      let whole : concat blocks ≡ bytes = concat-cut (length bytes) block_size bytes in
      let count : length blocks ≤ 65535 =
        length-cut (length bytes) block_size 65535 bytes positive (omega arith) few in
      let inbox = from sender (data_packets 0 blocks) [] in
      let (received, last', receiving, content) =
        recv_file_loop-acknowledges system writer reliable allow block_size sender path small
          (length inbox + 2) 0 blocks [] [] created none []
          (omega (
            arith,
            enough_arrivals system writer reliable allow block_size 1 sender path small 0 blocks [],
          ))
          are_blocks (omega (arith, count)) (reliable.create_empty path files' created e') in
      let (last, sending) =
        send_file-blocks system allow block_size receiver filename blocks [] [] files none small
          (omega (arith, ap {A = List ℕ} length whole, bounded)) are_blocks
          (e ∙ ap some (sym whole)) in
      (
        data_packets 0 blocks,
        ack_packets 0 blocks,
        last,
        last',
        received,
        rw (ap {A = List ℕ} length whole) at sending,
        rw e' receiving,
        content ∙ ap some whole,
      )
