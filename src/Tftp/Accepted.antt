-- ===== src/Tftp/Accepted.antt =====
-- src/networking/tftp/tftp_client_handle.c: a block that `_recv_file` expects arrives.
use file_share_server.Common.{
  ℕ, suc, ◌+◌, ◌%◌, ◌≤◌, ◌<◌, ◌==◌, ltb, ◌≡◌, refl, if◌then◌else◌, true, false, Option, List, [],
  ◌∷◌, ◌++◌, length, drop, pos, done, arith,
}
use file_share_server.Database.{Text, System}
use file_share_server.Checksum.{checksum}
use file_share_server.Checksum.Sum.{IsBytes}
use file_share_server.Tftp
use file_share_server.Tftp.{
  store16, ntohs, SockaddrIn, Arrival, Datagram, LastPacket, Writer, Session, Ending, returned,
}
use file_share_server.Tftp.Send.{send_ack}
use file_share_server.Tftp.Transfer.{complete, window_loop}
use file_share_server.Tftp.Packets.{
  sealed, data_bytes, data_bytes-IsBytes, checksum-sealed, listening, recv_data-arrives,
}
use file_share_server.Tftp.Blocks.{from, take_copied, IsFileWriter}

module _ {W : Type 0} (system : System W) (writer : Writer W)
    (reliable : IsFileWriter system writer) (allow block_size window_size : ℕ)
    (address : SockaddrIn) (path : Text) (small : block_size ≤ 65464) where
  abbrev state : List Arrival → List Datagram → W → Option LastPacket → Session W
  state = listening allow block_size window_size address

  abbrev written : List ℕ → W → W
  written bytes files = (writer.fwrite path bytes files).1

  -- A block that is expected goes to the file.
  pub window_loop-accepts :
      (left k : ℕ) (block : List ℕ) (rest : List Arrival) (outbox : List Datagram) (files : W)
      (last_packet : Option LastPacket)
      → IsBytes block
      → length block ≤ 65464
      → k + 1 < 65536
      → window_loop system writer (suc left) path (pos k) (
          state
            (from address (sealed (data_bytes (k + 1) block) ∷ []) rest)
            outbox
            files
            last_packet)
        ≡ (if ltb (length block) block_size
              then (λ s. Tftp.next (send_ack ((k + 1) % 65536) s) (λ _ t. returned complete t))
              else window_loop system writer left path (pos (k + 1)))
            (state rest outbox (written block files) last_packet)
  unfolding window_loop
  window_loop-accepts left k block rest outbox files last_packet b fits h =
      let packet = data_bytes (k + 1) block in
      let size : length block + 6 ≡ length packet + 2 = omega arith in
      let accepted : checksum (length packet + 2) 0 (sealed packet) ≡ done 0 =
        checksum-sealed packet (data_bytes-IsBytes (k + 1) block b) (omega arith) in
      let copied =
        take_copied block (drop (length block) (store16 (ntohs ((k + 1) % 65536)) ++ block)) in
      let is_next : (k + 1 == k + 1) ≡ true = ground arith in
      let in_range : (k + 1 == 65536) ≡ false = ground arith in
      let whole : (length block == length block) ≡ true = ground arith in
      rw
        (
          recv_data-arrives allow block_size window_size address (k + 1) block rest outbox files
              last_packet h,
          size,
          accepted,
          is_next,
          copied,
          reliable.fwrite_count path block files,
          whole,
          in_range,
        )
        refl
