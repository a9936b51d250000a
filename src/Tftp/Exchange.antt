-- ===== src/Tftp/Exchange.antt =====
-- src/networking/tftp: the upload and the download of a file by a handler that holds the request.
use file_share_server.Common.{
  ℕ, ◌+◌, ◌≤◌, ◌<◌, ◌==◌, ltb, ◌≡◌, refl, if◌then◌else◌, true, false, Option, none, some, List, [],
  ◌∷◌, ◌++◌, length, pos, int_eq, arith,
}
use file_share_server.Base64.{codes}
use file_share_server.Database.{Text, System}
use file_share_server.Tftp.{
  illegal_operation, wrq, rrq, load16, SockaddrIn, Arrival, Datagram, LastPacket, Writer, Session,
  returned,
}
use file_share_server.Tftp.Send.{send_ack, terminate}
use file_share_server.Tftp.Receive.{is_expected}
use file_share_server.Tftp.Client.{
  upload_path, handle_read, handle_write, serve_client, handle_client,
}
use file_share_server.Tftp.Packets.{sealed, ack_bytes, ack_bytes-IsBytes, listening, send-sent}
use file_share_server.Tftp.Blocks.{concat, IsBlocks, data_packets, from, IsFileWriter}
use file_share_server.Tftp.Sent.{ack_packets, posted, send_file-blocks}
use file_share_server.Tftp.Received.{recv_file-blocks}
use file_share_server.Tftp.Opening.{IsName, waiting, recv_rq-waiting}

module _ {W : Type 0} (system : System W) (writer : Writer W) (allow block_size window_size id : ℕ)
    (client : SockaddrIn) (name : Text) (behind raw : List ℕ) (is_name : IsName name)
    (short : length name < 100)
    (octet : system.strcmp (codes "octet") (codes "octet") ≡ pos 0) where
  handle_client-served :
      (k n window : ℕ) (inbox : List Arrival) (outbox : List Datagram) (files : W)
      (last_packet : Option LastPacket) (s' : Session W)
      → load16 (0 ∷ k ∷ []) ≡ n
      → (n == 1280) ≡ false
      → is_expected (load16 rrq ∷ load16 wrq ∷ []) n ≡ true
      → (if n == load16 rrq
            then handle_read system writer name
            else if n == load16 wrq
            then handle_write system writer name
            else terminate illegal_operation none)
          (listening allow block_size window client inbox outbox files last_packet)
        ≡ returned tt s'
      → handle_client system writer (
          waiting system writer id k name behind raw client
            (listening allow block_size window client inbox outbox files last_packet))
        ≡ returned (pos 0) s'
  unfolding handle_client serve_client
  handle_client-served k n window inbox outbox files last_packet s' value differs expected served =
      rw
        (
          recv_rq-waiting system writer allow block_size window id k n client name behind raw inbox
              outbox files last_packet value differs expected is_name short octet,
          served,
        )
        refl

  -- Where a file can be created and what is written to it stands at its end, nothing that is sent
  -- fails, `strcmp` finds "octet" equal to itself, and uploads are allowed: the handler holds a request
  -- without options to write a file in this mode, whose name is not taken and has less than 100
  -- characters, none of them 0; then the blocks of the file arrive in their order, with their numbers
  -- and checksums, fewer than 65536, all full, of a size of at most 65464, but the last, in windows of
  -- any size but 0. Then `handle_client` returns 0, and the file of that name in the upload directory
  -- holds the blocks, one behind the other.
  pub handle_client-upload :
      (reliable : IsFileWriter system writer) (blocks : List (List ℕ)) (rest : List Arrival)
      (outbox : List Datagram) (files created : W) (last_packet : Option LastPacket)
      → 0 < allow
      → block_size ≤ 65464
      → 0 < window_size
      → int_eq (system.access (upload_path name) files) (pos 0) ≡ false
      → writer.create (upload_path name) files ≡ some created
      → IsBlocks block_size blocks
      → length blocks < 65536
      → (s' : Session W) × (handle_client system writer (
            waiting system writer id 2 name behind raw client (
              listening allow block_size window_size client
                (from client (data_packets 0 blocks) rest)
                outbox
                files
                last_packet))
          ≡ returned (pos 0) s')
        × (system.fopen (upload_path name) s'.files ≡ some (concat blocks))
  unfolding handle_write send_ack
  handle_client-upload reliable blocks rest outbox files created last_packet allowed small windows
        absent e b few =
      let inbox = from client (data_packets 0 blocks) rest in
      let fits : ltb (length (upload_path name)) 1024 ≡ true = ground (arith, short) in
      let taken : (allow == 0) ≡ false = ground (arith, allowed) in
      let bytes = ack_bytes 0 in
      let (s', received, content) =
        recv_file-blocks system writer reliable allow block_size window_size client
          (upload_path name) small blocks rest
          (outbox ++ record { receiver = client; bytes = sealed bytes } ∷ []) files created
          (some (record { client_address = client; bytes = bytes; data_len = none })) e windows b
          few in
      (
        s',
        handle_client-served 2 512 window_size inbox outbox files last_packet s' refl refl refl (
            rw
              (
                taken,
                fits,
                absent,
                send-sent allow block_size window_size client bytes inbox outbox files last_packet
                    (ack_bytes-IsBytes 0) (omega arith),
              )
              received),
        content,
      )

  -- Where nothing that is sent fails and `strcmp` finds "octet" equal to itself: the handler, with
  -- windows of one block of a size of at most 65464, holds a request without options to read a file in this mode,
  -- which is there and whose name has less than 100 characters, none of them 0; then each block of the
  -- file, whose size with that of a block is below 2 ^ 31, is acknowledged. Then `handle_client` returns 0 with
  -- the files as they were; what it has sent is the blocks in their order, all full but the last, each in a
  -- packet with its number modulo 65536 and its checksum.
  pub handle_client-download :
      (blocks : List (List ℕ)) (rest : List Arrival) (outbox : List Datagram) (files : W)
      (last_packet : Option LastPacket)
      → block_size ≤ 65464
      → int_eq (system.access (upload_path name) files) (pos 0) ≡ true
      → system.fopen (upload_path name) files ≡ some (concat blocks)
      → IsBlocks block_size blocks
      → length (concat blocks) + block_size ≤ 2147483647
      → (last : Option LastPacket) × (handle_client system writer (
            waiting system writer id 1 name behind raw client (
              listening allow block_size 1 client
                (from client (ack_packets 0 blocks) rest)
                outbox
                files
                last_packet))
          ≡ returned (pos 0) (
              listening allow block_size 1 client rest
                (outbox ++ posted client (data_packets 0 blocks))
                files
                last))
  unfolding handle_read
  handle_client-download blocks rest outbox files last_packet small there e b bounded =
      let fits : ltb (length (upload_path name)) 128 ≡ true = ground (arith, short) in
      let (last, sent) =
        send_file-blocks system allow block_size client (upload_path name) blocks rest outbox files
          last_packet small bounded b e in
      (
        last,
        handle_client-served 1 256 1 (from client (ack_packets 0 blocks) rest) outbox files
            last_packet _ refl refl refl (rw (fits, there, e) sent),
      )
