-- ===== src/Tftp/Received.antt =====
-- src/networking/tftp/tftp_client_handle.c: `_recv_file` where the blocks of a file arrive in order.
use file_share_server.Common.{
  ℕ, zero, suc, ◌+◌, ◌%◌, ◌≤◌, ◌<◌, ltb, ◌≡◌, ◌⊎◌, inl, inr, refl, ◌∙◌, ap, true, false, Option,
  none, some, List, [], ◌∷◌, ◌++◌, append_assoc, append-nil, length, pos, arith,
}
use file_share_server.Database.{Text, System}
use file_share_server.Tftp.{
  SockaddrIn, Arrival, Datagram, LastPacket, Writer, Session, Ending, returned,
}
use file_share_server.Tftp.Send.{send_ack}
use file_share_server.Tftp.Transfer.{
  Window, complete, acknowledge, window_loop, recv_file_loop, recv_file,
}
use file_share_server.Tftp.Packets.{sealed, ack_bytes, ack_bytes-IsBytes, listening, send-sent}
use file_share_server.Tftp.Blocks.{concat, IsBlocks, data_packets, from, IsFileWriter}
use file_share_server.Tftp.Accepted.{window_loop-accepts}

module _ {W : Type 0} (system : System W) (writer : Writer W)
    (reliable : IsFileWriter system writer) (allow block_size window_size : ℕ)
    (address : SockaddrIn) (path : Text) (small : block_size ≤ 65464) where
  abbrev state : List Arrival → List Datagram → W → Option LastPacket → Session W
  state = listening allow block_size window_size address

  abbrev written : List ℕ → W → W
  written bytes files = (writer.fwrite path bytes files).1

  -- The file is complete: what is left has not been looked at.
  record IsComplete {A : Type 0} (rest : List Arrival) (total : List ℕ) (a : A)
      (ending : Ending W A) : Type 0 where
    outbox : List Datagram
    files : W
    last_packet : Option LastPacket
    ends : ending ≡ returned a (state rest outbox files last_packet)
    content : system.fopen path files ≡ some total

  -- A window of `left` blocks has arrived and others are to come.
  record IsHalfway (left k : ℕ) (blocks : List (List ℕ)) (rest : List Arrival) (total : List ℕ)
      (ending : Ending W Window) : Type 0 where
    later : List (List ℕ)
    number : ℕ
    before : List ℕ
    outbox : List Datagram
    files : W
    last_packet : Option LastPacket
    ends :
        ending
        ≡ returned
            (acknowledge (pos number))
            (state (from address (data_packets number later) rest) outbox files last_packet)
    are_blocks : IsBlocks block_size later
    numbered : number + length later ≡ k + length blocks
    progress : length later + left ≡ length blocks
    content : system.fopen path files ≡ some before
    together : before ++ concat later ≡ total

  window_loop-blocks :
      (left k : ℕ) (blocks : List (List ℕ)) (rest : List Arrival) (outbox : List Datagram)
      (files : W) (last_packet : Option LastPacket) (content : List ℕ)
      → IsBlocks block_size blocks
      → k + length blocks < 65536
      → system.fopen path files ≡ some content
      → IsComplete rest (content ++ concat blocks) complete (
          window_loop system writer left path
            (pos k)
            (state (from address (data_packets k blocks) rest) outbox files last_packet))
        ⊎ IsHalfway left k blocks rest (content ++ concat blocks) (
            window_loop system writer left path
              (pos k)
              (state (from address (data_packets k blocks) rest) outbox files last_packet))
  window_loop-blocks zero k blocks rest outbox files last_packet content b h e = inr (record {
    later = blocks;
    number = k;
    before = content;
    outbox = outbox;
    files = files;
    last_packet = last_packet;
    ends = unfold window_loop in refl;
    are_blocks = b;
    numbered = refl;
    progress = omega arith;
    content = e;
    together = refl;
  })
  window_loop-blocks (suc left) k [] rest outbox files last_packet content b h e = absurd b
  window_loop-blocks (suc left) k (block ∷ []) rest outbox files last_packet content b h e =
      let short : ltb (length block) block_size ≡ true = ground (arith, b.0) in
      let bytes = ack_bytes ((k + 1) % 65536) in
      inl (record {
        outbox = outbox ++ record { receiver = address; bytes = sealed bytes } ∷ [];
        files = written block files;
        last_packet = some (record { client_address = address; bytes = bytes; data_len = none });
        ends =
            rw
              (
                window_loop-accepts system writer reliable allow block_size window_size address path
                    small left k block rest outbox files last_packet b.1 (omega (arith, small, b.0))
                    (omega (arith, h)),
                short,
              )
              (unfold send_ack in
                rw
                  (send-sent allow block_size window_size address bytes rest outbox
                    (written block files) last_packet (ack_bytes-IsBytes ((k + 1) % 65536))
                    (omega arith))
                  refl);
        content = rw (append-nil block) (reliable.fwrite_appends path block content files e);
      })
  window_loop-blocks (suc left) k (block ∷ other ∷ blocks) rest outbox files last_packet content b h
        e =
      let full : ltb (length block) block_size ≡ false = ground (arith, b.0.0) in
      let inbox = from address (data_packets (k + 1) (other ∷ blocks)) rest in
      let first : window_loop system writer (suc left) path (pos k) (
            state (from address (data_packets k (block ∷ other ∷ blocks)) rest) outbox files
              last_packet)
          ≡ window_loop system writer left path (pos (k + 1))
              (state inbox outbox (written block files) last_packet) =
        rw
          (
            window_loop-accepts system writer reliable allow block_size window_size address path
                small left k block inbox outbox files last_packet b.0.1
                (omega (arith, small, b.0.0)) (omega (arith, h)),
            full,
          )
          refl in
      let joined = append_assoc content block (concat (other ∷ blocks)) in
      elim (window_loop-blocks left (k + 1) (other ∷ blocks) rest outbox (written block files)
        last_packet (content ++ block) b.1 (omega (arith, h))
        (reliable.fwrite_appends path block content files e)) [
          | inl c ↦ inl (record {
            outbox = c.outbox;
            files = c.files;
            last_packet = c.last_packet;
            ends = first ∙ c.ends;
            content = c.content ∙ ap some joined;
          })
          | inr c ↦ inr (record {
            later = c.later;
            number = c.number;
            before = c.before;
            outbox = c.outbox;
            files = c.files;
            last_packet = c.last_packet;
            ends = first ∙ c.ends;
            are_blocks = c.are_blocks;
            numbered = omega (arith, c.numbered);
            progress = omega (arith, c.progress);
            content = c.content;
            together = c.together ∙ joined;
          })
        ]

  recv_file_loop-blocks :
      (fuel k : ℕ) (blocks : List (List ℕ)) (rest : List Arrival) (outbox : List Datagram)
      (files : W) (last_packet : Option LastPacket) (content : List ℕ)
      → 0 < window_size
      → length blocks < fuel
      → IsBlocks block_size blocks
      → k + length blocks < 65536
      → system.fopen path files ≡ some content
      → IsComplete rest (content ++ concat blocks) tt (
          recv_file_loop system writer fuel path
            (pos k)
            (state (from address (data_packets k blocks) rest) outbox files last_packet))
  unfolding recv_file_loop send_ack
  recv_file_loop-blocks zero k blocks rest outbox files last_packet content w f b h e =
      absurd (omega (arith, f))
  recv_file_loop-blocks (suc fuel) k blocks rest outbox files last_packet content w f b h e =
      elim (window_loop-blocks window_size k blocks rest outbox files last_packet content b h e) [
        | inl c ↦ record {
          outbox = c.outbox;
          files = c.files;
          last_packet = c.last_packet;
          ends = rw c.ends refl;
          content = c.content;
        }
        | inr c ↦
            let bytes = ack_bytes (c.number % 65536) in
            let inbox = from address (data_packets c.number c.later) rest in
            let final =
              recv_file_loop-blocks fuel c.number c.later rest
                (c.outbox ++ record { receiver = address; bytes = sealed bytes } ∷ []) c.files
                (some (record { client_address = address; bytes = bytes; data_len = none }))
                c.before w (omega (arith, c.progress, f, w)) c.are_blocks
                (omega (arith, c.numbered, h)) c.content in
            record {
              outbox = final.outbox;
              files = final.files;
              last_packet = final.last_packet;
              ends =
                  rw
                    (
                      c.ends,
                      send-sent allow block_size window_size address bytes inbox c.outbox c.files
                          c.last_packet (ack_bytes-IsBytes (c.number % 65536)) (omega arith),
                    )
                    final.ends;
              content = final.content ∙ ap some c.together;
            }
      ]

  pub enough_arrivals :
      (k : ℕ) (blocks : List (List ℕ)) (rest : List Arrival)
      → length blocks ≤ length (from address (data_packets k blocks) rest)
  enough_arrivals k [] rest = omega arith
  enough_arrivals k (block ∷ blocks) rest = omega (arith, enough_arrivals (k + 1) blocks rest)

  -- Where a file can be created and what is written to it stands at its end, and nothing that is sent
  -- fails: fewer than 65536 blocks of a file, of a size of at most 65464 bytes, all full but the last, that
  -- arrive from the client with their numbers and checksums and in their order, in windows of any
  -- size but 0, are received to the end; the file then holds the blocks, one behind the other.
  pub recv_file-blocks :
      (blocks : List (List ℕ)) (rest : List Arrival) (outbox : List Datagram) (files created : W)
      (last_packet : Option LastPacket)
      → writer.create path files ≡ some created
      → 0 < window_size
      → IsBlocks block_size blocks
      → length blocks < 65536
      → (s' : Session W) × (recv_file system writer path (
            listening allow block_size window_size address
              (from address (data_packets 0 blocks) rest)
              outbox
              files
              last_packet)
          ≡ returned tt s')
        × (system.fopen path s'.files ≡ some (concat blocks))
  unfolding recv_file
  recv_file-blocks blocks rest outbox files created last_packet e w b h =
      let inbox = from address (data_packets 0 blocks) rest in
      let final =
        recv_file_loop-blocks (length inbox + 2) 0 blocks rest outbox created last_packet [] w
          (omega (arith, enough_arrivals 0 blocks rest)) b (omega arith)
          (reliable.create_empty path files created e) in
      (state rest final.outbox final.files final.last_packet, rw e final.ends, final.content)
