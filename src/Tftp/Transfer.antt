-- ===== src/Tftp/Transfer.antt =====
-- src/networking/tftp/tftp_client_handle.c: the blocks of a file, sent and received.
use file_share_server.Common.{
  ℕ, zero, suc, ◌+◌, ◌-◌, ◌*◌, ◌%◌, min, ltb, leb, ◌==◌, not, if◌then◌else◌, Bool, ◌&&◌, ◌||◌,
  Option, none, some, List, [], ◌++◌, length, take, drop, ℤ, pos, negsuc, int_eq,
}
use file_share_server.Database.{Text, System}
use file_share_server.Checksum.{checksum}
use file_share_server.Tftp.{
  unknown, access_violation, disk_full, invalid_checksum, PacketBuffer, Writer, Session, Ending,
  returned, Transfer, ◌>>=◌, ◌>>◌, get, put, return, undefined, spin, lift,
}
use file_share_server.Tftp.Send.{terminate, send_data, send_ack}
use file_share_server.Tftp.Receive.{recv_ack, recv_data}

-- The bytes of a buffer from a place on, NULL where they have not been written.
abbrev pub slice : ℕ → ℕ → List ℕ → Option (List ℕ)
slice offset count buffer =
    if length (take count (drop offset buffer)) == count
    then some (take count (drop offset buffer))
    else none

-- Whether an acknowledgement answers one of the blocks that were sent last.
abbrev pub is_reply : ℕ → ℕ → ℕ → Bool
is_reply last_block_id ack_block_id block_id =
    (leb ack_block_id last_block_id && leb block_id ack_block_id)
    || (leb ack_block_id (last_block_id % 65536) && ltb ack_block_id block_id)

module _ {W : Type 0} where
  -- One block of `__send_blocks`; bytes that have not been written are read.
  abbrev pub send_slice : Option (List ℕ) → ℕ → Transfer W (Unit {0})
  send_slice none block_id = undefined
  send_slice (some bytes) block_id = send_data bytes block_id

  abbrev pub send_block : List ℕ → ℕ → ℕ → ℕ → ℕ → Transfer W (Unit {0})
  send_block buffer buff_size local_blkid blk_size i =
      send_slice (slice (i * blk_size) (min (buff_size - local_blkid * blk_size) blk_size) buffer)
        ((local_blkid + 1) % 65536)

  -- The loop of `__send_blocks` from `i` on, with the blocks of the window that are left; the products
  -- are of type `int`. It gives 0 where there was nothing left to send.
  unfoldable pub block_loop : ℕ → List ℕ → ℕ → ℕ → ℕ → ℕ → Transfer W ℕ
  block_loop zero buffer buff_size first_blkid blk_size i = return 1
  block_loop (suc left) buffer buff_size first_blkid blk_size i =
      let local_blkid = first_blkid + i in
      let rest : Transfer W ℕ = block_loop left buffer buff_size first_blkid blk_size (i + 1) in
      if ltb 2147483647 (local_blkid * blk_size)
      then undefined
      else if ltb buff_size (local_blkid * blk_size)
      then return (if i == 0 then 0 else 1)
      else send_block buffer buff_size local_blkid blk_size i >> rest

  unfoldable pub send_blocks : List ℕ → ℕ → ℕ → ℕ → Transfer W ℕ
  send_blocks buffer buff_size outer_block_id inner_block_id = do
    s ← get
    block_loop s.window_size buffer buff_size (outer_block_id * 65536 + inner_block_id) s.block_size
        0

  -- What follows an acknowledgement, NULL where its checksum is wrong: `resume` goes on with the
  -- numbers of the block.
  abbrev pub after_ack :
      (ℕ → ℕ → Session W → Ending W (Unit {0}))
      → (outer_block_id block_id window_size : ℕ) → Option ℕ
      → Transfer W (Unit {0})
  after_ack resume outer_block_id block_id window_size none = terminate invalid_checksum none
  after_ack resume outer_block_id block_id window_size (some ack_block_id) =
      let replies = is_reply (block_id + window_size) ack_block_id block_id in
      resume (if replies && ltb ack_block_id block_id then outer_block_id + 1 else outer_block_id)
        (if replies then ack_block_id else block_id)

  -- The loop of `_send_file`: what is left to read, and what the buffer holds. Each round takes an
  -- arrival.
  unfoldable pub send_file_loop :
      ℕ → List ℕ → List ℕ → ℕ → (outer_block_id block_id : ℕ) → Transfer W (Unit {0})
  send_file_loop zero unread buffer buff_size outer_block_id block_id = spin
  send_file_loop (suc fuel) unread buffer buff_size outer_block_id block_id = do
    s ← get
    let need : ℕ = s.block_size * s.window_size
    let bytes : List ℕ = take need unread
    let read : List ℕ = bytes ++ drop (length bytes) buffer
    result ← send_blocks read buff_size outer_block_id block_id
    if result == 0 then return tt else (do
      received ← recv_ack 0
      after_ack (send_file_loop fuel (drop need unread) read buff_size) outer_block_id block_id
          s.window_size received)

  abbrev pub send_opened : Option (List ℕ) → ℕ → Transfer W (Unit {0})
  send_opened none buff_size = undefined
  send_opened (some bytes) buff_size = do
    s ← get
    send_file_loop (length s.inbox + 2) bytes [] buff_size 0 0

module _ {W : Type 0} (system : System W) where
  unfoldable pub send_file : Text → ℕ → Transfer W (Unit {0})
  send_file filename buff_size = do s ← get; send_opened (system.fopen filename s.files) buff_size

-- `last_id + 1`, and `(uint16_t)last_id`.
abbrev pub next_id : ℤ → ℤ
next_id (pos n) = pos (n + 1)
next_id (negsuc zero) = pos 0
next_id (negsuc (suc n)) = negsuc n

abbrev pub to_uint16 : ℤ → ℕ
to_uint16 (pos n) = n % 65536
to_uint16 (negsuc n) = 65535 - n % 65536

-- How the loop over a window ends: the file is complete, or the last block is acknowledged next.
pub data Window : Type 0 where
  complete : Window
  acknowledge : ℤ → Window

module _ {W : Type 0} where
  abbrev pub after_window : (ℤ → Session W → Ending W (Unit {0})) → Window → Transfer W (Unit {0})
  after_window resume complete = return tt
  after_window resume (acknowledge last) = do
    send_ack (if int_eq last (negsuc 0) then 65536 else to_uint16 last)
    resume last

module _ {W : Type 0} (system : System W) (writer : Writer W) where
  -- The file is removed where not all bytes are written.
  abbrev pub write_block : Text → List ℕ → Transfer W (Unit {0})
  write_block filename bytes s =
      let result = writer.fwrite filename bytes s.files in
      if result.0 == length bytes
      then returned tt (record s { files = result.1 })
      else terminate (if writer.is_full result.1 then disk_full else unknown) none
          (record s { files = (system.remove filename result.1).1 })

  -- What follows the block that is expected: `resume` goes on behind it.
  abbrev pub accept_block :
      (ℤ → Session W → Ending W Window) → Text → PacketBuffer → Transfer W Window
  accept_block resume filename packet_buffer = do
    write_block filename (take packet_buffer.data_len packet_buffer.bytes)
    s ← get
    let last : ℤ = if packet_buffer.block_id == 65536 then negsuc 0 else pos packet_buffer.block_id
    if ltb packet_buffer.data_len s.block_size
        then (do send_ack (to_uint16 last); return complete)
        else resume last

  -- The rounds of a window that are left.
  unfoldable pub window_loop : ℕ → Text → ℤ → Transfer W Window
  window_loop zero filename last_id = return (acknowledge last_id)
  window_loop (suc left) filename last_id = do
    packet_buffer ← recv_data 0
    sum ← lift (checksum (packet_buffer.data_len + 6) 0 packet_buffer.raw_data)
    if not (sum == 0)
        then return (acknowledge last_id)
        else if int_eq (pos packet_buffer.block_id) (next_id last_id)
        then accept_block (window_loop left filename) filename packet_buffer
        else window_loop left filename last_id

  -- The loop of `_recv_file`. `_recv_data` never returns NULL, so that `retries` stays 0. Each round
  -- of a window takes an arrival.
  unfoldable pub recv_file_loop : ℕ → Text → ℤ → Transfer W (Unit {0})
  recv_file_loop zero filename last_id = spin
  recv_file_loop (suc fuel) filename last_id = do
    s ← get
    window ← window_loop s.window_size filename last_id
    after_window (recv_file_loop fuel filename) window

  abbrev pub recv_created : Text → Option W → Transfer W (Unit {0})
  recv_created filename none = terminate access_violation none
  recv_created filename (some files) = do
    s ← get
    put (record s { files = files })
    recv_file_loop (length s.inbox + 2) filename (pos 0)

  unfoldable pub recv_file : Text → Transfer W (Unit {0})
  recv_file filename = do s ← get; recv_created filename (writer.create filename s.files)
