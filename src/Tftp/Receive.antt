-- ===== src/Tftp/Receive.antt =====
-- src/networking/tftp/tftp_client_handle.c: what the handler receives.
use file_share_server.Common.{
  ℕ, zero, suc, ◌+◌, ◌-◌, ◌==◌, ltb, if◌then◌else◌, Bool, false, ◌&&◌, ◌||◌, Option, none, some,
  List, [], ◌∷◌, ◌++◌, length, take, drop,
}
use file_share_server.Model.Support.{c_string}
use file_share_server.Checksum.{checksum}
use file_share_server.Tftp.{
  illegal_operation, unknown_transfer_id, ack, data_opcode, error_opcode, load16, ntohs, SockaddrIn,
  Arrival, arrives, times_out, fails, PacketBuffer, Session, Ending, returned, blocked, Transfer,
  spin, ◌>>=◌, ◌>>◌, get, return, longjmp, undefined, lift,
}
use file_share_server.Tftp.Send.{max_retries, error_occurred, terminate, resend_last_packet}

-- `__compare_address`.
abbrev pub compare_address : SockaddrIn → SockaddrIn → Bool
compare_address a1 a2 = (a1.s_addr == a2.s_addr) && (a1.sin_port == a2.sin_port)

abbrev pub is_expected : List ℕ → ℕ → Bool
is_expected [] opcode = false
is_expected (expected ∷ rest) opcode = (opcode == expected) || is_expected rest opcode

module _ {W : Type 0} where
  -- What `_recv` makes of a datagram; of one that is shorter than a header it reads and copies what is
  -- not there.
  abbrev pub read_datagram : SockaddrIn → List ℕ → Transfer W (Option PacketBuffer)
  read_datagram client_address datagram =
      if ltb (length datagram) 4
      then undefined
      else return (
          some (record {
            opcode = ntohs (load16 (drop 2 datagram));
            bytes = drop 4 datagram;
            data_len = length datagram - 4;
            client_address = client_address;
            raw_data = datagram;
            block_id = 0;
          }))

  -- One call of `recvfrom`, which is followed by `retry` where it times out.
  abbrev pub recv_by :
      (Session W → Ending W (Option PacketBuffer)) → List Arrival → Transfer W (Option PacketBuffer)
  recv_by retry [] s = blocked s
  recv_by retry (arrives client_address datagram ∷ rest) s =
      read_datagram client_address datagram (record s { inbox = rest })
  recv_by retry (times_out ∷ rest) s = retry (record s { inbox = rest })
  recv_by retry (fails ∷ rest) s = returned none (record s { inbox = rest })

  -- The last packet is sent again where there are calls left.
  abbrev pub retry_with :
      ℕ → (Session W → Ending W (Option PacketBuffer)) → Transfer W (Option PacketBuffer)
  retry_with zero again = again
  retry_with (suc tries) again = resend_last_packet >> again

  -- The loop of the calls with a timeout, with the calls that are left.
  unfoldable pub recv_retries : ℕ → Transfer W (Option PacketBuffer)
  recv_retries zero s = returned none s
  recv_retries (suc tries) s = recv_by (retry_with tries (recv_retries tries)) s.inbox s

  abbrev pub recv_from : Option PacketBuffer → ℕ → Transfer W (Option PacketBuffer)
  recv_from (some packet_buffer) handle_timeout s =
      returned (some packet_buffer) (record s { packet_buffer = none })
  recv_from none handle_timeout s =
      if handle_timeout == 0
      then recv_by (return none) s.inbox s
      else recv_retries (max_retries + 1) s

  -- The packet of the request first.
  unfoldable pub recv : ℕ → Transfer W (Option PacketBuffer)
  recv handle_timeout s = recv_from s.packet_buffer handle_timeout s

  -- `expected_opcodes` has no 0 at its end, so that an opcode that is not expected is compared with
  -- what is behind it. The message of an error is printed as a string.
  unfoldable pub check_error : PacketBuffer → List ℕ → Transfer W (Unit {0})
  check_error packet_buffer expected_opcodes =
      let len = packet_buffer.data_len - 2 in
      if packet_buffer.opcode == load16 error_opcode
      then (if ltb (length (c_string (take len (drop 2 packet_buffer.bytes)))) len
          then longjmp
          else undefined)
      else if is_expected expected_opcodes packet_buffer.opcode
      then return tt
      else λ s.
          (if is_expected s.opcodes_behind packet_buffer.opcode
              then return tt
              else terminate illegal_operation none)
            s

  -- What follows a packet: that of another client is answered with an error.
  abbrev pub after_recv :
      (Session W → Ending W (Option PacketBuffer))
      → ℕ
      → Option PacketBuffer
      → Transfer W (Option PacketBuffer)
  after_recv retry handle_timeout none s =
      if handle_timeout == 0 then returned none s else longjmp s
  after_recv retry handle_timeout (some packet_buffer) s =
      if (s.check_addr == 0) || compare_address packet_buffer.client_address s.address
      then returned (some packet_buffer) s
      else (error_occurred unknown_transfer_id none (some packet_buffer.client_address) >> retry) s

  -- The loop until a packet of the client comes; `fuel` is more than what can arrive.
  unfoldable pub recv_client : ℕ → ℕ → Transfer W (Option PacketBuffer)
  recv_client zero handle_timeout = spin
  recv_client (suc fuel) handle_timeout = do
    received ← recv handle_timeout
    after_recv (recv_client fuel handle_timeout) handle_timeout received

  -- The address of the first packet where addresses are not checked.
  abbrev pub adopt : PacketBuffer → Transfer W (Unit {0})
  adopt packet_buffer s =
      if s.check_addr == 0
      then returned tt (record s { address = packet_buffer.client_address; check_addr = 1 })
      else returned tt s

  -- "Packet too short: " and the data, printed to an array.
  abbrev pub refuse_short : PacketBuffer → ℕ → Transfer W (Unit {0})
  refuse_short packet_buffer min_data_length =
      if ltb packet_buffer.data_len min_data_length
      then (if ltb (length (c_string packet_buffer.bytes) + 18) (22 + min_data_length)
          then terminate illegal_operation none
          else undefined)
      else return tt

  -- The checks on a packet of the client.
  abbrev pub check_packet : List ℕ → ℕ → Option PacketBuffer → Transfer W (Option PacketBuffer)
  check_packet opcodes min_data_length none = return none
  check_packet opcodes min_data_length (some packet_buffer) = do
    adopt packet_buffer
    check_error packet_buffer opcodes
    refuse_short packet_buffer min_data_length
    return (some packet_buffer)

  unfoldable pub recv_packet_mul : List ℕ → ℕ → ℕ → Transfer W (Option PacketBuffer)
  recv_packet_mul opcodes min_data_length handle_timeout = do
    start ← get
    received ← recv_client (length start.inbox + 2) handle_timeout
    check_packet opcodes min_data_length received

  unfoldable pub recv_packet : ℕ → ℕ → ℕ → Transfer W (Option PacketBuffer)
  recv_packet opcode min_data_length handle_timeout =
      recv_packet_mul (ntohs opcode ∷ []) min_data_length handle_timeout

  -- The number of the block that is acknowledged, or NULL where the checksum is wrong; a packet that
  -- is NULL is read.
  abbrev pub read_ack : Option PacketBuffer → Transfer W (Option ℕ)
  read_ack none = undefined
  read_ack (some packet_buffer) = do
    sum ← lift (checksum (packet_buffer.data_len + 4) 0 packet_buffer.raw_data)
    return (if sum == 0 then some (ntohs (load16 packet_buffer.bytes)) else none)

  unfoldable pub recv_ack : ℕ → Transfer W (Option ℕ)
  recv_ack handle_timeout = do
    received ← recv_packet (load16 ack) 2 handle_timeout
    read_ack received

  -- The copy of overlapping data is taken as that of `memmove`; a packet that is NULL is read.
  abbrev pub read_block : Option PacketBuffer → Transfer W PacketBuffer
  read_block none = undefined
  read_block (some packet_buffer) =
      let len = packet_buffer.data_len - 2 in
      return (record packet_buffer {
        block_id = ntohs (load16 packet_buffer.bytes);
        bytes = take len (drop 2 packet_buffer.bytes) ++ drop len packet_buffer.bytes;
        data_len = len;
      })

  unfoldable pub recv_data : ℕ → Transfer W PacketBuffer
  recv_data handle_timeout = do
    received ← recv_packet (load16 data_opcode) 2 handle_timeout
    read_block received
