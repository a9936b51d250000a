-- ===== src/Tftp/Client.antt =====
-- src/networking/tftp/tftp_client_handle.c: a client from its request to the end.
use file_share_server.Common.{
  ℕ, ◌+◌, ◌==◌, ltb, if◌then◌else◌, not, Bool, true, false, Option, none, some, List, [], ◌∷◌, ◌++◌,
  length, drop, ℤ, pos, negsuc, int_eq,
}
use file_share_server.Base64.{codes}
use file_share_server.Database.{Text, System}
use file_share_server.Model.Support.{c_string, fit}
use file_share_server.Checksum.Packet.{with_checksum}
use file_share_server.Tftp.{
  rrq, wrq, ack, load16, store16, illegal_operation, file_not_found, access_violation,
  file_already_exists, SockaddrIn, Arrival, arrives, times_out, fails, PacketBuffer, Writer,
  Session, Ending, returned, jumped, blocked, faulted, endless, Transfer, ◌>>=◌, ◌>>◌, get, put,
  return, undefined, lift,
}
use file_share_server.Tftp.Send.{sendto, terminate, send_ack}
use file_share_server.Tftp.Receive.{recv_packet_mul, recv_ack}
use file_share_server.Tftp.Request.{TftpOption, process_option}
use file_share_server.Tftp.Options.{send_oack, map_options}
use file_share_server.Tftp.Transfer.{send_file, recv_file}

-- UPLOAD_DIR and a name, printed to an array.
abbrev pub upload_path : Text → Text
upload_path file_name = codes "./upload/" ++ file_name

module _ {W : Type 0} (system : System W) (writer : Writer W) where
  -- The options that follow the mode.
  abbrev pub recv_options : ℕ → List TftpOption → Transfer W (Unit {0})
  recv_options opcode [] = return tt
  recv_options opcode (option ∷ options) = do
    map_options system (option ∷ options)
    send_oack (option ∷ options)
    if opcode == load16 rrq then (do _ ← recv_ack 1; return tt) else return tt

  abbrev pub check_mode : Text → Transfer W (Unit {0})
  check_mode file_mode =
      if int_eq (system.strcmp file_mode (codes "octet")) (pos 0)
      then return tt
      else terminate illegal_operation none

  -- What lies in memory behind the mode, where the packet is not as long as the name and the mode.
  abbrev pub check_options : PacketBuffer → ℕ → List ℕ → Transfer W (Unit {0})
  check_options packet_buffer current_len memory =
      if current_len == packet_buffer.data_len
      then return tt
      else (do options ← lift (process_option memory); recv_options packet_buffer.opcode options)

  -- What is read of the packet of a request.
  abbrev pub read_rq : Option PacketBuffer → Transfer W (ℕ × Text)
  read_rq none = undefined
  read_rq (some packet_buffer) = do
    file_name ← lift (fit 100 (c_string packet_buffer.bytes))
    let modes : List ℕ = drop (length file_name + 1) packet_buffer.bytes
    file_mode ← lift (fit 10 (c_string modes))
    check_mode file_mode
    check_options packet_buffer (2 + length file_mode + length file_name)
        (drop (length file_mode + 1) modes)
    return (packet_buffer.opcode, file_name)

  -- The opcode and the name of the file.
  unfoldable pub recv_rq : Transfer W (ℕ × Text)
  recv_rq = do received ← recv_packet_mul (load16 rrq ∷ load16 wrq ∷ []) 2 1; read_rq received

  abbrev pub read_opened : Text → Option (List ℕ) → Transfer W (Unit {0})
  read_opened full_path none = terminate file_not_found none
  read_opened full_path (some bytes) = send_file system full_path (length bytes)

  -- `__handle_read`.
  unfoldable pub handle_read : Text → Transfer W (Unit {0})
  handle_read file_name = do
    full_path ← lift (fit 128 (upload_path file_name))
    s ← get
    if not (int_eq (system.access full_path s.files) (pos 0))
        then terminate file_not_found none
        else read_opened full_path (system.fopen full_path s.files)

  -- `__handle_write`.
  unfoldable pub handle_write : Text → Transfer W (Unit {0})
  handle_write file_name = do
    s ← get
    if s.is_allow_upload == 0 then terminate access_violation none else (do
      full_path ← lift (fit 1024 (upload_path file_name))
      if int_eq (system.access full_path s.files) (pos 0)
          then terminate file_already_exists none
          else (do send_ack 0; recv_file system writer full_path))

  unfoldable pub serve_client : Transfer W (Unit {0})
  serve_client = do
    (opcode, file_name) ← recv_rq
    if opcode == load16 rrq
        then handle_read file_name
        else if opcode == load16 wrq
        then handle_write file_name
        else terminate illegal_operation none

  -- The end of a function that is called behind `setjmp`.
  abbrev pub setjmp : Ending W (Unit {0}) → Ending W ℤ
  setjmp (returned _ s) = returned (pos 0) s
  setjmp (jumped s) = returned (negsuc 0) s
  setjmp (blocked s) = blocked s
  setjmp faulted = faulted
  setjmp endless = endless

  unfoldable pub handle_client : Transfer W ℤ
  handle_client s = setjmp (serve_client s)

  -- The wait for the client's answer to the new port, whatever it is; no timeout is set yet.
  abbrev pub await_answer : List Arrival → Transfer W Bool
  await_answer [] s = blocked s
  await_answer (arrives peer_addr datagram ∷ rest) s =
      returned (ltb 0 (length datagram)) (record s { inbox = rest })
  await_answer (times_out ∷ rest) s = returned false (record s { inbox = rest })
  await_answer (fails ∷ rest) s = returned false (record s { inbox = rest })

  -- The datagram with the new port goes out once; -1 as a `size_t` is no failure.
  abbrev pub announce : SockaddrIn → ℕ → Transfer W (Unit {0})
  announce client_address new_port = do
    buffer ← lift (with_checksum (ack ++ store16 new_port))
    _ ← sendto client_address buffer
    return tt

  abbrev pub exchange_port : SockaddrIn → Option ℕ → Transfer W Bool
  exchange_port client_address none = return true
  exchange_port client_address (some new_port) = do
    announce client_address new_port
    λ s. await_answer s.inbox s

  abbrev pub prepared : SockaddrIn → Session W → Session W
  prepared client_address s = record s {
    block_size = 512;
    window_size = 1;
    check_addr = 1;
    address = client_address;
    last_packet = none;
  }

  -- `__packet_buffer` has the size of a Packet: its other fields, which are written last, lie behind
  -- the end of the block. `new_port` is NULL where `getsockname` fails.
  unfoldable pub create_handler : List ℕ → SockaddrIn → Option ℕ → Transfer W Bool
  create_handler initial_buffer client_address new_port = do
    s ← get
    put (prepared client_address s)
    created ← exchange_port client_address new_port
    if not created then return false else undefined

  -- src/networking/tftp/tftp_server.c: the job of a client; what `handle_client` returns is printed.
  unfoldable pub tftp_handler : List ℕ → SockaddrIn → Option ℕ → Transfer W (Unit {0})
  tftp_handler initial_buffer client_address new_port = do
    created ← create_handler initial_buffer client_address new_port
    if created then (do _ ← handle_client; return tt) else return tt
