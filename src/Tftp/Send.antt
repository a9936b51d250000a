-- ===== src/Tftp/Send.antt =====
-- src/networking/tftp/tftp_client_handle.c: what the handler sends.
use file_share_server.Common.{
  ℕ, zero, suc, ◌+◌, ◌%◌, ltb, if◌then◌else◌, Option, none, some, List, [], ◌∷◌, ◌++◌, length, take,
}
use file_share_server.Database.{Text}
use file_share_server.Checksum.Packet.{with_checksum}
use file_share_server.Tftp.{
  TftpErrorCodes, error_number, get_message, ack, data_opcode, error_opcode, ntohs, store16,
  SockaddrIn, Sending, sent, again, refused, Datagram, LastPacket, Session, Ending, returned,
  Transfer, ◌>>=◌, ◌>>◌, get, put, return, longjmp, undefined, lift,
}

abbrev pub max_retries : ℕ
max_retries = 10

abbrev pub address_or : Option SockaddrIn → SockaddrIn → SockaddrIn
address_or none address = address
address_or (some given) address = given

abbrev pub message_or : Option Text → TftpErrorCodes → Text
message_or none error_code = get_message error_code
message_or (some message) error_code = message

module _ {W : Type 0} where
  -- What has been sent stands at the end of the outbox.
  abbrev pub post : SockaddrIn → List ℕ → Session W → Session W
  post address buffer s =
      let datagram : Datagram = record { receiver = address; bytes = buffer } in
      record s { outbox = s.outbox ++ datagram ∷ [] }

  abbrev pub sendto_ending : List Sending → SockaddrIn → List ℕ → Session W → Ending W Sending
  sendto_ending [] address buffer s = returned sent (post address buffer s)
  sendto_ending (sent ∷ rest) address buffer s =
      returned sent (record (post address buffer s) { sendings = rest })
  sendto_ending (again ∷ rest) address buffer s = returned again (record s { sendings = rest })
  sendto_ending (refused ∷ rest) address buffer s = returned refused (record s { sendings = rest })

  unfoldable pub sendto : SockaddrIn → List ℕ → Transfer W Sending
  sendto address buffer s = sendto_ending s.sendings address buffer s

  -- A call that ends with EAGAIN is followed by another.
  abbrev pub after_sendto : (Session W → Ending W (Unit {0})) → Sending → Transfer W (Unit {0})
  after_sendto retry sent = return tt
  after_sendto retry again = retry
  after_sendto retry refused = longjmp

  -- The loop over `sendto`, with the calls that are left; then the handler is freed.
  unfoldable pub send_loop : ℕ → SockaddrIn → List ℕ → Transfer W (Unit {0})
  send_loop zero address buffer = longjmp
  send_loop (suc tries) address buffer = do
    sending ← sendto address buffer
    after_sendto (send_loop tries address buffer) sending

  abbrev pub keep_packet : SockaddrIn → List ℕ → Session W → Session W
  keep_packet address bytes s = record s {
    last_packet = some (record { client_address = address; bytes = bytes; data_len = none });
  }

  -- The copy in `__last_packet`, whose data have 65532 bytes, does not get its length.
  unfoldable pub send : List ℕ → Option SockaddrIn → Transfer W (Unit {0})
  send bytes addr = do
    s ← get
    let address : SockaddrIn = address_or addr s.address
    buffer ← lift (with_checksum bytes)
    if ltb 65532 (length bytes)
        then undefined
        else do put (keep_packet address bytes s); send_loop (max_retries + 1) address buffer

  -- The error code is stored as the machine has it.
  unfoldable pub send_err : TftpErrorCodes → Text → Option SockaddrIn → Transfer W (Unit {0})
  send_err error_code error_message addr =
      send (error_opcode ++ (store16 (error_number error_code) ++ (error_message ++ 0 ∷ []))) addr

  unfoldable pub error_occurred :
      TftpErrorCodes → Option Text → Option SockaddrIn → Transfer W (Unit {0})
  error_occurred error_code error_message addr =
      send_err error_code (message_or error_message error_code) addr

  -- The message that is only printed to the log is left out.
  unfoldable pub terminate : {A : Type 0} → TftpErrorCodes → Option Text → Transfer W A
  terminate error_code error_message = do error_occurred error_code error_message none; longjmp

  unfoldable pub send_data : List ℕ → ℕ → Transfer W (Unit {0})
  send_data bytes block_id =
      send (data_opcode ++ (store16 (ntohs (block_id % 65536)) ++ bytes)) none

  unfoldable pub send_ack : ℕ → Transfer W (Unit {0})
  send_ack block_number = send (ack ++ store16 (ntohs (block_number % 65536))) none

  -- The length is not set by `_send`.
  abbrev pub resend : List ℕ → Option ℕ → Transfer W (Unit {0})
  resend bytes none = undefined
  resend bytes (some data_len) = send (take data_len bytes) none

  abbrev pub resend_packet : Option LastPacket → Transfer W (Unit {0})
  resend_packet none = undefined
  resend_packet (some packet) = resend packet.bytes packet.data_len

  unfoldable pub resend_last_packet : Transfer W (Unit {0})
  resend_last_packet s = resend_packet s.last_packet s
