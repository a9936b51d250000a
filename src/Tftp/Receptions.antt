-- ===== src/Tftp/Receptions.antt =====
-- What the functions of src/networking/tftp/tftp_client_handle.c that receive keep and take.
use file_share_server.Common.{
  ◌+◌, ℕ, zero, suc, ◌≤◌, ◌<◌, ◌==◌, ltb, refl, if◌then◌else◌, ◌||◌, Option, none, some, List,
  length, take, drop, ◌-◌, arith,
}
use file_share_server.Checksum.{checksum}
use file_share_server.Model.Support.{c_string}
use file_share_server.Tftp.{
  illegal_operation, error_opcode, load16, PacketBuffer, Session, Transfer, return, longjmp,
  undefined,
}
use file_share_server.Tftp.Send.{terminate, error_occurred, send_err}
use file_share_server.Tftp.Receive.{
  compare_address, recv, check_error, is_expected, after_recv, recv_client, adopt, refuse_short,
  check_packet, recv_packet_mul, recv_packet, read_ack, recv_ack, read_block, recv_data,
}
use file_share_server.Tftp.Endings.{
  Calmly, Calmly-next, Calmly-lift, Calmly-return, Calmly-jumped, Calmly-fault, Calmly-silent,
  Calmly-fewer, arrivals,
}
use file_share_server.Tftp.Sendings.{send-Calmly, terminate-Calmly}
use file_share_server.Tftp.Arrivals.{few_waiting, Calmly-if, Calmly-choice, recv_from-Calmly}

module _ {W : Type 0} where
  after_recv-Calmly :
      (retry : Transfer W (Option PacketBuffer)) (handle_timeout : ℕ)
      (received : Option PacketBuffer) (s : Session W)
      → ((t : Session W) → arrivals t ≤ arrivals s → Calmly 0 t (retry t))
      → Calmly 0 s (after_recv retry handle_timeout received s)
  unfolding error_occurred send_err
  after_recv-Calmly retry handle_timeout none s h =
      Calmly-choice _ 0 (handle_timeout == 0) _ _ s (λ e. Calmly-return none s)
        (λ e. Calmly-jumped _ 0 s)
  after_recv-Calmly retry handle_timeout (some packet_buffer) s h =
      Calmly-choice _ 0
        ((s.check_addr == 0) || compare_address packet_buffer.client_address s.address) _ _ s
        (λ e. Calmly-return _ s)
        (λ e.
          Calmly-next 0 0 0 s _ _ (send-Calmly _ _ s) (λ a t few. h t (omega arith)) (omega arith))

  recv_client-Calmly :
      (fuel handle_timeout : ℕ) (s : Session W)
      → arrivals s < fuel
      → Calmly 1 s (recv_client fuel handle_timeout s)
  unfolding recv_client recv
  recv_client-Calmly zero handle_timeout s h = absurd (omega arith)
  recv_client-Calmly (suc fuel) handle_timeout s h =
      Calmly-next 1 0 1 s _ _ (recv_from-Calmly s.packet_buffer handle_timeout s refl)
        (λ received t few.
          after_recv-Calmly (recv_client fuel handle_timeout) handle_timeout received t (λ u fewer.
            Calmly-fewer _ 1 0 u _ (recv_client-Calmly fuel handle_timeout u (omega arith))
              (omega arith)))
        (omega arith)

  adopt-Calmly : (packet_buffer : PacketBuffer) (s : Session W) → Calmly 0 s (adopt packet_buffer s)
  adopt-Calmly packet_buffer s =
      Calmly-choice _ 0 (s.check_addr == 0) _ _ s
        (λ e. Calmly-silent tt s _ refl refl refl refl refl refl) (λ e. Calmly-return tt s)

  check_error-Calmly :
      (packet_buffer : PacketBuffer) (expected_opcodes : List ℕ) (s : Session W)
      → Calmly 0 s (check_error packet_buffer expected_opcodes s)
  unfolding check_error
  check_error-Calmly packet_buffer expected_opcodes s =
      let len = packet_buffer.data_len - 2 in
      let ends = ltb (length (c_string (take len (drop 2 packet_buffer.bytes)))) len in
      let expected = is_expected expected_opcodes packet_buffer.opcode in
      let found = is_expected s.opcodes_behind packet_buffer.opcode in
      let refusal : Transfer W (Unit {0}) = terminate illegal_operation none in
      let search : Transfer W (Unit {0}) =
        λ t. (if is_expected t.opcodes_behind packet_buffer.opcode then return tt else refusal) t in
      Calmly-if _ 0 (packet_buffer.opcode == load16 error_opcode)
        (if ends then longjmp else undefined) (if expected then return tt else search) s
        (λ e.
          Calmly-if _ 0 ends longjmp undefined s (λ e'. Calmly-jumped _ 0 s)
            (λ e'. Calmly-fault _ 0 s))
        (λ e.
          Calmly-if _ 0 expected (return tt) search s (λ e'. Calmly-return tt s)
            (λ e'.
              Calmly-if _ 0 found (return tt) refusal s (λ e''. Calmly-return tt s)
                (λ e''. terminate-Calmly _ 0 illegal_operation none s)))

  refuse_short-Calmly :
      (packet_buffer : PacketBuffer) (min_data_length : ℕ) (s : Session W)
      → Calmly 0 s (refuse_short packet_buffer min_data_length s)
  refuse_short-Calmly packet_buffer min_data_length s =
      let fits = ltb (length (c_string packet_buffer.bytes) + 18) (22 + min_data_length) in
      let refusal : Transfer W (Unit {0}) = terminate illegal_operation none in
      Calmly-if _ 0 (ltb packet_buffer.data_len min_data_length)
        (if fits then refusal else undefined) (return tt) s
        (λ e.
          Calmly-if _ 0 fits refusal undefined s
            (λ e'. terminate-Calmly _ 0 illegal_operation none s) (λ e'. Calmly-fault _ 0 s))
        (λ e. Calmly-return tt s)

  check_packet-Calmly :
      (opcodes : List ℕ) (min_data_length : ℕ) (received : Option PacketBuffer) (s : Session W)
      → Calmly 0 s (check_packet opcodes min_data_length received s)
  check_packet-Calmly opcodes min_data_length none s = Calmly-return none s
  check_packet-Calmly opcodes min_data_length (some packet_buffer) s =
      Calmly-next 0 0 0 s _ _ (adopt-Calmly packet_buffer s)
        (λ a t few.
          Calmly-next 0 0 0 t _ _ (check_error-Calmly packet_buffer opcodes t)
            (λ b u few'.
              Calmly-next 0 0 0 u _ _ (refuse_short-Calmly packet_buffer min_data_length u)
                (λ c v few''. Calmly-return (some packet_buffer) v) (omega arith))
            (omega arith))
        (omega arith)

  pub recv_packet_mul-Calmly :
      (opcodes : List ℕ) (min_data_length handle_timeout : ℕ) (s : Session W)
      → Calmly 1 s (recv_packet_mul opcodes min_data_length handle_timeout s)
  unfolding recv_packet_mul
  recv_packet_mul-Calmly opcodes min_data_length handle_timeout s =
      Calmly-next 1 0 1 s _ _
        (recv_client-Calmly (length s.inbox + 2) handle_timeout s
          (omega (arith, few_waiting s.packet_buffer)))
        (λ received t few. check_packet-Calmly opcodes min_data_length received t) (omega arith)

  read_ack-Calmly :
      (received : Option PacketBuffer) (s : Session W) → Calmly 0 s (read_ack received s)
  read_ack-Calmly none s = Calmly-fault _ 0 s
  read_ack-Calmly (some packet_buffer) s =
      Calmly-lift 0 s (checksum (packet_buffer.data_len + 4) 0 packet_buffer.raw_data) _
        (λ sum. Calmly-return _ s)

  pub recv_ack-Calmly :
      (handle_timeout : ℕ) (s : Session W) → Calmly 1 s (recv_ack handle_timeout s)
  unfolding recv_ack recv_packet
  recv_ack-Calmly handle_timeout s =
      Calmly-next 1 0 1 s _ _ (recv_packet_mul-Calmly _ 2 handle_timeout s)
        (λ received t few. read_ack-Calmly received t) (omega arith)

  read_block-Calmly :
      (received : Option PacketBuffer) (s : Session W) → Calmly 0 s (read_block received s)
  read_block-Calmly none s = Calmly-fault _ 0 s
  read_block-Calmly (some packet_buffer) s = Calmly-return _ s

  pub recv_data-Calmly :
      (handle_timeout : ℕ) (s : Session W) → Calmly 1 s (recv_data handle_timeout s)
  unfolding recv_data recv_packet
  recv_data-Calmly handle_timeout s =
      Calmly-next 1 0 1 s _ _ (recv_packet_mul-Calmly _ 2 handle_timeout s)
        (λ received t few. read_block-Calmly received t) (omega arith)
