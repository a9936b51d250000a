-- ===== src/Tftp/Downloads.antt =====
-- src/networking/tftp/tftp_client_handle.c: `_send_file` comes to an end.
use file_share_server.Common.{
  ℕ, zero, suc, ◌+◌, ◌*◌, ◌<◌, ◌==◌, ltb, if◌then◌else◌, Option, none, some, List, [], ◌++◌, length,
  take, drop, arith,
}
use file_share_server.Database.{Text, System}
use file_share_server.Tftp.{invalid_checksum, Session, Transfer, return, undefined, ◌>>=◌, ◌>>◌}
use file_share_server.Tftp.Send.{send_data}
use file_share_server.Tftp.Receive.{recv_ack}
use file_share_server.Tftp.Transfer.{
  send_slice, send_block, block_loop, send_blocks, after_ack, send_file_loop, send_opened,
  send_file,
}
use file_share_server.Tftp.Endings.{Calmly, Calmly-next, Calmly-return, Calmly-fault, arrivals}
use file_share_server.Tftp.Sendings.{send-Calmly, terminate-Calmly}
use file_share_server.Tftp.Receptions.{recv_ack-Calmly}
use file_share_server.Tftp.Arrivals.{Calmly-if, few_waiting}

module _ {W : Type 0} where
  send_slice-Calmly :
      (bytes : Option (List ℕ)) (block_id : ℕ) (s : Session W)
      → Calmly 0 s (send_slice bytes block_id s)
  unfolding send_data
  send_slice-Calmly none block_id s = Calmly-fault _ 0 s
  send_slice-Calmly (some bytes) block_id s = send-Calmly _ none s

  block_loop-Calmly :
      (left : ℕ) (buffer : List ℕ) (buff_size first_blkid blk_size i : ℕ) (s : Session W)
      → Calmly 0 s (block_loop left buffer buff_size first_blkid blk_size i s)
  unfolding block_loop
  block_loop-Calmly zero buffer buff_size first_blkid blk_size i s = Calmly-return 1 s
  block_loop-Calmly (suc left) buffer buff_size first_blkid blk_size i s =
      let start = (first_blkid + i) * blk_size in
      let block : Transfer W (Unit {0}) =
        send_block buffer buff_size (first_blkid + i) blk_size i in
      let rest : Transfer W ℕ = block_loop left buffer buff_size first_blkid blk_size (i + 1) in
      let last : Transfer W ℕ = return (if i == 0 then 0 else 1) in
      Calmly-if _ 0 (ltb 2147483647 start) undefined
        (if ltb buff_size start then last else block >> rest) s (λ e. Calmly-fault _ 0 s)
        (λ e.
          Calmly-if _ 0 (ltb buff_size start) last (block >> rest) s (λ e'. Calmly-return _ s)
            (λ e'.
              Calmly-next 0 0 0 s (block s) _ (send_slice-Calmly _ _ s)
                (λ a t few. block_loop-Calmly left buffer buff_size first_blkid blk_size (i + 1) t)
                (omega arith)))

  after_ack-Calmly :
      (resume : ℕ → ℕ → Transfer W (Unit {0})) (outer_block_id block_id window_size : ℕ)
      (received : Option ℕ) (s : Session W)
      → ((outer inner : ℕ) → Calmly 0 s (resume outer inner s))
      → Calmly 0 s (after_ack resume outer_block_id block_id window_size received s)
  after_ack-Calmly resume outer_block_id block_id window_size none s h =
      terminate-Calmly _ 0 invalid_checksum none s
  after_ack-Calmly resume outer_block_id block_id window_size (some ack_block_id) s h = h _ _

  send_file_loop-Calmly :
      (fuel : ℕ) (unread buffer : List ℕ) (buff_size outer_block_id block_id : ℕ) (s : Session W)
      → arrivals s < fuel
      → Calmly 0 s (send_file_loop fuel unread buffer buff_size outer_block_id block_id s)
  unfolding send_file_loop send_blocks
  send_file_loop-Calmly zero unread buffer buff_size outer_block_id block_id s h =
      absurd (omega arith)
  send_file_loop-Calmly (suc fuel) unread buffer buff_size outer_block_id block_id s h =
      let need = s.block_size * s.window_size in
      let bytes = take need unread in
      let read = bytes ++ drop (length bytes) buffer in
      let resume : ℕ → ℕ → Transfer W (Unit {0}) =
        send_file_loop fuel (drop need unread) read buff_size in
      let go_on : Transfer W (Unit {0}) =
        recv_ack 0 >>= after_ack resume outer_block_id block_id s.window_size in
      Calmly-next 0 0 0 s _ _
        (block_loop-Calmly s.window_size read buff_size (outer_block_id * 65536 + block_id)
          s.block_size 0 s)
        (λ result t few.
          Calmly-if _ 0 (result == 0) (return tt) go_on t (λ e. Calmly-return tt t)
            (λ e.
              Calmly-next 1 0 0 t _ _ (recv_ack-Calmly 0 t)
                (λ received u fewer.
                  after_ack-Calmly resume outer_block_id block_id s.window_size received u
                    (λ outer inner.
                      send_file_loop-Calmly fuel (drop need unread) read buff_size outer inner u
                        (omega arith)))
                (omega arith)))
        (omega arith)

  send_opened-Calmly :
      (opened : Option (List ℕ)) (buff_size : ℕ) (s : Session W)
      → Calmly 0 s (send_opened opened buff_size s)
  send_opened-Calmly none buff_size s = Calmly-fault _ 0 s
  send_opened-Calmly (some bytes) buff_size s =
      send_file_loop-Calmly (length s.inbox + 2) bytes [] buff_size 0 0 s
        (omega (arith, few_waiting s.packet_buffer))

module _ {W : Type 0} (system : System W) where
  pub send_file-Calmly :
      (filename : Text) (buff_size : ℕ) (s : Session W)
      → Calmly 0 s (send_file system filename buff_size s)
  unfolding send_file
  send_file-Calmly filename buff_size s =
      send_opened-Calmly (system.fopen filename s.files) buff_size s
