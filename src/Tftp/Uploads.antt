-- ===== src/Tftp/Uploads.antt =====
-- src/networking/tftp/tftp_client_handle.c: what `_recv_file` writes, and that it comes to an end.
use file_share_server.Common.{
  ℕ, zero, suc, ◌+◌, ◌≤◌, ◌<◌, ◌==◌, ltb, ◌≡◌, ◌≢◌, ◌⊎◌, inl, inr, refl, ◌∙◌, not, if◌then◌else◌,
  Option, none, some, List, length, ℤ, pos, negsuc, int_eq, arith,
}
use file_share_server.Database.{Text, System}
use file_share_server.Checksum.{checksum}
use file_share_server.Tftp.{
  unknown, disk_full, access_violation, PacketBuffer, Writer, Session, Transfer, return, ◌>>◌,
}
use file_share_server.Tftp.Send.{send_ack}
use file_share_server.Tftp.Receptions.{recv_data-Calmly}
use file_share_server.Tftp.Arrivals.{few_waiting}
use file_share_server.Tftp.Transfer.{
  next_id, to_uint16, Window, complete, acknowledge, write_block, accept_block, window_loop,
  after_window, recv_file_loop, recv_created, recv_file,
}
use file_share_server.Tftp.Endings.{Ends, Ends-weaken, arrivals}
use file_share_server.Tftp.Sendings.{send-Calmly, terminate-Calmly}
use file_share_server.Tftp.Local.{
  IsLocalWriter, IsLocal, Locally, Calmly-Locally, Locally-next, Locally-lift, Locally-if,
  Locally-choice, Locally-return, Locally-fewer, Locally-files,
}

module _ {W : Type 0} (system : System W) (writer : Writer W) (E : Type 0)
    (local : IsLocalWriter system writer) where
  write_block-Locally :
      (path : Text) (bytes : List ℕ) (s : Session W)
      → Locally system writer E path 0 s (write_block system writer path bytes s)
  write_block-Locally path bytes s =
      let result = writer.fwrite path bytes s.files in
      let written : (other : Text)
          → other ≢ path
          → system.fopen other result.1 ≡ system.fopen other s.files =
        λ other n. local.fwrite_others path other bytes s.files n in
      Locally-choice system writer E _ path 0 (result.0 == length bytes) _ _ s
        (Locally-files system writer E _ path result.1 s _ written
          (Locally-return system writer E _ path tt _))
        (Locally-files system writer E _ path (system.remove path result.1).1 s _
          (λ other n. local.remove_others path other result.1 n ∙ written other n)
          (Calmly-Locally system writer E _ path 0 _ _
            (terminate-Calmly _ 0 (if writer.is_full result.1 then disk_full else unknown) none _)))

  send_ack-Locally :
      (path : Text) (block_number : ℕ) (s : Session W)
      → Locally system writer E path 0 s (send_ack block_number s)
  unfolding send_ack
  send_ack-Locally path block_number s =
      Calmly-Locally system writer E _ path 0 s _ (send-Calmly _ none s)

  accept_block-Locally :
      (resume : ℤ → Transfer W Window) (path : Text) (packet_buffer : PacketBuffer) (s : Session W)
      → ((last : ℤ) (t : Session W) → Locally system writer E path 0 t (resume last t))
      → Locally system writer E path 0 s (accept_block system writer resume path packet_buffer s)
  accept_block-Locally resume path packet_buffer s h =
      let last : ℤ =
        if packet_buffer.block_id == 65536 then negsuc 0 else pos packet_buffer.block_id in
      let end : Transfer W Window = send_ack (to_uint16 last) >> return complete in
      Locally-next system writer E _ _ path 0 0 0 s _ _ (write_block-Locally path _ s)
        (λ a t kept few.
          Locally-if system writer E _ path 0 (ltb packet_buffer.data_len t.block_size) end
            (resume last) t
            (Locally-next system writer E _ _ path 0 0 0 t _ _
              (send_ack-Locally path (to_uint16 last) t)
              (λ b u kept' few'. Locally-return system writer E _ path complete u) (omega arith))
            (h last t))
        (omega arith)

  window_loop-Locally :
      (left n : ℕ) (path : Text) (last_id : ℤ) (s : Session W)
      → n ≤ left
      → n ≤ 1
      → Locally system writer E path n s (window_loop system writer left path last_id s)
  unfolding window_loop
  window_loop-Locally zero n path last_id s few one =
      Locally-fewer system writer E _ path 0 n s _
        (Locally-return system writer E _ path (acknowledge last_id) s) (omega arith)
  window_loop-Locally (suc left) n path last_id s few one =
      let resume : ℤ → Transfer W Window = window_loop system writer left path in
      let again : (last : ℤ) (t : Session W) → Locally system writer E path 0 t (resume last t) =
        λ last t. window_loop-Locally left 0 path last t (omega arith) (omega arith) in
      Locally-next system writer E _ _ path 1 0 n s _ _
        (Calmly-Locally system writer E _ path 1 s _ (recv_data-Calmly 0 s))
        (λ packet_buffer t kept fewer.
          let accepted : Transfer W Window = accept_block system writer resume path packet_buffer in
          let is_next = int_eq (pos packet_buffer.block_id) (next_id last_id) in
          Locally-lift system writer E _ _ path 0 t
            (checksum (packet_buffer.data_len + 6) 0 packet_buffer.raw_data) _
            (λ sum.
              Locally-if system writer E _ path 0 (not (sum == 0)) (return (acknowledge last_id))
                (if is_next then accepted else resume last_id) t
                (Locally-return system writer E _ path (acknowledge last_id) t)
                (Locally-if system writer E _ path 0 is_next accepted (resume last_id) t
                  (accept_block-Locally resume path packet_buffer t again) (again last_id t))))
        (omega arith)

  after_window-Locally :
      (resume : ℤ → Transfer W (Unit {0})) (path : Text) (window : Window) (s : Session W)
      → ((last : ℤ) (t : Session W)
          → IsLocal system writer path s t
          → Locally system writer E path 0 t (resume last t))
      → Locally system writer E path 0 s (after_window resume window s)
  after_window-Locally resume path complete s h = Locally-return system writer E _ path tt s
  after_window-Locally resume path (acknowledge last) s h =
      Locally-next system writer E _ _ path 0 0 0 s _ _ (send_ack-Locally path _ s)
        (λ a t kept few. h last t kept) (omega arith)

  -- Rounds that are enough, unless it need not end.
  abbrev IsEnough : ℕ → Session W → Type 0
  IsEnough fuel s = ((0 < s.window_size) × (arrivals s < fuel)) ⊎ E

  -- A round of a window that has a block takes an arrival.
  abbrev round : (fuel : ℕ) (s : Session W) → IsEnough fuel s → ℕ
  round fuel s (inl fits) = 1
  round fuel s (inr e) = 0

  round_fits :
      (fuel : ℕ) (s : Session W) (enough : IsEnough fuel s) → round fuel s enough ≤ s.window_size
  round_fits fuel s (inl fits) = omega (arith, fits.0)
  round_fits fuel s (inr e) = omega arith

  round_one : (fuel : ℕ) (s : Session W) (enough : IsEnough fuel s) → round fuel s enough ≤ 1
  round_one fuel s (inl fits) = omega arith
  round_one fuel s (inr e) = omega arith

  IsEnough-after :
      (fuel : ℕ) (s t u : Session W) (enough : IsEnough (suc fuel) s)
      → t.window_size ≡ s.window_size
      → arrivals t + round (suc fuel) s enough ≤ arrivals s
      → u.window_size ≡ t.window_size
      → arrivals u ≤ arrivals t
      → IsEnough fuel u
  IsEnough-after fuel s t u (inl fits) w few w' few' =
      inl (omega (arith, fits.0, w, w'), omega (arith, fits.1, few, few'))
  IsEnough-after fuel s t u (inr e) w few w' few' = inr e

  no_rounds : (s : Session W) → IsEnough 0 s → E
  no_rounds s (inl fits) = absurd (omega (arith, fits.1))
  no_rounds s (inr e) = e

  recv_file_loop-Locally :
      (fuel : ℕ) (path : Text) (last_id : ℤ) (s : Session W)
      → IsEnough fuel s
      → Locally system writer E path 0 s (recv_file_loop system writer fuel path last_id s)
  unfolding recv_file_loop Locally Ends
  recv_file_loop-Locally zero path last_id s enough = no_rounds s enough
  recv_file_loop-Locally (suc fuel) path last_id s enough =
      Locally-next system writer E _ _ path (round (suc fuel) s enough) 0 0 s _ _
        (window_loop-Locally s.window_size (round (suc fuel) s enough) path last_id s
          (round_fits (suc fuel) s enough) (round_one (suc fuel) s enough))
        (λ window t kept few.
          after_window-Locally (recv_file_loop system writer fuel path) path window t
            (λ last u kept'.
              recv_file_loop-Locally fuel path last u (
                IsEnough-after fuel s t u enough kept.window_size few kept'.window_size
                  kept'.left)))
        (omega arith)

  recv_created-Locally :
      (path : Text) (created : Option W) (s : Session W)
      → writer.create path s.files ≡ created
      → (0 < s.window_size) ⊎ E
      → Locally system writer E path 0 s (recv_created system writer path created s)
  recv_created-Locally path none s e enough =
      Calmly-Locally system writer E _ path 0 s _ (terminate-Calmly _ 0 access_violation none s)
  recv_created-Locally path (some files) s e enough =
      Locally-files system writer E _ path files s _
        (λ other n. local.create_others path other s.files files e n)
        (recv_file_loop-Locally (length s.inbox + 2) path (pos 0) (record s { files = files })
          (elim enough [
            | inl positive ↦ inl (positive, omega (arith, few_waiting s.packet_buffer))
            | inr spins ↦ inr spins
          ]))

  pub recv_file-Locally :
      (path : Text) (s : Session W)
      → (0 < s.window_size) ⊎ E
      → Locally system writer E path 0 s (recv_file system writer path s)
  unfolding recv_file
  recv_file-Locally path s enough =
      recv_created-Locally path (writer.create path s.files) s refl enough

module _ {W : Type 0} (system : System W) (writer : Writer W)
    (local : IsLocalWriter system writer) where
  -- Where writing a file touches no file of another path, and a window has a block: whatever arrives
  -- and however sending ends, `_recv_file` returns, jumps, waits for a datagram or runs into undefined
  -- behaviour, and never goes on for ever; but for undefined behaviour, no file has changed then
  -- besides that of its path.
  pub recv_file-Ends :
      (path : Text) (s : Session W)
      → 0 < s.window_size
      → Ends
          (λ _ s'. IsLocal system writer path s s')
          (IsLocal system writer path s)
          ⊥
          (recv_file system writer path s)
  unfolding Locally
  recv_file-Ends path s positive =
      Ends-weaken (recv_file system writer path s)
        (recv_file-Locally system writer ⊥ local path s (inl positive)) (λ a t h. h.0) (λ t h. h)
        (λ e. e)
