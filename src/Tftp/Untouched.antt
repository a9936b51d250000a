-- ===== src/Tftp/Untouched.antt =====
-- src/networking/tftp/tftp_client_handle.c: what changes no file.
use file_share_server.Common.{
  ℕ, ◌+◌, ◌==◌, ltb, not, ◌≡◌, refl, ◌∙◌, if◌then◌else◌, Bool, true, false, Option, none, some,
  List, [], ◌∷◌, length, drop, ℤ, pos, negsuc, int_eq, Outcome,
}
use file_share_server.Base64.{codes}
use file_share_server.Database.{Text, System}
use file_share_server.Model.Support.{c_string, fit}
use file_share_server.Tftp.{
  rrq, wrq, load16, illegal_operation, file_not_found, PacketBuffer, Writer, Session, Ending,
  returned, Transfer, next, lift, return, ◌>>=◌,
}
use file_share_server.Tftp.Send.{terminate}
use file_share_server.Tftp.Receive.{recv_ack}
use file_share_server.Tftp.Request.{TftpOption, process_option}
use file_share_server.Tftp.Options.{
  send_oack, set_block_size, set_window_size, is_option, map_option, map_options,
}
use file_share_server.Tftp.Client.{
  upload_path, recv_options, check_mode, check_options, read_rq, recv_rq, read_opened, handle_read,
}
use file_share_server.Tftp.Endings.{
  Ends, IsCalm, Ends-weaken, Ends-next, Ends-lift, Calmly, Calmly-lift, Calmly-fault,
}
use file_share_server.Tftp.Sendings.{send-Calmly, terminate-Calmly}
use file_share_server.Tftp.Receptions.{recv_packet_mul-Calmly, recv_ack-Calmly}
use file_share_server.Tftp.Arrivals.{Calmly-if}
use file_share_server.Tftp.Downloads.{send_file-Calmly}

-- No file has changed, nor whether uploads are allowed.
pub record IsUntouched {W : Type 0} (s s' : Session W) : Type 0 where
  pub files : s'.files ≡ s.files
  pub is_allow_upload : s'.is_allow_upload ≡ s.is_allow_upload

-- The function comes to an end and leaves both as they were.
unfoldable pub Untouched : {W A : Type 0} → Session W → Ending W A → Type 0
Untouched s ending = Ends (λ _ s'. IsUntouched s s') (IsUntouched s) ⊥ ending

module _ {W : Type 0} where
  IsCalm-IsUntouched : (s s' : Session W) → IsCalm s s' → IsUntouched s s'
  IsCalm-IsUntouched s s' calm = record {
    files = calm.files;
    is_allow_upload = calm.is_allow_upload;
  }

  pub IsUntouched-trans : (s t u : Session W) → IsUntouched s t → IsUntouched t u → IsUntouched s u
  IsUntouched-trans s t u h k = record {
    files = k.files ∙ h.files;
    is_allow_upload = k.is_allow_upload ∙ h.is_allow_upload;
  }

  pub Calmly-Untouched :
      (A : Type 0) (n : ℕ) (s : Session W) (ending : Ending W A)
      → Calmly n s ending
      → Untouched s ending
  unfolding Untouched Calmly
  Calmly-Untouched A n s ending h =
      Ends-weaken ending h (λ a t calm. IsCalm-IsUntouched s t calm.0)
        (λ t calm. IsCalm-IsUntouched s t calm) (λ e. e)

  pub Untouched-next :
      (A B : Type 0) (s : Session W) (ending : Ending W A) (f : A → Session W → Ending W B)
      → Untouched s ending
      → ((a : A) (t : Session W) → Untouched t (f a t))
      → Untouched s (next ending f)
  unfolding Untouched
  Untouched-next A B s ending f h k = Ends-next _ _ _ ending f h (λ a t same.
      Ends-weaken (f a t) (k a t) (λ b u same'. IsUntouched-trans s t u same same')
        (λ u same'. IsUntouched-trans s t u same same') (λ e. e))

  pub Untouched-lift :
      (A B : Type 0) (s : Session W) (o : Outcome A) (f : A → Session W → Ending W B)
      → ((a : A) → Untouched s (f a s))
      → Untouched s (next (lift o s) f)
  unfolding Untouched
  Untouched-lift A B s o f h = Ends-lift _ _ _ o s f h

  pub Untouched-if :
      (A : Type 0) (b : Bool) (m k : Session W → Ending W A) (s : Session W)
      → Untouched s (m s)
      → Untouched s (k s)
      → Untouched s ((if b then m else k) s)
  Untouched-if A true m k s h h' = h
  Untouched-if A false m k s h h' = h'

  pub Untouched-returned :
      (A : Type 0) (a : A) (s t : Session W)
      → t.files ≡ s.files
      → t.is_allow_upload ≡ s.is_allow_upload
      → Untouched s (returned a t)
  unfolding Untouched Ends
  Untouched-returned A a s t e e' = record { files = e; is_allow_upload = e' }

  pub Untouched-terminate :
      (A : Type 0) (s : Session W) → Untouched s (terminate {A = A} illegal_operation none s)
  Untouched-terminate A s = Calmly-Untouched A 0 s _ (terminate-Calmly A 0 illegal_operation none s)

  set_block_size-Untouched : (n : ℤ) (s : Session W) → Untouched s (set_block_size n s)
  set_block_size-Untouched (negsuc n) s = Untouched-terminate _ s
  set_block_size-Untouched (pos n) s =
      Untouched-if _ (ltb 65464 n) (terminate illegal_operation none)
        (λ t. returned tt (record t { block_size = n })) s (Untouched-terminate _ s)
        (Untouched-returned _ tt s (record s { block_size = n }) refl refl)

  set_window_size-Untouched : (n : ℤ) (s : Session W) → Untouched s (set_window_size n s)
  set_window_size-Untouched (negsuc n) s = Untouched-terminate _ s
  set_window_size-Untouched (pos n) s =
      Untouched-if _ (ltb 255 n) (terminate illegal_operation none)
        (λ t. returned tt (record t { window_size = n })) s (Untouched-terminate _ s)
        (Untouched-returned _ tt s (record s { window_size = n }) refl refl)

module _ {W : Type 0} (system : System W) where
  map_option-Untouched :
      (option : TftpOption) (s : Session W) → Untouched s (map_option system option s)
  map_option-Untouched option s =
      Untouched-next _ _ s _ _
        (Untouched-if _ (is_option system option (codes "blksize"))
          (set_block_size (system.atoi option.value)) (return tt) s
          (set_block_size-Untouched (system.atoi option.value) s)
          (Untouched-returned _ tt s s refl refl))
        (λ a t.
          Untouched-if _ (is_option system option (codes "windowsize"))
            (set_window_size (system.atoi option.value)) (return tt) t
            (set_window_size-Untouched (system.atoi option.value) t)
            (Untouched-returned _ tt t t refl refl))

  map_options-Untouched :
      (options : List TftpOption) (s : Session W) → Untouched s (map_options system options s)
  unfolding map_options
  map_options-Untouched [] s = Untouched-returned _ tt s s refl refl
  map_options-Untouched (option ∷ options) s =
      Untouched-next _ _ s _ _ (map_option-Untouched option s)
        (λ a t. map_options-Untouched options t)

module _ {W : Type 0} (system : System W) (writer : Writer W) where
  recv_options-Untouched :
      (opcode : ℕ) (options : List TftpOption) (s : Session W)
      → Untouched s (recv_options system writer opcode options s)
  unfolding send_oack
  recv_options-Untouched opcode [] s = Untouched-returned _ tt s s refl refl
  recv_options-Untouched opcode (option ∷ options) s =
      let answer : Transfer W (Unit {0}) = recv_ack 1 >>= λ _. return tt in
      Untouched-next _ _ s _ _ (map_options-Untouched system (option ∷ options) s) (λ a t.
        Untouched-next _ _ t _ _ (Calmly-Untouched _ 0 t _ (send-Calmly _ none t)) (λ b u.
          Untouched-if _ (opcode == load16 rrq) answer (return tt) u
            (Untouched-next _ _ u _ _ (Calmly-Untouched _ 1 u _ (recv_ack-Calmly 1 u))
              (λ c v. Untouched-returned _ tt v v refl refl))
            (Untouched-returned _ tt u u refl refl)))

  check_options-Untouched :
      (packet_buffer : PacketBuffer) (current_len : ℕ) (memory : List ℕ) (s : Session W)
      → Untouched s (check_options system writer packet_buffer current_len memory s)
  check_options-Untouched packet_buffer current_len memory s =
      let answer : Transfer W (Unit {0}) =
        lift (process_option memory) >>= recv_options system writer packet_buffer.opcode in
      Untouched-if _ (current_len == packet_buffer.data_len) (return tt) answer s
        (Untouched-returned _ tt s s refl refl)
        (Untouched-lift _ _ s (process_option memory) _
          (λ options. recv_options-Untouched packet_buffer.opcode options s))

  check_mode-Untouched :
      (file_mode : Text) (s : Session W) → Untouched s (check_mode system writer file_mode s)
  check_mode-Untouched file_mode s =
      Untouched-if _ (int_eq (system.strcmp file_mode (codes "octet")) (pos 0)) (return tt)
        (terminate illegal_operation none) s (Untouched-returned _ tt s s refl refl)
        (Untouched-terminate _ s)

  read_rq-Untouched :
      (received : Option PacketBuffer) (s : Session W)
      → Untouched s (read_rq system writer received s)
  read_rq-Untouched none s = Calmly-Untouched _ 0 s _ (Calmly-fault _ 0 s)
  read_rq-Untouched (some packet_buffer) s =
      Untouched-lift _ _ s (fit 100 (c_string packet_buffer.bytes)) _ (λ file_name.
        let modes = drop (length file_name + 1) packet_buffer.bytes in
        Untouched-lift _ _ s (fit 10 (c_string modes)) _ (λ file_mode.
          Untouched-next _ _ s _ _ (check_mode-Untouched file_mode s) (λ a t.
            Untouched-next _ _ t _ _
              (check_options-Untouched packet_buffer (2 + length file_mode + length file_name)
                (drop (length file_mode + 1) modes) t)
              (λ b u. Untouched-returned _ (packet_buffer.opcode, file_name) u u refl refl))))

  pub recv_rq-Untouched : (s : Session W) → Untouched s (recv_rq system writer s)
  unfolding recv_rq
  recv_rq-Untouched s =
      Untouched-next _ _ s _ _
        (Calmly-Untouched _ 1 s _ (recv_packet_mul-Calmly (load16 rrq ∷ load16 wrq ∷ []) 2 1 s))
        (λ received t. read_rq-Untouched received t)

  read_opened-Calmly :
      (full_path : Text) (opened : Option (List ℕ)) (s : Session W)
      → Calmly 0 s (read_opened system writer full_path opened s)
  read_opened-Calmly full_path none s = terminate-Calmly _ 0 file_not_found none s
  read_opened-Calmly full_path (some bytes) s = send_file-Calmly system full_path (length bytes) s

  pub handle_read-Calmly :
      (file_name : Text) (s : Session W) → Calmly 0 s (handle_read system writer file_name s)
  unfolding handle_read
  handle_read-Calmly file_name s = Calmly-lift 0 s (fit 128 (upload_path file_name)) _ (λ full_path.
      let absent = not (int_eq (system.access full_path s.files) (pos 0)) in
      Calmly-if _ 0 absent (terminate file_not_found none)
        (read_opened system writer full_path (system.fopen full_path s.files)) s
        (λ e. terminate-Calmly _ 0 file_not_found none s)
        (λ e. read_opened-Calmly full_path (system.fopen full_path s.files) s))
