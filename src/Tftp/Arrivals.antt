-- ===== src/Tftp/Arrivals.antt =====
-- What `_recv` of src/networking/tftp/tftp_client_handle.c keeps and takes.
use file_share_server.Common.{
  ℕ, zero, suc, ◌<◌, ◌==◌, ltb, ◌≡◌, refl, ap, if◌then◌else◌, Bool, true, false, Option, none, some,
  List, [], ◌∷◌, length, arith,
}
use file_share_server.Tftp.{
  SockaddrIn, Arrival, arrives, times_out, fails, PacketBuffer, LastPacket, Session, Ending,
  Transfer, return,
}
use file_share_server.Tftp.Send.{max_retries, resend, resend_packet, resend_last_packet}
use file_share_server.Tftp.Receive.{read_datagram, recv_by, retry_with, recv_retries, recv_from}
use file_share_server.Tftp.Endings.{
  Calmly, Calmly-next, Calmly-return, Calmly-blocked, Calmly-fault, Calmly-from, Calmly-fewer,
  waiting_buffer,
}
use file_share_server.Tftp.Sendings.{send-Calmly}

pub few_waiting : (packet_buffer : Option PacketBuffer) → waiting_buffer packet_buffer < 2
few_waiting none = omega arith
few_waiting (some packet_buffer) = omega arith

module _ {W : Type 0} where
  -- The choice between two ends.
  pub Calmly-if :
      (A : Type 0) (n : ℕ) (b : Bool) (m k : Session W → Ending W A) (s : Session W)
      → (b ≡ true → Calmly n s (m s))
      → (b ≡ false → Calmly n s (k s))
      → Calmly n s ((if b then m else k) s)
  Calmly-if A n true m k s h h' = h refl
  Calmly-if A n false m k s h h' = h' refl

  pub Calmly-choice :
      (A : Type 0) (n : ℕ) (b : Bool) (x y : Ending W A) (s : Session W)
      → (b ≡ true → Calmly n s x)
      → (b ≡ false → Calmly n s y)
      → Calmly n s (if b then x else y)
  Calmly-choice A n true x y s h h' = h refl
  Calmly-choice A n false x y s h h' = h' refl

  abbrev taken : List Arrival → Session W → Session W
  taken rest s = record s { inbox = rest }

  -- One arrival is taken, and what follows ends calmly.
  Calmly-taken :
      (A : Type 0) (arrival : Arrival) (rest : List Arrival) (n : ℕ) (s : Session W)
      (ending : Ending W A)
      → s.inbox ≡ arrival ∷ rest
      → Calmly n (taken rest s) ending
      → Calmly (suc n) s ending
  Calmly-taken A arrival rest n s ending e h =
      let fewer : length s.inbox ≡ suc (length rest) = ap length e in
      Calmly-from A 1 n (suc n) s (taken rest s) ending
        (record {
          files = refl;
          left = omega arith;
          window_size = refl;
          block_size = refl;
          is_allow_upload = refl;
        })
        (omega arith) h (omega arith)

  pub resend-Calmly :
      (bytes : List ℕ) (data_len : Option ℕ) (s : Session W) → Calmly 0 s (resend bytes data_len s)
  resend-Calmly bytes none s = Calmly-fault _ 0 s
  resend-Calmly bytes (some data_len) s = send-Calmly _ none s

  pub resend_packet-Calmly :
      (packet : Option LastPacket) (s : Session W) → Calmly 0 s (resend_packet packet s)
  resend_packet-Calmly none s = Calmly-fault _ 0 s
  resend_packet-Calmly (some packet) s = resend-Calmly packet.bytes packet.data_len s

  pub read_datagram-Calmly :
      (address : SockaddrIn) (datagram : List ℕ) (s : Session W)
      → Calmly 0 s (read_datagram address datagram s)
  read_datagram-Calmly address datagram s =
      Calmly-if _ 0 (ltb (length datagram) 4) _ _ s (λ e. Calmly-fault _ 0 s)
        (λ e. Calmly-return _ s)

  pub recv_by-Calmly :
      (retry : Transfer W (Option PacketBuffer)) (inbox : List Arrival) (s : Session W)
      → s.inbox ≡ inbox
      → ((t : Session W) → Calmly 0 t (retry t))
      → Calmly 1 s (recv_by retry inbox s)
  recv_by-Calmly retry [] s e h = Calmly-blocked _ 1 s
  recv_by-Calmly retry (arrives address datagram ∷ rest) s e h =
      Calmly-taken _ _ rest 0 s _ e (read_datagram-Calmly address datagram (taken rest s))
  recv_by-Calmly retry (times_out ∷ rest) s e h = Calmly-taken _ _ rest 0 s _ e (h (taken rest s))
  recv_by-Calmly retry (fails ∷ rest) s e h =
      Calmly-taken _ _ rest 0 s _ e (Calmly-return none (taken rest s))

  pub retry_with-Calmly :
      (tries : ℕ) (again : Transfer W (Option PacketBuffer)) (s : Session W)
      → ((t : Session W) → Calmly 0 t (again t))
      → Calmly 0 s (retry_with tries again s)
  unfolding resend_last_packet
  retry_with-Calmly zero again s h = h s
  retry_with-Calmly (suc tries) again s h =
      Calmly-next 0 0 0 s _ _ (resend_packet-Calmly s.last_packet s) (λ a t few. h t) (omega arith)

  pub recv_retries-Calmly-suc :
      (tries : ℕ) (s : Session W)
      → ((t : Session W) → Calmly 0 t (recv_retries tries t))
      → Calmly 1 s (recv_retries (suc tries) s)
  unfolding recv_retries
  recv_retries-Calmly-suc tries s h =
      recv_by-Calmly (retry_with tries (recv_retries tries)) s.inbox s refl
        (λ t. retry_with-Calmly tries (recv_retries tries) t h)

  pub recv_retries-Calmly : (tries : ℕ) (s : Session W) → Calmly 0 s (recv_retries tries s)
  unfolding recv_retries
  recv_retries-Calmly zero s = Calmly-return none s
  recv_retries-Calmly (suc tries) s =
      Calmly-fewer _ 1 0 s _ (recv_retries-Calmly-suc tries s (recv_retries-Calmly tries))
        (omega arith)

  pub recv_from-Calmly :
      (packet_buffer : Option PacketBuffer) (handle_timeout : ℕ) (s : Session W)
      → s.packet_buffer ≡ packet_buffer
      → Calmly 1 s (recv_from packet_buffer handle_timeout s)
  recv_from-Calmly (some packet_buffer) handle_timeout s e =
      let held : waiting_buffer s.packet_buffer ≡ 1 = ap waiting_buffer e in
      Calmly-from _ 1 0 1 s (record s { packet_buffer = none }) _
        (record {
          files = refl;
          left = omega arith;
          window_size = refl;
          block_size = refl;
          is_allow_upload = refl;
        })
        (omega arith) (Calmly-return _ _) (omega arith)
  recv_from-Calmly none handle_timeout s e =
      Calmly-choice _ 1 (handle_timeout == 0) _ _ s
        (λ h. recv_by-Calmly (return none) s.inbox s refl (λ t. Calmly-return none t))
        (λ h. recv_retries-Calmly-suc max_retries s (recv_retries-Calmly max_retries))
