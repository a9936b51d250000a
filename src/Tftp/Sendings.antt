-- ===== src/Tftp/Sendings.antt =====
-- What the functions of src/networking/tftp/tftp_client_handle.c that send keep.
use file_share_server.Common.{
  ℕ, zero, suc, ◌+◌, ltb, refl, Bool-cases, inl, inr, Option, none, List, [], ◌∷◌, length, arith,
}
use file_share_server.Checksum.Packet.{with_checksum}
use file_share_server.Tftp.{
  TftpErrorCodes, SockaddrIn, Sending, sent, again, refused, Session, returned, Transfer,
}
use file_share_server.Tftp.Send.{
  max_retries, address_or, sendto_ending, sendto, after_sendto, keep_packet, send_loop, send,
  send_err, error_occurred, terminate,
}
use file_share_server.Tftp.Endings.{
  Calmly, Calmly-next, Calmly-lift, Calmly-return, Calmly-jumped, Calmly-fault, Calmly-silent,
}

module _ {W : Type 0} where
  pub sendto_ending-Calmly :
      (sendings : List Sending) (address : SockaddrIn) (buffer : List ℕ) (s : Session W)
      → Calmly 0 s (sendto_ending sendings address buffer s)
  sendto_ending-Calmly [] address buffer s = Calmly-silent sent s _ refl refl refl refl refl refl
  sendto_ending-Calmly (sent ∷ rest) address buffer s =
      Calmly-silent sent s _ refl refl refl refl refl refl
  sendto_ending-Calmly (again ∷ rest) address buffer s =
      Calmly-silent again s _ refl refl refl refl refl refl
  sendto_ending-Calmly (refused ∷ rest) address buffer s =
      Calmly-silent refused s _ refl refl refl refl refl refl

  after_sendto-Calmly :
      (retry : Transfer W (Unit {0})) (sending : Sending) (s : Session W)
      → Calmly 0 s (retry s)
      → Calmly 0 s (after_sendto retry sending s)
  after_sendto-Calmly retry sent s h = Calmly-return tt s
  after_sendto-Calmly retry again s h = h
  after_sendto-Calmly retry refused s h = Calmly-jumped _ 0 s

  send_loop-Calmly :
      (tries : ℕ) (address : SockaddrIn) (buffer : List ℕ) (s : Session W)
      → Calmly 0 s (send_loop tries address buffer s)
  unfolding send_loop sendto
  send_loop-Calmly zero address buffer s = Calmly-jumped _ 0 s
  send_loop-Calmly (suc tries) address buffer s =
      Calmly-next 0 0 0 s (sendto address buffer s) _
        (sendto_ending-Calmly s.sendings address buffer s)
        (λ sending t few.
          after_sendto-Calmly (send_loop tries address buffer) sending t
            (send_loop-Calmly tries address buffer t))
        (omega arith)

  pub send-Calmly :
      (bytes : List ℕ) (addr : Option SockaddrIn) (s : Session W) → Calmly 0 s (send bytes addr s)
  unfolding send
  send-Calmly bytes addr s =
      let kept = keep_packet (address_or addr s.address) bytes s in
      Calmly-lift 0 s (with_checksum bytes) _ (λ buffer.
        elim (Bool-cases (ltb 65532 (length bytes))) [
          | inl e ↦ rw e (Calmly-fault _ 0 s)
          | inr e ↦ rw e (
              Calmly-next 0 0 0 s (returned tt kept) _
                (Calmly-silent tt s kept refl refl refl refl refl refl)
                (λ a t few. send_loop-Calmly (max_retries + 1) (address_or addr s.address) buffer t)
                (omega arith))
        ])

  pub terminate-Calmly :
      (A : Type 0) (n : ℕ) (error_code : TftpErrorCodes) (message : Option (List ℕ)) (s : Session W)
      → Calmly n s (terminate {A = A} error_code message s)
  unfolding terminate error_occurred send_err
  terminate-Calmly A n error_code message s =
      Calmly-next 0 n n s _ _ (send-Calmly _ none s) (λ a t few. Calmly-jumped A n t) (omega arith)
  -- Where a session comes calmly from another, with `m` arrivals less.
