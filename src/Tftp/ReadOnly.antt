-- ===== src/Tftp/ReadOnly.antt =====
-- src/networking/tftp: a handler that takes no uploads.
use file_share_server.Common.{◌≡◌, ◌∙◌, ◌==◌, if◌then◌else◌, true, none, arith}
use file_share_server.Database.{Text, System}
use file_share_server.Tftp.{
  rrq, wrq, load16, access_violation, illegal_operation, Writer, Session, Ending, returned, jumped,
  blocked, faulted, endless, Transfer, next,
}
use file_share_server.Tftp.Send.{terminate}
use file_share_server.Tftp.Client.{handle_read, handle_write, serve_client, setjmp, handle_client}
use file_share_server.Tftp.Endings.{Ends, Ends-weaken, Ends-next}
use file_share_server.Tftp.Sendings.{terminate-Calmly}
use file_share_server.Tftp.Untouched.{
  IsUntouched-trans, Untouched, Calmly-Untouched, Untouched-if, recv_rq-Untouched,
  handle_read-Calmly, Untouched-terminate,
}

module _ {W : Type 0} (system : System W) (writer : Writer W) where
  -- Behind what leaves uploads as they are, they are still not allowed.
  read_only_next :
      (A B : Type 0) (s : Session W) (ending : Ending W A) (f : A → Session W → Ending W B)
      → s.is_allow_upload ≡ 0
      → Untouched s ending
      → ((a : A) (t : Session W) → t.is_allow_upload ≡ 0 → Untouched t (f a t))
      → Untouched s (next ending f)
  unfolding Untouched
  read_only_next A B s ending f e h k = Ends-next _ _ _ ending f h (λ a t same.
      Ends-weaken (f a t) (k a t (same.is_allow_upload ∙ e))
        (λ b u same'. IsUntouched-trans s t u same same')
        (λ u same'. IsUntouched-trans s t u same same') (λ e. e))

  handle_write-Untouched :
      (file_name : Text) (s : Session W)
      → s.is_allow_upload ≡ 0
      → Untouched s (handle_write system writer file_name s)
  unfolding handle_write
  handle_write-Untouched file_name s e =
      let refused : (s.is_allow_upload == 0) ≡ true = ground (arith, e) in
      rw refused (Calmly-Untouched _ 0 s _ (terminate-Calmly _ 0 access_violation none s))

  serve_client-Untouched :
      (s : Session W) → s.is_allow_upload ≡ 0 → Untouched s (serve_client system writer s)
  unfolding serve_client
  serve_client-Untouched s e =
      read_only_next _ _ s _ _ e (recv_rq-Untouched system writer s) (λ request t e'.
        let write : Transfer W (Unit {0}) = handle_write system writer request.1 in
        let refusal : Transfer W (Unit {0}) = terminate illegal_operation none in
        Untouched-if _ (request.0 == load16 rrq) (handle_read system writer request.1)
          (if request.0 == load16 wrq then write else refusal) t
          (Calmly-Untouched _ 0 t _ (handle_read-Calmly system writer request.1 t))
          (Untouched-if _ (request.0 == load16 wrq) write refusal t
            (handle_write-Untouched request.1 t e') (Untouched-terminate _ t)))

  setjmp-Untouched :
      (s : Session W) (ending : Ending W (Unit {0}))
      → Untouched s ending
      → Untouched s (setjmp system writer ending)
  unfolding Untouched Ends
  setjmp-Untouched s (returned a t) h = h
  setjmp-Untouched s (jumped t) h = h
  setjmp-Untouched s (blocked t) h = h
  setjmp-Untouched s faulted h = h
  setjmp-Untouched s endless h = h

  -- Where uploads are not allowed: whatever request the handler holds, whatever arrives and however
  -- sending ends, `handle_client` returns, waits for a datagram or runs into undefined behaviour, and
  -- never goes on for ever; but for undefined behaviour, all files are then as they were.
  pub handle_client-Ends :
      (s : Session W)
      → s.is_allow_upload ≡ 0
      → Ends
          (λ _ s'. s'.files ≡ s.files)
          (λ s'. s'.files ≡ s.files)
          (⊥)
          (handle_client system writer s)
  unfolding handle_client Untouched
  handle_client-Ends s e =
      Ends-weaken _ (setjmp-Untouched s (serve_client system writer s) (serve_client-Untouched s e))
        (λ _ t same. same.files) (λ t same. same.files) (λ e. e)
