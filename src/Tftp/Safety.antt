-- ===== src/Tftp/Safety.antt =====
-- What a client can do to the files by src/networking/tftp.
use file_share_server.Common.{
  ◌==◌, ◌≡◌, ◌≢◌, refl, sym, ◌∙◌, ap, if◌then◌else◌, Bool, true, false, inr, none, pos, int_eq,
  Outcome, done, fault, exited, arith,
}
use file_share_server.Database.{Text, System}
use file_share_server.Model.Support.{fit}
use file_share_server.Tftp.Send.{terminate, send_ack}
use file_share_server.Tftp.{
  rrq, wrq, load16, illegal_operation, access_violation, file_already_exists, Writer, Session,
  Ending, returned, jumped, blocked, faulted, endless, Transfer, next, lift, ◌>>=◌, ◌>>◌,
}
use file_share_server.Tftp.Send.{terminate, send_ack}
use file_share_server.Tftp.Transfer.{recv_file}
use file_share_server.Tftp.Client.{
  upload_path, handle_read, handle_write, serve_client, setjmp, handle_client,
}
use file_share_server.Tftp.Endings.{Ends, Ends-weaken, Ends-next, Calmly}
use file_share_server.Tftp.Sendings.{send-Calmly, terminate-Calmly}
use file_share_server.Tftp.Local.{IsLocalWriter, IsLocal, Locally}
use file_share_server.Tftp.Uploads.{recv_file-Locally}
use file_share_server.Tftp.Untouched.{
  Untouched, Calmly-Untouched, recv_rq-Untouched, handle_read-Calmly, Untouched-terminate,
}

module _ {W : Type 0} (system : System W) (writer : Writer W) where
  -- A file that is there keeps its content.
  pub record IsKept (s s' : Session W) : Type 0 where
    pub content :
        (path : Text)
        → system.access path s.files ≡ pos 0
        → system.fopen path s'.files ≡ system.fopen path s.files

  -- The function keeps the files that are there.
  unfoldable pub Keeps : {A : Type 0} → Session W → Ending W A → Type 0
  Keeps s ending = Ends (λ _ s'. IsKept s s') (IsKept s) (Unit {0}) ending

  IsKept-from : (s t u : Session W) → t.files ≡ s.files → IsKept t u → IsKept s u
  IsKept-from s t u same kept = record {
    content = λ path there.
        kept.content path (ap (system.access path) same ∙ there) ∙ ap (system.fopen path) same;
  }

  Untouched-Keeps :
      (A : Type 0) (s : Session W) (ending : Ending W A) → Untouched s ending → Keeps s ending
  unfolding Untouched Keeps
  Untouched-Keeps A s ending h =
      Ends-weaken ending h
        (λ a t same. record { content = λ path there. ap (system.fopen path) same.files })
        (λ t same. record { content = λ path there. ap (system.fopen path) same.files })
        (λ e. absurd e)

  -- Behind what changes no file.
  Keeps-next :
      (A B : Type 0) (s : Session W) (ending : Ending W A) (f : A → Session W → Ending W B)
      → Untouched s ending
      → ((a : A) (t : Session W) → Keeps t (f a t))
      → Keeps s (next ending f)
  unfolding Untouched Keeps
  Keeps-next A B s ending f h k =
      Ends-next _ _ _ ending f
        (Ends-weaken ending h (λ a t same. same)
          (λ t same. record { content = λ path there. ap (system.fopen path) same.files })
          (λ e. absurd e))
        (λ a t same.
          Ends-weaken (f a t) (k a t) (λ b u kept. IsKept-from s t u same.files kept)
            (λ u kept. IsKept-from s t u same.files kept) (λ e. e))

  Keeps-lift :
      (A B : Type 0) (s : Session W) (o : Outcome A) (f : A → Session W → Ending W B)
      → ((a : A) → (o ≡ done a) → Keeps s (f a s))
      → Keeps s (next (lift o s) f)
  unfolding Keeps Ends
  Keeps-lift A B s (done a) f h = h a refl
  Keeps-lift A B s fault f h = tt
  Keeps-lift A B s exited f h = tt

  Keeps-if :
      (A : Type 0) (b : Bool) (m k : Session W → Ending W A) (s : Session W)
      → (b ≡ true → Keeps s (m s))
      → (b ≡ false → Keeps s (k s))
      → Keeps s ((if b then m else k) s)
  Keeps-if A true m k s h h' = h refl
  Keeps-if A false m k s h h' = h' refl

  module _ (local : IsLocalWriter system writer) where
    -- What is there is not what is written.
    other_path :
        (other path : Text) (w : W)
        → int_eq (system.access path w) (pos 0) ≡ false
        → system.access other w ≡ pos 0
        → other ≢ path
    other_path other path w absent there e =
        let same : system.access path w ≡ pos 0 = sym (ap (λ p. system.access p w) e) ∙ there in
        ground (arith, same, absent)

    IsLocal-IsKept :
        (path : Text) (s t : Session W)
        → int_eq (system.access path s.files) (pos 0) ≡ false
        → IsLocal system writer path s t
        → IsKept s t
    IsLocal-IsKept path s t absent changed = record {
      content = λ other there. changed.others other (other_path other path s.files absent there);
    }

    -- The file that is written was not there.
    recv_file-Keeps :
        (path : Text) (s : Session W)
        → int_eq (system.access path s.files) (pos 0) ≡ false
        → Keeps s (recv_file system writer path s)
    unfolding Keeps Locally
    recv_file-Keeps path s absent =
        Ends-weaken (recv_file system writer path s)
          (recv_file-Locally system writer (Unit {0}) local path s (inr tt))
          (λ a t changed. IsLocal-IsKept path s t absent changed.0)
          (λ t changed. IsLocal-IsKept path s t absent changed) (λ e. tt)

    -- The acknowledgement before the blocks.
    begin_upload-Keeps :
        (path : Text) (s : Session W)
        → int_eq (system.access path s.files) (pos 0) ≡ false
        → Keeps s ((send_ack 0 >> recv_file system writer path) s)
    unfolding send_ack Keeps Calmly
    begin_upload-Keeps path s absent =
        Ends-next _ _ _ (send_ack 0 s) _
          (Ends-weaken (send_ack 0 s) (send-Calmly _ none s) (λ a t calm. calm.0.files)
            (λ t calm. record { content = λ other there. ap (system.fopen other) calm.files })
            (λ e. absurd e))
          (λ a t same.
            Ends-weaken (recv_file system writer path t)
              (recv_file-Keeps path t
                (ap (λ w. int_eq (system.access path w) (pos 0)) same ∙ absent))
              (λ b u kept. IsKept-from s t u same kept) (λ u kept. IsKept-from s t u same kept)
              (λ e. e))

    handle_write-Keeps :
        (file_name : Text) (s : Session W) → Keeps s (handle_write system writer file_name s)
    unfolding handle_write
    handle_write-Keeps file_name s =
        let upload : Text → Transfer W (Unit {0}) = λ full_path.
          if int_eq (system.access full_path s.files) (pos 0)
          then terminate file_already_exists none
          else send_ack 0 >> recv_file system writer full_path in
        Keeps-if _ (s.is_allow_upload == 0) (terminate access_violation none)
          (lift (fit 1024 (upload_path file_name)) >>= upload) s
          (λ e.
            Untouched-Keeps _ s _
              (Calmly-Untouched _ 0 s _ (terminate-Calmly _ 0 access_violation none s)))
          (λ e. Keeps-lift _ _ s (fit 1024 (upload_path file_name)) upload (λ full_path fits.
            Keeps-if _ (int_eq (system.access full_path s.files) (pos 0))
              (terminate file_already_exists none) (send_ack 0 >> recv_file system writer full_path)
              s
              (λ there.
                Untouched-Keeps _ s _
                  (Calmly-Untouched _ 0 s _ (terminate-Calmly _ 0 file_already_exists none s)))
              (λ absent. begin_upload-Keeps full_path s absent)))

    serve_client-Keeps : (s : Session W) → Keeps s (serve_client system writer s)
    unfolding serve_client
    serve_client-Keeps s = Keeps-next _ _ s _ _ (recv_rq-Untouched system writer s) (λ request t.
        let write : Transfer W (Unit {0}) = handle_write system writer request.1 in
        let refusal : Transfer W (Unit {0}) = terminate illegal_operation none in
        Keeps-if _ (request.0 == load16 rrq) (handle_read system writer request.1)
          (if request.0 == load16 wrq then write else refusal) t
          (λ e.
            Untouched-Keeps _ t _
              (Calmly-Untouched _ 0 t _ (handle_read-Calmly system writer request.1 t)))
          (λ e.
            Keeps-if _ (request.0 == load16 wrq) write refusal t
              (λ e'. handle_write-Keeps request.1 t)
              (λ e'. Untouched-Keeps _ t _ (Untouched-terminate _ t))))

    setjmp-Keeps :
        (s : Session W) (ending : Ending W (Unit {0}))
        → Keeps s ending
        → Keeps s (setjmp system writer ending)
    unfolding Keeps Ends
    setjmp-Keeps s (returned a t) h = h
    setjmp-Keeps s (jumped t) h = h
    setjmp-Keeps s (blocked t) h = h
    setjmp-Keeps s faulted h = h
    setjmp-Keeps s endless h = h

    -- Where writing a file touches no file of another path: whatever request the handler holds,
    -- whatever arrives and however sending ends, every file that was there has the same content where
    -- `handle_client` has returned or waits for a datagram.
    pub handle_client-IsKept :
        (s : Session W)
        → Ends (λ _ s'. IsKept s s') (IsKept s) (Unit {0}) (handle_client system writer s)
    unfolding handle_client Keeps
    handle_client-IsKept s = setjmp-Keeps s (serve_client system writer s) (serve_client-Keeps s)
