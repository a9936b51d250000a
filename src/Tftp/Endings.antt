-- ===== src/Tftp/Endings.antt =====
-- How the functions of src/networking/tftp/tftp_client_handle.c end, and what they keep.
use file_share_server.Common.{
  ℕ, ◌+◌, ◌≤◌, ◌≡◌, refl, ◌∙◌, Option, none, some, length, Outcome, done, fault, exited, arith,
}
use file_share_server.Tftp.{
  PacketBuffer, Session, Ending, returned, jumped, blocked, faulted, endless, next, lift,
}

module _ {W A : Type 0} where
  -- What holds where the function returns; where it jumps or waits; and where it does not end.
  unfoldable pub Ends :
      (A → Session W → Type 0) → (Session W → Type 0) → Type 0 → Ending W A → Type 0
  Ends Q P E (returned a s) = Q a s
  Ends Q P E (jumped s) = P s
  Ends Q P E (blocked s) = P s
  Ends Q P E faulted = Unit {0}
  Ends Q P E endless = E

  pub Ends-weaken :
      {Q Q' : A → Session W → Type 0} {P P' : Session W → Type 0} {E E' : Type 0}
      (ending : Ending W A)
      → Ends Q P E ending
      → ((a : A) (s : Session W) → Q a s → Q' a s)
      → ((s : Session W) → P s → P' s)
      → (E → E')
      → Ends Q' P' E' ending
  unfolding Ends
  Ends-weaken (returned a s) h q p e = q a s h
  Ends-weaken (jumped s) h q p e = p s h
  Ends-weaken (blocked s) h q p e = p s h
  Ends-weaken faulted h q p e = tt
  Ends-weaken endless h q p e = e h

module _ {W A B : Type 0} where
  pub Ends-next :
      {Q : A → Session W → Type 0} (Q' : B → Session W → Type 0) (P : Session W → Type 0)
      (E : Type 0) (ending : Ending W A) (f : A → Session W → Ending W B)
      → Ends Q P E ending
      → ((a : A) (s : Session W) → Q a s → Ends Q' P E (f a s))
      → Ends Q' P E (next ending f)
  unfolding Ends
  Ends-next Q' P E (returned a s) f h k = k a s h
  Ends-next Q' P E (jumped s) f h k = h
  Ends-next Q' P E (blocked s) f h k = h
  Ends-next Q' P E faulted f h k = tt
  Ends-next Q' P E endless f h k = h

  pub Ends-lift :
      (Q : B → Session W → Type 0) (P : Session W → Type 0) (E : Type 0) (o : Outcome A)
      (s : Session W) (f : A → Session W → Ending W B)
      → ((a : A) → Ends Q P E (f a s))
      → Ends Q P E (next (lift o s) f)
  unfolding Ends
  Ends-lift Q P E (done a) s f k = k a
  Ends-lift Q P E fault s f k = tt
  Ends-lift Q P E exited s f k = tt

-- What can still arrive.
abbrev pub waiting_buffer : Option PacketBuffer → ℕ
waiting_buffer none = 0
waiting_buffer (some packet_buffer) = 1

module _ {W : Type 0} where
  abbrev pub arrivals : Session W → ℕ
  arrivals s = length s.inbox + waiting_buffer s.packet_buffer

  -- The files are the same and so are the sizes; what has arrived has not come back.
  pub record IsCalm (s s' : Session W) : Type 0 where
    pub files : s'.files ≡ s.files
    pub left : arrivals s' ≤ arrivals s
    pub window_size : s'.window_size ≡ s.window_size
    pub block_size : s'.block_size ≡ s.block_size
    pub is_allow_upload : s'.is_allow_upload ≡ s.is_allow_upload

  pub IsCalm-refl : (s : Session W) → IsCalm s s
  IsCalm-refl s = record {
    files = refl;
    left = omega arith;
    window_size = refl;
    block_size = refl;
    is_allow_upload = refl;
  }

  pub IsCalm-trans : (s t u : Session W) → IsCalm s t → IsCalm t u → IsCalm s u
  IsCalm-trans s t u h k = record {
    files = k.files ∙ h.files;
    left = omega (arith, h.left, k.left);
    window_size = k.window_size ∙ h.window_size;
    block_size = k.block_size ∙ h.block_size;
    is_allow_upload = k.is_allow_upload ∙ h.is_allow_upload;
  }

  -- The function ends calmly, and takes `n` arrivals at least where it returns.
  unfoldable pub Calmly : {A : Type 0} → ℕ → Session W → Ending W A → Type 0
  Calmly n s ending =
      Ends (λ _ s'. IsCalm s s' × (arrivals s' + n ≤ arrivals s)) (IsCalm s) (⊥) ending

module _ {W A B : Type 0} where
  pub Calmly-next :
      (m k n : ℕ) (s : Session W) (ending : Ending W A) (f : A → Session W → Ending W B)
      → Calmly m s ending
      → ((a : A) (t : Session W) → arrivals t + m ≤ arrivals s → Calmly k t (f a t))
      → n ≤ m + k
      → Calmly n s (next ending f)
  unfolding Calmly
  Calmly-next m k n s ending f h then_calm few = Ends-next _ _ _ ending f h (λ a t calm.
      Ends-weaken (f a t) (then_calm a t calm.1)
        (λ b u calm'. (IsCalm-trans s t u calm.0 calm'.0, omega (arith, calm.1, calm'.1)))
        (λ u calm'. IsCalm-trans s t u calm.0 calm') (λ e. e))

  pub Calmly-lift :
      (n : ℕ) (s : Session W) (o : Outcome A) (f : A → Session W → Ending W B)
      → ((a : A) → Calmly n s (f a s))
      → Calmly n s (next (lift o s) f)
  unfolding Calmly
  Calmly-lift n s o f h = Ends-lift _ _ _ o s f h

module _ {W A : Type 0} where
  pub Calmly-return : (a : A) (s : Session W) → Calmly 0 s (returned a s)
  unfolding Calmly Ends
  Calmly-return a s = (IsCalm-refl s, omega arith)

module _ {W : Type 0} where
  pub Calmly-jumped : (A : Type 0) (n : ℕ) (s : Session W) → Calmly {A = A} n s (jumped s)
  unfolding Calmly Ends
  Calmly-jumped A n s = IsCalm-refl s

  pub Calmly-blocked : (A : Type 0) (n : ℕ) (s : Session W) → Calmly {A = A} n s (blocked s)
  unfolding Calmly Ends
  Calmly-blocked A n s = IsCalm-refl s

  pub Calmly-fault : (A : Type 0) (n : ℕ) (s : Session W) → Calmly {A = A} n s faulted
  unfolding Calmly Ends
  Calmly-fault A n s = tt

  pub Calmly-put :
      {A : Type 0} (a : A) (s s' : Session W) → IsCalm s s' → Calmly 0 s (returned a s')
  unfolding Calmly Ends
  Calmly-put a s s' calm = (calm, omega (arith, calm.left))

  -- A change of what is not looked at.
  pub Calmly-silent :
      {A : Type 0} (a : A) (s s' : Session W)
      → s'.files ≡ s.files
      → s'.inbox ≡ s.inbox
      → s'.packet_buffer ≡ s.packet_buffer
      → s'.window_size ≡ s.window_size
      → s'.block_size ≡ s.block_size
      → s'.is_allow_upload ≡ s.is_allow_upload
      → Calmly 0 s (returned a s')
  Calmly-silent a s s' f i p w b u = Calmly-put a s s' (record {
    files = f;
    left = rw (i, p) (omega arith);
    window_size = w;
    block_size = b;
    is_allow_upload = u;
  })

  pub Calmly-from :
      (A : Type 0) (m k n : ℕ) (s t : Session W) (ending : Ending W A)
      → IsCalm s t
      → arrivals t + m ≤ arrivals s
      → Calmly k t ending
      → n ≤ m + k
      → Calmly n s ending
  unfolding Calmly
  Calmly-from A m k n s t ending calm fewer h few =
      Ends-weaken ending h
        (λ b u calm'. (IsCalm-trans s t u calm calm'.0, omega (arith, fewer, calm'.1)))
        (λ u calm'. IsCalm-trans s t u calm calm') (λ e. e)

  pub Calmly-fewer :
      (A : Type 0) (m n : ℕ) (s : Session W) (ending : Ending W A)
      → Calmly m s ending
      → n ≤ m
      → Calmly n s ending
  Calmly-fewer A m n s ending h few =
      Calmly-from A 0 m n s s ending (IsCalm-refl s) (omega arith) h (omega arith)
