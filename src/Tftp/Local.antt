-- ===== src/Tftp/Local.antt =====
-- src/networking/tftp/tftp_client_handle.c: the files that its functions change.
use file_share_server.Common.{
  ℕ, ◌+◌, ◌≤◌, ◌≡◌, ◌≢◌, refl, ◌∙◌, ap, if◌then◌else◌, Bool, true, false, some, List, Outcome,
  arith,
}
use file_share_server.Database.{Text, System}
use file_share_server.Tftp.{Writer, Session, Ending, returned, next, lift}
use file_share_server.Tftp.Endings.{
  Ends, Ends-weaken, Ends-next, Ends-lift, Calmly, IsCalm, arrivals,
}

module _ {W : Type 0} (system : System W) (writer : Writer W) where
  -- What is created, written or removed is the file of that path.
  pub record IsLocalWriter : Type 0 where
    pub create_others :
        (path other : Text) (w w' : W)
        → writer.create path w ≡ some w'
        → other ≢ path
        → system.fopen other w' ≡ system.fopen other w
    pub fwrite_others :
        (path other : Text) (bytes : List ℕ) (w : W)
        → other ≢ path
        → system.fopen other (writer.fwrite path bytes w).1 ≡ system.fopen other w
    pub remove_others :
        (path other : Text) (w : W)
        → other ≢ path
        → system.fopen other (system.remove path w).1 ≡ system.fopen other w

  -- The other files are the same, and so is the size of the window; what has arrived has not come
  -- back.
  pub record IsLocal (path : Text) (s s' : Session W) : Type 0 where
    pub others :
        (other : Text) → other ≢ path → system.fopen other s'.files ≡ system.fopen other s.files
    pub left : arrivals s' ≤ arrivals s
    pub window_size : s'.window_size ≡ s.window_size

  pub IsLocal-trans :
      (path : Text) (s t u : Session W) → IsLocal path s t → IsLocal path t u → IsLocal path s u
  IsLocal-trans path s t u h k = record {
    others = λ other n. k.others other n ∙ h.others other n;
    left = omega (arith, h.left, k.left);
    window_size = k.window_size ∙ h.window_size;
  }

  pub IsCalm-IsLocal : (path : Text) (s t : Session W) → IsCalm s t → IsLocal path s t
  IsCalm-IsLocal path s t h = record {
    others = λ other n. ap (system.fopen other) h.files;
    left = h.left;
    window_size = h.window_size;
  }

module _ {W : Type 0} (system : System W) (writer : Writer W) (E : Type 0) where
  -- The function changes no other file, takes `n` arrivals at least where it returns, and ends unless
  -- `E`.
  unfoldable pub Locally : {A : Type 0} → Text → ℕ → Session W → Ending W A → Type 0
  Locally path n s ending =
      Ends (λ _ s'. IsLocal system writer path s s' × (arrivals s' + n ≤ arrivals s))
        (IsLocal system writer path s) E ending

  pub Calmly-Locally :
      (A : Type 0) (path : Text) (n : ℕ) (s : Session W) (ending : Ending W A)
      → Calmly n s ending
      → Locally path n s ending
  unfolding Locally Calmly
  Calmly-Locally A path n s ending h =
      Ends-weaken ending h (λ a t calm. (IsCalm-IsLocal system writer path s t calm.0, calm.1))
        (λ t calm. IsCalm-IsLocal system writer path s t calm) (λ e. absurd e)

  pub Locally-next :
      (A B : Type 0) (path : Text) (m k n : ℕ) (s : Session W) (ending : Ending W A)
      (f : A → Session W → Ending W B)
      → Locally path m s ending
      → ((a : A) (t : Session W)
          → IsLocal system writer path s t
          → arrivals t + m ≤ arrivals s
          → Locally path k t (f a t))
      → n ≤ m + k
      → Locally path n s (next ending f)
  unfolding Locally
  Locally-next A B path m k n s ending f h then_local few = Ends-next _ _ _ ending f h (λ a t local.
      Ends-weaken (f a t) (then_local a t local.0 local.1)
        (λ b u local'. (
          IsLocal-trans system writer path s t u local.0 local'.0,
          omega (arith, local.1, local'.1),
        ))
        (λ u local'. IsLocal-trans system writer path s t u local.0 local') (λ e. e))

  pub Locally-lift :
      (A B : Type 0) (path : Text) (n : ℕ) (s : Session W) (o : Outcome A)
      (f : A → Session W → Ending W B)
      → ((a : A) → Locally path n s (f a s))
      → Locally path n s (next (lift o s) f)
  unfolding Locally
  Locally-lift A B path n s o f h = Ends-lift _ _ _ o s f h

  pub Locally-if :
      (A : Type 0) (path : Text) (n : ℕ) (b : Bool) (m k : Session W → Ending W A) (s : Session W)
      → Locally path n s (m s)
      → Locally path n s (k s)
      → Locally path n s ((if b then m else k) s)
  Locally-if A path n true m k s h h' = h
  Locally-if A path n false m k s h h' = h'

  pub Locally-choice :
      (A : Type 0) (path : Text) (n : ℕ) (b : Bool) (x y : Ending W A) (s : Session W)
      → Locally path n s x
      → Locally path n s y
      → Locally path n s (if b then x else y)
  Locally-choice A path n true x y s h h' = h
  Locally-choice A path n false x y s h h' = h'

  pub Locally-return :
      (A : Type 0) (path : Text) (a : A) (s : Session W) → Locally path 0 s (returned a s)
  unfolding Locally Ends
  Locally-return A path a s =
      (record { others = λ other n. refl; left = omega arith; window_size = refl }, omega arith)

  pub Locally-fewer :
      (A : Type 0) (path : Text) (m n : ℕ) (s : Session W) (ending : Ending W A)
      → Locally path m s ending
      → n ≤ m
      → Locally path n s ending
  unfolding Locally
  Locally-fewer A path m n s ending h few =
      Ends-weaken ending h (λ a t local. (local.0, omega (arith, local.1))) (λ t local. local)
        (λ e. e)

  -- A change of the files, then what follows.
  pub Locally-files :
      (A : Type 0) (path : Text) (files : W) (s : Session W) (ending : Ending W A)
      → ((other : Text) → other ≢ path → system.fopen other files ≡ system.fopen other s.files)
      → Locally path 0 (record s { files = files }) ending
      → Locally path 0 s ending
  unfolding Locally
  Locally-files A path files s ending h k =
      let t : Session W = record s { files = files } in
      let local : IsLocal system writer path s t = record {
        others = h;
        left = omega arith;
        window_size = refl;
      } in
      Ends-weaken ending k
        (λ a u local'. (IsLocal-trans system writer path s t u local local'.0, local'.1))
        (λ u local'. IsLocal-trans system writer path s t u local local') (λ e. e)
