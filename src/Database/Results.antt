-- ===== src/Database/Results.antt =====
-- What a computation over the state returns, where it returns.
use file_share_server.Common.{
  ◌≡◌, Bool, true, false, Option, none, some, if◌then◌else◌, Outcome, done, fault, exited,
}
use file_share_server.Database.{System, Pool, with_pool, on_pool, get_pool}
use file_share_server.Database.Handlers.{Handler, return, ◌>>=◌}
use file_share_server.Database.Selects.{next-eq-done}

-- What the computation returns satisfies `P`.
pub record Gives {W A : Type 0} (P : A → Type 0) (m : Handler W A) : Type 0 where
  pub gives : (w : W) (a : A) (w' : W) → m w ≡ done (a, w') → P a

module _ {W : Type 0} where
  pub return-Gives : {A : Type 0} (P : A → Type 0) (a : A) → P a → Gives P (λ (w : W). return a w)
  return-Gives P a p = record { gives = λ w b w' e. let same : b ≡ a = cc in rw same p }

  pub bind-Gives :
      {A B : Type 0} (P : B → Type 0) (m : Handler W A) (f : A → Handler W B)
      → ((a : A) → Gives P (f a))
      → Gives P (m >>= f)
  bind-Gives P m f h = record {
    gives = λ w b w' e. let (a, w1, e1, e2) = next-eq-done (m w) f e in (h a).gives w1 b w' e2;
  }

  pub carry-Gives :
      {A B : Type 0} (Q : A → Type 0) (P : B → Type 0) (m : Handler W A) (f : A → Handler W B)
      → Gives Q m
      → ((a : A) → Q a → Gives P (f a))
      → Gives P (m >>= f)
  carry-Gives Q P m f q h = record {
    gives = λ w b w' e.
        let (a, w1, e1, e2) = next-eq-done (m w) f e in (h a (q.gives w a w1 e1)).gives w1 b w' e2;
  }

  pub if-Gives :
      {A : Type 0} (P : A → Type 0) (b : Bool) (m n : Handler W A)
      → Gives P m
      → Gives P n
      → Gives P (if b then m else n)
  if-Gives P true m n hm hn = hm
  if-Gives P false m n hm hn = hn

module _ {W : Type 0} (system : System W) where
  on_pool-Gives :
      {A : Type 0} (P : A → Type 0) (pool : Outcome (Option Pool)) (failed : A) (m : Handler W A)
      → P failed
      → Gives P m
      → Gives P (on_pool system pool failed m)
  on_pool-Gives P (done (some pool)) failed m p h = h
  on_pool-Gives P (done none) failed m p h = return-Gives P failed p
  on_pool-Gives P fault failed m p h = record { gives = λ w a w' e. cc }
  on_pool-Gives P exited failed m p h = record { gives = λ w a w' e. cc }

  pub with_pool-Gives :
      {A : Type 0} (P : A → Type 0) (failed : A) (m : Handler W A)
      → P failed
      → Gives P m
      → Gives P (with_pool system failed m)
  unfolding with_pool
  with_pool-Gives P failed m p h =
      on_pool-Gives P (get_pool system.strcmp system.pools none) failed m p h
