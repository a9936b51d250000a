-- ===== src/Database/Handlers.antt =====
-- Computations over a state that a C function changes.
use file_share_server.Common.{Outcome, done, fault, exited}

abbrev pub Handler : Type 0 → Type 0 → Type 0
Handler W A = W → Outcome (A × W)

module _ {W A B : Type 0} where
  abbrev pub next : Outcome (A × W) → (A → W → Outcome (B × W)) → Outcome (B × W)
  next (done (a, w)) f = f a w
  next fault f = fault
  next exited f = exited

  infixl 5 ◌>>=◌
  abbrev pub ◌>>=◌ : (W → Outcome (A × W)) → (A → W → Outcome (B × W)) → W → Outcome (B × W)
  (m >>= f) w = next (m w) f

module _ {W A : Type 0} where
  abbrev pub return : A → W → Outcome (A × W)
  return a w = done (a, w)

  -- A computation that does not reach the state.
  abbrev pub lift : Outcome A → W → Outcome (A × W)
  lift (done a) w = done (a, w)
  lift fault w = fault
  lift exited w = exited
