-- ===== src/Controller/Refusals.antt =====
-- How a handler that returns has got past its guards.
use file_share_server.Common.{
  ◌≡◌, refl, Bool, true, false, Option, none, some, Outcome, done, fault, exited, ◌⊎◌, inl,
}
use file_share_server.Database.Handlers.{Handler, lift, ◌>>=◌}
use file_share_server.Database.Selects.{IsReading, next-eq-done}
use file_share_server.Controller.Response.{
  Response, require, refuse, format_401, format_403, format_404, format_400, format_409, format_422,
}

abbrev pub is_refusal : Response → Bool
is_refusal format_401 = true
is_refusal format_403 = true
is_refusal format_404 = true
is_refusal format_400 = true
is_refusal format_409 = true
is_refusal format_422 = true
is_refusal _ = false

-- The handler refused the request and left the state alone, or `P` holds.
abbrev pub Refused : {W : Type 0} → W → Response → W → Type 0 → Type 0
Refused w r w' P = ((w' ≡ w) × (is_refusal r ≡ true)) ⊎ P

module _ {W : Type 0} {P : Type 0} (w : W) (r : Response) (w' : W) where
  pub require-Refused :
      {A : Type 0} (a : Option A) (response : Response) (rest : A → Handler W Response)
      → is_refusal response ≡ true
      → ((b : A) → a ≡ some b → rest b w ≡ done (r, w') → Refused w r w' P)
      → require a response rest w ≡ done (r, w')
      → Refused w r w' P
  require-Refused none response rest refused h e = inl (cc, cc)
  require-Refused (some a) response rest refused h e = h a refl e

  pub refuse-Refused :
      (condition : Bool) (response : Response) (rest : Handler W Response)
      → is_refusal response ≡ true
      → (condition ≡ false → rest w ≡ done (r, w') → Refused w r w' P)
      → refuse condition response rest w ≡ done (r, w')
      → Refused w r w' P
  refuse-Refused true response rest refused h e = inl (cc, cc)
  refuse-Refused false response rest refused h e = h refl e

  pub lift-Refused :
      {A : Type 0} (a : Outcome A) (rest : A → Handler W Response)
      → ((b : A) → a ≡ done b → rest b w ≡ done (r, w') → Refused w r w' P)
      → (lift a >>= rest) w ≡ done (r, w')
      → Refused w r w' P
  lift-Refused (done a) rest h e = h a refl e
  lift-Refused fault rest h e = cc
  lift-Refused exited rest h e = cc

  pub read-Refused :
      {A : Type 0} (m : Handler W A) (rest : A → Handler W Response)
      → IsReading m
      → ((b : A) → m w ≡ done (b, w) → rest b w ≡ done (r, w') → Refused w r w' P)
      → (m >>= rest) w ≡ done (r, w')
      → Refused w r w' P
  read-Refused m rest reading h e =
      let (b, w1, e1, e2) = next-eq-done (m w) rest e in
      let same = reading.keeps w b w1 e1 in h b (rw same at e1) (rw same at e2)
