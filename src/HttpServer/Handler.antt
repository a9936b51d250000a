-- ===== src/HttpServer/Handler.antt =====
-- What the text of a request can do at the server of src/main/http.c.
use file_share_server.Common.{
  ◌≡◌, Option, none, some, List, ℤ, Outcome, done, fault, exited, inl, inr, ◌⊎◌,
}
use file_share_server.Base64.{codes}
use file_share_server.Dictionary.Strings.{IsStrcmp}
use file_share_server.Database.{Text, System}
use file_share_server.Database.Selects.{KeepsSelects}
use file_share_server.Controller.Response.{Fields, Request, field}
use file_share_server.HttpRequest.{http_request_constructor}
use file_share_server.HttpServer.Dispatch.{Answer, read_string, http_handler}
use file_share_server.HttpServer.Guards.{IsAuthenticated}
use file_share_server.HttpServer.Safety.{IsOpen, lifted, serve_request-Allowed}

read_string-some :
    (o : Outcome (Option Text)) (text : Text) → read_string o ≡ done text → o ≡ done (some text)
read_string-some (done (some a)) text h = cc
read_string-some (done none) text h = cc
read_string-some fault text h = cc
read_string-some exited text h = cc

module _ {W : Type 0} (system : System W) (keeper : KeepsSelects system)
    (s : IsStrcmp system.strcmp) (left : List ℤ) (request_string : Text) (w : W) (a : Answer)
    (w' : W) where
  -- Where SELECTs do not write, under a lawful `strcmp`: for every text of a request that
  -- `http_handler` answers at the server of src/main/http.c, the text is parsed to a request line and
  -- a request, and the database and the files are as they were, or the request carries the token of
  -- a user, or its URI is "/register" or "/login".
  pub http_handler-Allowed :
      http_handler system left request_string w ≡ done (a, w')
      → (line : Fields) × (request : Request) × (http_request_constructor system.strcmp
            request_string
          ≡ done (line, request))
        × ((w' ≡ w)
            ⊎ (IsAuthenticated system request w
                ⊎ ((uri : Text) × (field system line (codes "uri") ≡ done (some uri))
                    × IsOpen uri)))
  unfolding http_handler
  http_handler-Allowed h =
      let (parsed, e, h1) = lifted (http_request_constructor system.strcmp request_string) _ w h in
      let (uri, e1, h2) = lifted (read_string (field system parsed.0 (codes "uri"))) _ w h1 in
      let (method, e2, h3) = lifted (read_string (field system parsed.0 (codes "method"))) _ w h2 in
      (
        parsed.0,
        parsed.1,
        e,
        elim (serve_request-Allowed system keeper s left method uri parsed.1 w w' a h3) [
          | inl same ↦ inl same
          | inr other ↦ elim other [
            | inl user ↦ inr (inl user)
            | inr is_open ↦
                inr (
                  inr (uri, read_string-some (field system parsed.0 (codes "uri")) uri e1, is_open))
          ]
        ],
      )
