-- ===== src/HttpServer/Safety.antt =====
-- What a request can do at the server of src/main/http.c.
use file_share_server.Common.{
  ◌≡◌, refl, sym, ◌∙◌, ◌==◌, ◌&&◌, ◌||◌, not, Bool, Bool-cases, true, Option, none, some, List, [],
  ◌∷◌, ℤ, pos, int_eq, Outcome, done, fault, exited, inl, inr, ◌⊎◌, All, arith, ◌<◌, ltb, ltb→lt,
  length,
}
use file_share_server.Base64.{codes}
use file_share_server.Dictionary.Strings.{IsStrcmp}
use file_share_server.Database.{Text, System}
use file_share_server.Database.Handlers.{Handler, return, lift, ◌>>=◌}
use file_share_server.Database.Selects.{KeepsSelects, next-eq-done}
use file_share_server.Model.Support.{text_eq}
use file_share_server.Controller.Response.{Request, Response}
use file_share_server.HttpServer.{Route, Routes, find_route, is_match_method}
use file_share_server.HttpServer.Callbacks.{call}
use file_share_server.HttpServer.Registration.{Registration, registrations, server_routes}
use file_share_server.HttpServer.Lookup.{route_of, first_route, find_route-first}
use file_share_server.HttpServer.Methods.{same_text, text_eq-true}
use file_share_server.HttpServer.Resources.{server_resource}
use file_share_server.HttpServer.Dispatch.{
  Answer, of_handler, of_server, answer_route, respond, serve_request,
}
use file_share_server.HttpServer.Guards.{IsAuthenticated, is_open, Guarded, call-Guarded}

abbrev is_open_uri : Text → Bool
is_open_uri uri = text_eq uri (codes "/register") || text_eq uri (codes "/login")

-- The URI is one that needs no token.
abbrev pub IsOpen : Text → Type 0
IsOpen uri = (uri ≡ codes "/register") ⊎ (uri ≡ codes "/login")

-- A registration has a URI, which is open for a handler that needs no token.
abbrev is_fitting : Registration → Bool
is_fitting r = ltb 0 (length r.uri) && (not (is_open r.callback) || is_open_uri r.uri)

abbrev all_fitting : List Registration → Bool
all_fitting [] = true
all_fitting (r ∷ rs) = is_fitting r && all_fitting rs

registrations_fit : all_fitting registrations ≡ true
registrations_fit = refl

fitting_uris : (rs : List Registration) → all_fitting rs ≡ true → All (λ r. 0 < length r.uri) rs
fitting_uris [] h = tt
fitting_uris (r ∷ rs) h = (ltb→lt 0 (length r.uri) (ground arith), fitting_uris rs (ground arith))

fitting_uri : (r : Registration) → is_fitting r ≡ true → is_open r.callback ≡ true → IsOpen r.uri
fitting_uri r h k = elim (Bool-cases (text_eq r.uri (codes "/register"))) [
  | inl registers ↦ inl (text_eq-true r.uri (codes "/register") registers)
  | inr other ↦ inr (text_eq-true r.uri (codes "/login") (ground arith))
]

module _ (strcmp : Text → Text → ℤ) (s : IsStrcmp strcmp) (left : List ℤ) where
  -- The route that is found for a handler that needs no token is that of an open URI.
  first_route-fits :
      (rs : List Registration) (uri : Text) (route : Route)
      → all_fitting rs ≡ true
      → first_route strcmp s left rs uri ≡ some route
      → is_open route.route_callback ≡ true
      → IsOpen uri
  unfolding first_route
  first_route-fits [] uri route fits e h = cc
  first_route-fits (r ∷ rs) uri route fits e h =
      elim (Bool-cases (int_eq (strcmp r.uri uri) (pos 0))) [
        | inr other ↦ first_route-fits rs uri route (ground arith) (rw other at e) h
        | inl same ↦
            let found : some (route_of strcmp s left r) ≡ some route = rw same at e in
            let callback : r.callback ≡ route.route_callback = cc in
            let equal : r.uri ≡ uri =
              text_eq-true r.uri uri (sym (same_text strcmp s (pos 0) r.uri uri) ∙ same) in
            rw (sym equal) (fitting_uri r (ground arith) (rw callback h))
      ]

  -- The route that is found at the server.
  server-route :
      (routes : Routes) (uri : Text) (found : Option Route)
      → server_routes strcmp left ≡ done routes
      → find_route strcmp routes uri ≡ done found
      → first_route strcmp s left registrations uri ≡ found
  unfolding server_routes
  server-route routes uri found e h =
      let all =
        find_route-first strcmp s left registrations uri
          (fitting_uris registrations registrations_fit) in
      let same : done (first_route strcmp s left registrations uri) ≡ done found =
        sym all ∙ rw e h in
      cc

module _ {W : Type 0} where
  pub lifted :
      {A B : Type 0} (a : Outcome A) (f : A → Handler W B) (w : W) {b : B × W}
      → (lift a >>= f) w ≡ done b
      → (x : A) × (a ≡ done x) × (f x w ≡ done b)
  lifted (done x) f w h = (x, refl, h)
  lifted fault f w h = cc
  lifted exited f w h = cc

module _ {W : Type 0} (system : System W) (keeper : KeepsSelects system)
    (s : IsStrcmp system.strcmp) (left : List ℤ) (method uri : Text) (request : Request) (w : W)
    (w' : W) where
  -- What is left to whom: everything to one with a token, and an open URI to all.
  abbrev Allowed : Type 0
  Allowed = (w' ≡ w) ⊎ (IsAuthenticated system request w ⊎ IsOpen uri)

  allowed : (r : Response) → Guarded system keeper request w r w' → Allowed
  allowed r (inl same) = inl same
  allowed r (inr user) = inr (inl user)

  called-Allowed :
      (route : Route) (a : Answer)
      → (is_open route.route_callback ≡ true → IsOpen uri)
      → (call system route.route_callback request >>= λ r. return (of_handler r)) w ≡ done (a, w')
      → Allowed
  called-Allowed route a fits h =
      let (r, w1, e1, e2) = next-eq-done (call system route.route_callback request w) _ h in
      let same : w1 ≡ w' = cc in
      elim (Bool-cases (is_open route.route_callback)) [
        | inl registers ↦ inr (inr (fits registers))
        | inr other ↦
            allowed r
              (call-Guarded system keeper request w r w' route.route_callback other (rw same at e1))
      ]

  answer_route-Allowed :
      (found : Option Route) (a : Answer)
      → ((route : Route) → found ≡ some route → is_open route.route_callback ≡ true → IsOpen uri)
      → answer_route system found method uri request w ≡ done (a, w')
      → Allowed
  answer_route-Allowed none a fits h =
      let (text, e, k) =
        lifted (server_resource system uri w) (λ text. return (of_server text)) w h in
      inl cc
  answer_route-Allowed (some route) a fits h =
      elim (Bool-cases (is_match_method system.strcmp system.garbage method route.methods == 0)) [
        | inl other ↦ (let k = rw other at h in inl cc)
        | inr matched ↦ called-Allowed route a (fits route refl) (rw matched at h)
      ]

  -- Where SELECTs do not write, under a lawful `strcmp`: a request to the server that is answered has
  -- left the database and the files as they were, or it carries the token of a user, or its URI is
  -- "/register" or "/login".
  pub serve_request-Allowed :
      (a : Answer)
      → serve_request system left method uri request w ≡ done (a, w')
      → (w' ≡ w) ⊎ (IsAuthenticated system request w ⊎ IsOpen uri)
  unfolding serve_request respond
  serve_request-Allowed a h =
      let (routes, e1, h1) = lifted (server_routes system.strcmp left) _ w h in
      let (found, e2, h2) = lifted (find_route system.strcmp routes uri) _ w h1 in
      let first = server-route system.strcmp s left routes uri found e1 e2 in
      answer_route-Allowed found a
        (λ route is_route.
          first_route-fits system.strcmp s left registrations uri route registrations_fit
            (first ∙ is_route))
        h2
