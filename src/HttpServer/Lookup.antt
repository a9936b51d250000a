-- ===== src/HttpServer/Lookup.antt =====
-- The routes that are found after they were registered.
use file_share_server.Common.{
  ◌<◌, ◌≡◌, refl, ◌∙◌, Option, none, some, List, [], ◌∷◌, All, length, drop, ℤ, pos, int_eq,
  if◌then◌else◌, done, ◌>>=◌, arith,
}
use file_share_server.Tree.Lookup.{find}
use file_share_server.LinkedList.{linked_list_constructor}
use file_share_server.LinkedList.Access.{IsValid, appended-IsValid}
use file_share_server.Dictionary.{dictionary_constructor}
use file_share_server.Dictionary.Strings.{IsStrcmp}
use file_share_server.Dictionary.Lookup.{lookup, grown, search-lookup, insert-grown, lookup-grown}
use file_share_server.Database.{Text}
use file_share_server.HttpServer.{
  Route, Routes, no_route, method_code, find_route, register_routes, route_methods,
}
use file_share_server.HttpServer.Registration.{Registration, register_all}

module _ (strcmp : Text → Text → ℤ) (s : IsStrcmp strcmp) (left : List ℤ) where
  -- The route that a registration makes.
  abbrev pub route_of : Registration → Route
  route_of r = record { methods = method_code r.method ∷ drop 1 left; route_callback = r.callback }

  -- The route of the first registration of a URI.
  unfoldable pub first_route : List Registration → Text → Option Route
  first_route [] uri = none
  first_route (r ∷ rest) uri =
      if int_eq (strcmp r.uri uri) (pos 0) then some (route_of r) else first_route rest uri

  -- The URI is not empty.
  abbrev pub HasUri : Registration → Type 0
  HasUri r = 0 < length r.uri

  abbrev or_else : Option Route → Option Route → Option Route
  or_else none other = other
  or_else (some route) other = some route

  register_routes-grown :
      (r : Registration) (routes : Routes)
      → IsValid routes.keys
      → HasUri r
      → register_routes strcmp left routes r.callback r.uri (method_code r.method ∷ [])
        ≡ done (grown strcmp s no_route routes r.uri (route_of r))
  unfolding register_routes route_methods
  register_routes-grown r routes valid h =
      rw (insert-grown strcmp s no_route routes r.uri (length r.uri) (route_of r) valid h)

  grown-IsValid :
      (r : Registration) (routes : Routes)
      → IsValid routes.keys
      → IsValid (grown strcmp s no_route routes r.uri (route_of r)).keys
  unfolding grown
  grown-IsValid r routes valid = appended-IsValid routes.keys r.uri valid

  lookup-grown_first :
      (r : Registration) (rest : List Registration) (routes : Routes) (uri : Text)
      → or_else
          (lookup strcmp s no_route (grown strcmp s no_route routes r.uri (route_of r)) uri)
          (first_route rest uri)
        ≡ or_else (lookup strcmp s no_route routes uri) (first_route (r ∷ rest) uri)
  unfolding first_route
  lookup-grown_first r rest routes uri =
      ground (arith, lookup-grown strcmp s no_route routes r.uri uri (route_of r))

  register_all-lookup :
      (rs : List Registration) (routes : Routes) (uri : Text)
      → IsValid routes.keys
      → All HasUri rs
      → (d : Routes) × (register_all strcmp left rs routes ≡ done d)
        × (lookup strcmp s no_route d uri
            ≡ or_else (lookup strcmp s no_route routes uri) (first_route rs uri))
  unfolding register_all
  register_all-lookup [] routes uri valid h = (routes, refl, unfold first_route in ground arith)
  register_all-lookup (r ∷ rest) routes uri valid h =
      let next = grown strcmp s no_route routes r.uri (route_of r) in
      let (d, e, found) = register_all-lookup rest next uri (grown-IsValid r routes valid) h.1 in
      (
        d,
        rw (register_routes-grown r routes valid h.0) e,
        found ∙ lookup-grown_first r rest routes uri,
      )

  empty-IsValid : IsValid (dictionary_constructor {K = Text} {V = Route}).keys
  unfolding dictionary_constructor linked_list_constructor
  empty-IsValid = record { counted = refl }

  empty_lookup : (uri : Text) → lookup strcmp s no_route dictionary_constructor uri ≡ none
  unfolding lookup dictionary_constructor find
  empty_lookup uri = refl

  -- Under a lawful `strcmp`, for URIs that are not empty: the dictionary of routes finds under a URI
  -- the route of the first registration of that URI, and NULL where there is none.
  pub find_route-first :
      (rs : List Registration) (uri : Text)
      → All HasUri rs
      → (register_all strcmp left rs dictionary_constructor >>= λ routes.
          find_route strcmp routes uri)
        ≡ done (first_route rs uri)
  unfolding find_route
  find_route-first rs uri h =
      let (d, e, found) = register_all-lookup rs dictionary_constructor uri empty-IsValid h in
      rw e (search-lookup strcmp s no_route d uri ∙ rw (found, empty_lookup uri))
