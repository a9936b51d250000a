-- ===== src/HttpServer.antt =====
-- src/networking/http/http_server.c: routes and methods, and the part of `http_handler` that chooses
-- what answers a parsed request; the resources are in `Resources`, the routes of
-- src/main/http.c and src/main.c in `Registration`. An array on the stack that is not written is
-- what is `left` there.
pub mod Callbacks
pub mod Resources
pub mod Registration
pub mod Methods
pub mod Lookup
pub mod Dispatch
pub mod Paths
pub mod Guards
pub mod Safety
pub mod Handler
use file_share_server.Common.{
  ℕ, zero, suc, ◌+◌, leb, Option, none, some, List, [], ◌∷◌, ◌++◌, drop, length, ℤ, pos, int_eq,
  if◌then◌else◌, Outcome, done, fault, ◌>>=◌,
}
use file_share_server.Base64.{codes}
use file_share_server.Dictionary
use file_share_server.Dictionary.{Dictionary, compare_string_keys, dictionary_constructor}
use file_share_server.Database.{Text}
use file_share_server.HttpServer.Callbacks.{Callback, login}

-- `enum HTTPMethods`.
pub data HttpMethod : Type 0 where
  get post put delete head options trace connect patch : HttpMethod

abbrev pub method_code : HttpMethod → ℤ
method_code get = pos 1
method_code post = pos 2
method_code put = pos 3
method_code delete = pos 4
method_code head = pos 5
method_code options = pos 6
method_code trace = pos 7
method_code connect = pos 8
method_code patch = pos 9

-- `if (strcmp(method, name) == 0) code = ...;`
abbrev pub assign : (Text → Text → ℤ) → Text → Text → HttpMethod → ℤ → ℤ
assign strcmp method name value code =
    if int_eq (strcmp method name) (pos 0) then method_code value else code

-- The assignments to `code`, which holds `left` before them.
unfoldable pub code_of : (Text → Text → ℤ) → ℤ → Text → ℤ
code_of strcmp left method = assign strcmp method (codes "PATCH") patch (
    assign strcmp method (codes "TRACE") trace (
      assign strcmp method (codes "CONNECT") connect (
        assign strcmp method (codes "OPTIONS") options (
          assign strcmp method (codes "HEAD") head (
            assign strcmp method (codes "DELETE") delete (
              assign strcmp method (codes "PUT") put (
                assign strcmp method (codes "POST") post
                  (assign strcmp method (codes "GET") get left))))))))

-- The loop over the methods of a route.
unfoldable pub match_loop : List ℤ → ℤ → ℕ
match_loop [] code = 0
match_loop (method ∷ methods) code =
    let rest = match_loop methods code in if int_eq method code then 1 else rest

unfoldable pub is_match_method : (Text → Text → ℤ) → ℤ → Text → List ℤ → ℕ
unfolding code_of match_loop
is_match_method strcmp left method methods = match_loop methods (code_of strcmp left method)

-- `uri`, which is never read, points to an array of `register_routes` that is gone when it returns,
-- and is left out.
pub record Route : Type 0 where
  pub methods : List ℤ
  pub route_callback : Callback

abbrev pub Routes : Type 0
Routes = Dictionary Text Route

-- `int methods[9]` after the loop that writes the methods given: the others are left as they were.
unfoldable pub route_methods : List ℤ → List ℤ → Outcome (List ℤ)
route_methods left methods =
    if leb (length methods) 9 then done (methods ++ drop (length methods) left) else fault

unfoldable pub register_routes :
    (Text → Text → ℤ) → List ℤ → Routes → Callback → Text → List ℤ → Outcome Routes
unfolding route_methods
register_routes strcmp left routes callback uri methods = do
  written ← route_methods left methods
  Dictionary.insert (compare_string_keys strcmp) routes uri (length uri)
      (record { methods = written; route_callback = callback })

-- What no comparison reads: the value of the entry that a search carries.
abbrev pub no_route : Route
no_route = record { methods = []; route_callback = login }

unfoldable pub find_route : (Text → Text → ℤ) → Routes → Text → Outcome (Option Route)
find_route strcmp routes uri = Dictionary.search (compare_string_keys strcmp) no_route routes uri
