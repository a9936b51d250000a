-- ===== src/Tests/Routes.antt =====
-- The theorems on the HTTP server at requests to the server of `Tests.Server`.
use file_share_server.Common.{
  ℕ, ◌≤◌, ◌≡◌, ◌⊎◌, pos, some, List, [], ◌∷◌, ◌++◌, length, done, ◌>>=◌, arith,
}
use file_share_server.Base64.{codes}
use file_share_server.Dictionary.{dictionary_constructor}
use file_share_server.Database.{Text, System}
use file_share_server.HttpServer.{post, is_match_method, find_route}
use file_share_server.HttpServer.Callbacks.{call}
use file_share_server.HttpServer.Callbacks
use file_share_server.HttpServer.Registration.{Registration, register_all}
use file_share_server.HttpServer.Methods.{method_name, has_code, is_match_method-has}
use file_share_server.HttpServer.Lookup.{first_route, find_route-first}
use file_share_server.HttpServer.Resources.{
  page_400, page_404, serve_file, server_resource, file_response, file_header,
}
use file_share_server.HttpServer.Paths.{
  Contains, dots, public_path, server_resource_safe, file_response_whole,
}
use file_share_server.Tests.Server.{server, strcmp}
use file_share_server.Tests.Strings.{strcmp-IsStrcmp, strstr-IsStrstr}

abbrev empty_server : System ℕ
empty_server = server []

abbrev two_registrations : List Registration
two_registrations =
    record { callback = Callbacks.login; uri = codes "/login"; method = post }
    ∷ record { callback = Callbacks.logout; uri = codes "/logout"; method = post }
    ∷ []

find_route-first_example :
    (register_all strcmp [] two_registrations dictionary_constructor >>= λ routes.
    find_route strcmp routes (codes "/logout"))
    ≡ done (some (record { methods = pos 2 ∷ []; route_callback = Callbacks.logout }))
unfolding first_route
find_route-first_example =
    find_route-first strcmp strcmp-IsStrcmp [] two_registrations (codes "/logout")
      (omega arith, (omega arith, tt))

is_match_method-has_example : is_match_method strcmp (pos 9) (method_name post) (pos 2 ∷ []) ≡ 1
unfolding has_code
is_match_method-has_example = is_match_method-has strcmp strcmp-IsStrcmp (pos 9) post (pos 2 ∷ [])

abbrev script : Text
script = codes "/js/app.js"

server_resource_safe_example :
    (server_resource empty_server script 5 ≡ page_400 empty_server 5)
    ⊎ ((server_resource empty_server script 5 ≡ page_404 empty_server 5)
        ⊎ ((length (public_path empty_server script) ≤ 106)
            × ¬ Contains (public_path empty_server script) dots
            × (server_resource empty_server script 5
                ≡ serve_file empty_server (public_path empty_server script) 5)))
server_resource_safe_example = server_resource_safe empty_server strstr-IsStrstr script 5

file_response_whole_example :
    file_response empty_server script (60 ∷ 62 ∷ []) 2
    ≡ done (file_header empty_server script 2 ++ 60 ∷ 62 ∷ [])
file_response_whole_example =
    file_response_whole empty_server script (60 ∷ 62 ∷ []) (omega arith) (omega arith)
