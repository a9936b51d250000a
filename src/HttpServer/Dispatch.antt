-- ===== src/HttpServer/Dispatch.antt =====
-- src/networking/http/http_server.c: `http_handler` from the parsed request to the response, at the
-- server whose routes are registered.
use file_share_server.Common.{
  ◌==◌, Outcome, done, fault, exited, Option, none, some, List, ℤ, if◌then◌else◌,
}
use file_share_server.Database.{Text, System}
use file_share_server.Database.Handlers.{Handler, return, lift, ◌>>=◌}
use file_share_server.Base64.{codes}
use file_share_server.HttpRequest.{http_request_constructor}
use file_share_server.Controller.Response.{Request, Response, field}
use file_share_server.HttpServer.{Route, Routes, is_match_method, find_route}
use file_share_server.HttpServer.Callbacks.{call}
use file_share_server.HttpServer.Registration.{server_routes}
use file_share_server.HttpServer.Resources.{page_455, server_resource}

-- The response of a handler, or what the server itself answers.
pub data Answer : Type 0 where
  of_handler : Response → Answer
  of_server : Text → Answer

-- A string that is NULL is read.
abbrev pub read_string : Outcome (Option Text) → Outcome Text
read_string (done (some text)) = done text
read_string (done none) = fault
read_string fault = fault
read_string exited = exited

module _ {W : Type 0} (system : System W) where
  -- The choice between the handler of the route and the server's own answers.
  abbrev pub answer_route : Option Route → Text → Text → Request → Handler W Answer
  answer_route (some route) method uri request =
      if is_match_method system.strcmp system.garbage method route.methods == 0
      then return (of_server page_455)
      else (do response ← call system route.route_callback request; return (of_handler response))
  answer_route none method uri request = do
    text ← λ w. lift (server_resource system uri w) w
    return (of_server text)

  unfoldable pub respond : Routes → Text → Text → Request → Handler W Answer
  respond routes method uri request = do
    route ← lift (find_route system.strcmp routes uri)
    answer_route route method uri request

  -- The answer of the server, with what is `left` on the stack where the routes are registered.
  unfoldable pub serve_request : List ℤ → Text → Text → Request → Handler W Answer
  serve_request left method uri request = do
    routes ← lift (server_routes system.strcmp left)
    respond routes method uri request

  -- From the text of a request on: the URI and the method are printed to the log.
  unfoldable pub http_handler : List ℤ → Text → Handler W Answer
  http_handler left request_string = do
    (line, request) ← lift (http_request_constructor system.strcmp request_string)
    uri ← lift (read_string (field system line (codes "uri")))
    method ← lift (read_string (field system line (codes "method")))
    serve_request left method uri request
