-- ===== src/Tests/Requests.antt =====
-- The theorems on the text of requests at the server of `Tests.Server`.
use file_share_server.Common.{ℕ, ◌≡◌, ◌⊎◌, refl, some, List, [], ◌∷◌, done}
use file_share_server.Base64.{
  codes, base64_decode, decode_loop, decode_triple, sextet, decoding_table,
}
use file_share_server.Tree
use file_share_server.LinkedList
use file_share_server.Queue
use file_share_server.Dictionary
use file_share_server.Dictionary.{
  search, entry_constructor, compare_string_keys, dictionary_constructor,
}
use file_share_server.Database.{Text, System, with_pool, get_pool, exec, execute, step_loop}
use file_share_server.Model.Support.{convert_long_to_string}
use file_share_server.Model.User.{user_find_by_id, find_user_callback, user_new}
use file_share_server.Model.Session.{
  delete_session, is_expired, get_user, session_find_by_token, find_session_callback, session_new,
}
use file_share_server.Controller.Response.{field, format_200, Request, Fields}
use file_share_server.Controller.Auth.{get_user_from_request, token_of_request, user_of_session}
use file_share_server.Controller.Users.{logout}
use file_share_server.HttpServer.{
  code_of, match_loop, is_match_method, find_route, register_routes, route_methods,
}
use file_share_server.HttpServer.Callbacks.{call}
use file_share_server.HttpServer.Registration.{register_all, server_routes}
use file_share_server.HttpRequest.{
  mark_blank, strtok, tokens, tokens_loop, push_fields, key_value, header_key_value, drain_fields,
  extract_fields, extract_request_query, extract_request_line_fields, drain_headers,
  extract_header_fields, extract_body, http_request_constructor,
}
use file_share_server.HttpServer.Dispatch.{of_handler, respond, serve_request, http_handler}
use file_share_server.HttpServer.Guards.{IsAuthenticated}
use file_share_server.Tree.{node, null}
use file_share_server.HttpServer.Safety.{IsOpen}
use file_share_server.HttpServer.Handler.{http_handler-Allowed}
use file_share_server.Tests.Server.{server, server-KeepsSelects, strcmp}
use file_share_server.Tests.Strings.{strcmp-IsStrcmp}

abbrev empty_server : System ℕ
empty_server = server []

abbrev request_text : Text
request_text = codes "POST /logout HTTP/1.1\r\nAuthorization: Basic YWJj\r\n\r\n"

answered : http_handler empty_server [] request_text 5 ≡ done (of_handler format_200, 6)
unfolding serve_request respond call logout delete_session find_route server_routes register_all
    register_routes route_methods Dictionary.insert dictionary_constructor Tree.insert Tree.attach
    Tree.attach_at Tree.insert_below LinkedList.insert LinkedList.insert_behind LinkedList.iterate
    LinkedList.walk LinkedList.create_node LinkedList.linked_list_constructor is_match_method
    code_of match_loop field search entry_constructor compare_string_keys Tree.search Tree.iterate
    Tree.descend Tree.cursor_data get_user_from_request token_of_request user_of_session is_expired
    get_user session_find_by_token find_session_callback session_new with_pool get_pool exec execute
    step_loop convert_long_to_string user_find_by_id find_user_callback user_new base64_decode
    decode_loop decode_triple sextet decoding_table http_handler http_request_constructor mark_blank
    strtok tokens tokens_loop push_fields header_key_value key_value drain_fields extract_fields
    extract_request_query extract_request_line_fields drain_headers extract_header_fields
    extract_body Queue.queue_constructor Queue.push Queue.peek Queue.pop LinkedList.retrieve
    LinkedList.remove_node LinkedList.remove_head
answered = refl

http_handler-Allowed_example :
    (line : Fields) × (request : Request) × (http_request_constructor strcmp request_text
      ≡ done (line, request))
    × ((◌≡◌ {A = ℕ} 6 5)
        ⊎ (IsAuthenticated empty_server request 5
            ⊎ ((uri : Text) × (field empty_server line (codes "uri") ≡ done (some uri))
                × IsOpen uri)))
http_handler-Allowed_example =
    http_handler-Allowed empty_server (server-KeepsSelects []) strcmp-IsStrcmp [] request_text 5
      (of_handler format_200) 6 answered

abbrev two_fields : List (Text × Text)
two_fields = (codes "code", codes "xyz") ∷ (codes "name", codes "docs=1") ∷ []

abbrev typed_header : Fields
typed_header = record {
  bst = node null (record { key = codes "Content-Type"; value = codes "text" }) null;
  keys = record { items = codes "Content-Type" ∷ []; count = 1 };
}
