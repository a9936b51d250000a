-- ===== src/Controller/Response.antt =====
-- The responses of src/http/helper/helper.c, and the request that a handler is given.
use file_share_server.Common.{
  ◌+◌, Bool, true, false, not, int_eq, Option, none, some, List, [], ◌∷◌, ◌++◌, ℤ, pos, length,
  Outcome, done, fault, ◌>>=◌,
}
use file_share_server.LinkedList
use file_share_server.LinkedList.{LinkedList}
use file_share_server.Base64.{codes}
use file_share_server.Dictionary
use file_share_server.Dictionary.{Dictionary, compare_string_keys}
use file_share_server.Database.{Text, System}
use file_share_server.Model.Support.{fit}

pub data Response : Type 0 where
  format_404 : Response
  format_403 : Response
  format_401 : Response
  format_400 : Response
  format_500 : Response
  format_501 : Response
  format_505 : Response
  format_422 : Response
  format_409 : Response
  format_200 : Response
  format_200_with_content_type : Text → Text → Response

abbrev status_line : Response → Text
status_line format_404 = codes "HTTP/1.1 404 Not Found\r\n"
status_line format_403 = codes "HTTP/1.1 403 Forbidden\r\n"
status_line format_401 = codes "HTTP/1.1 401 Unauthorized\r\n"
status_line format_400 = codes "HTTP/1.1 400 Bad Request\r\n"
status_line format_500 = codes "HTTP/1.1 500 Internal Server Error\r\n"
status_line format_501 = codes "HTTP/1.1 501 Not Implemented\r\n"
status_line format_505 = codes "HTTP/1.1 505 HTTP Version Not Supported\r\n"
status_line format_422 = codes "HTTP/1.1 422 Unprocessable Entity\r\n"
status_line format_409 = codes "HTTP/1.1 409 Conflict\r\n"
status_line format_200 = codes "HTTP/1.1 200 OK\r\n"
status_line (format_200_with_content_type content content_type) = codes "HTTP/1.1 200 OK\r\n"

-- The text of a response, `print_long` writing its length.
unfoldable pub response_text : (ℤ → Text) → Response → Outcome Text
response_text print_long (format_200_with_content_type content content_type) =
    fit (length content + 100) (
      status_line format_200
      ++ (codes "Connection: close\r\nContent-Length: "
          ++ (print_long (pos (length content))
              ++ (codes "\r\nContent-Type: "
                  ++ (content_type ++ (codes "\r\n\r\n" ++ (content ++ codes "\r\n")))))))
response_text print_long response =
    done (status_line response ++ codes "Connection: close\r\nContent-Length: 0\r\n\r\n")

abbrev pub json_type : Text
json_type = codes "application/json"

abbrev pub json_response : Text → Response
json_response json = format_200_with_content_type json json_type

abbrev pub Fields : Type 0
Fields = Dictionary Text Text

pub record Request : Type 0 where
  pub header_fields : Fields
  pub body : Fields
  pub query : Fields

-- `search` of one of the dictionaries of a request.
unfoldable pub field : {W : Type 0} → System W → Fields → Text → Outcome (Option Text)
field system fields name = Dictionary.search (compare_string_keys system.strcmp) [] fields name

-- The JSON of the elements, in their order.
jsons : {A : Type 0} → (A → Outcome Text) → List A → Outcome (List Text)
jsons to_json [] = done []
jsons to_json (x ∷ xs) = do json ← to_json x; rest ← jsons to_json xs; done (json ∷ rest)

-- `list_to_json` with a `to_json` that may fault; the list is NULL where it is `none`.
unfoldable pub list_json : {A : Type 0} → (A → Outcome Text) → Option (LinkedList A) → Outcome Text
unfolding jsons
list_json to_json none = fault
list_json to_json (some list) = do
  texts ← jsons to_json list.items
  LinkedList.list_to_json (λ text. text) (record { items = texts; count = list.count })

-- `if (pointer == NULL) return response;` and what follows.
abbrev pub require :
    {W A : Type 0}
    → Option A
    → Response
    → (A → W → Outcome (Response × W))
    → W
    → Outcome (Response × W)
require none response rest w = done (response, w)
require (some a) response rest w = rest a w

-- `if (condition) return response;` and what follows.
abbrev pub refuse :
    {W : Type 0} → Bool → Response → (W → Outcome (Response × W)) → W → Outcome (Response × W)
refuse true response rest w = done (response, w)
refuse false response rest w = rest w

-- A C integer as a condition.
abbrev pub nonzero : ℤ → Bool
nonzero i = not (int_eq i (pos 0))
