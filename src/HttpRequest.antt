-- ===== src/HttpRequest.antt =====
-- src/networking/http/http_request.c: the parser of requests. `strtok` takes the text that is left of
-- the string and gives a token with what is left behind it, or NULL. A string that is copied to an
-- array without room for its terminator, or pushed to a queue without it, is taken as it was.
pub mod Tokens
pub mod Queries
pub mod Lookup
use file_share_server.Common.{
  ℕ, zero, suc, ◌+◌, ◌==◌, if◌then◌else◌, Bool, true, false, ◌&&◌, ◌||◌, Option, none, some, List,
  [], ◌∷◌, length, ℤ, Outcome, done, fault, ◌>>=◌,
}
use file_share_server.Base64.{codes}
use file_share_server.Dictionary
use file_share_server.Dictionary.{
  Entry, compare_string_keys, dictionary_constructor, dictionary_destructor,
}
use file_share_server.Queue
use file_share_server.Queue.{Queue, queue_constructor}
use file_share_server.Database.{Text}
use file_share_server.Controller.Response.{Fields, Request}

abbrev pub starts_with : Text → Text → Bool
starts_with [] text = true
starts_with (a ∷ rest) [] = false
starts_with (a ∷ rest) (b ∷ text) = (a == b) && starts_with rest text

-- The first loop: the last character of an empty line becomes a vertical bar. `ahead` characters of
-- an empty line that was found are still to come.
unfoldable pub mark_blank : ℕ → Text → Text
mark_blank ahead [] = []
mark_blank zero (c ∷ text) =
    c ∷ mark_blank (if starts_with (codes "\r\n\r\n") (c ∷ text) then 3 else 0) text
mark_blank (suc ahead) (c ∷ text) = (if ahead == 0 then b'|' else c) ∷ mark_blank ahead text

abbrev pub is_delimiter : Text → ℕ → Bool
is_delimiter [] c = false
is_delimiter (d ∷ delimiters) c = (c == d) || is_delimiter delimiters c

abbrev pub skip_delimiters : Text → Text → Text
skip_delimiters delimiters [] = []
skip_delimiters delimiters (c ∷ text) =
    let rest = skip_delimiters delimiters text in
    if is_delimiter delimiters c then rest else c ∷ text

-- The text up to the first delimiter, and what is behind that.
abbrev pub split_token : Text → Text → Text × Text
split_token delimiters [] = ([], [])
split_token delimiters (c ∷ text) =
    let rest = split_token delimiters text in
    if is_delimiter delimiters c then ([], text) else (c ∷ rest.0, rest.1)

abbrev pub token_of : Text → Text → Option (Text × Text)
token_of delimiters [] = none
token_of delimiters (c ∷ text) = some (split_token delimiters (c ∷ text))

unfoldable pub strtok : Text → Text → Option (Text × Text)
strtok delimiters text = token_of delimiters (skip_delimiters delimiters text)

-- The tokens of a `while (field)` loop. Each takes a character, so the length is enough fuel.
unfoldable pub tokens_loop : ℕ → Text → Text → List Text
tokens_loop zero delimiters text = []
tokens_loop (suc fuel) delimiters text = elim (strtok delimiters text) [
  | none ↦ []
  | some found ↦ found.0 ∷ tokens_loop fuel delimiters found.1
]

unfoldable pub tokens : Text → Text → List Text
unfolding tokens_loop
tokens delimiters text = tokens_loop (length text) delimiters text

-- The pushes of the fields; `room` is 1 where the size counts the terminator.
unfoldable pub push_fields : ℕ → Queue Text → List Text → Outcome (Queue Text)
push_fields room fields [] = done fields
push_fields room fields (field ∷ rest) = do
  pushed ← Queue.push fields field (length field + room)
  push_fields room pushed rest

-- Without a leading space.
abbrev pub trimmed : Text → Text
trimmed [] = []
trimmed (c ∷ text) = if c == b' ' then text else c ∷ text

-- The key and the value of a field of a query or a body: `value[0]` is read of NULL where there is
-- no value.
unfoldable pub key_value : Text → Outcome (Text × Text)
key_value field = elim (strtok (codes "=") field) [
  | none ↦ fault
  | some found ↦ elim (strtok [] found.1) [
    | none ↦ fault
    | some value ↦ done (found.0, trimmed value.0)
  ]
]

-- A header field without a value is left out; a trailing carriage return is cut off.
abbrev pub chomp : Text → Text
chomp [] = []
chomp (c ∷ []) = if c == 13 then [] else c ∷ []
chomp (c ∷ d ∷ text) = c ∷ chomp (d ∷ text)

unfoldable pub header_key_value : Text → Outcome (Option (Text × Text))
header_key_value header = elim (strtok (codes ":") header) [
  | none ↦ done none
  | some found ↦ elim (strtok [] found.1) [
    | none ↦ done none
    | some value ↦ done (some (found.0, chomp (trimmed value.0)))
  ]
]

module _ (strcmp : Text → Text → ℤ) where
  abbrev pub insert_field : Fields → Text × Text → Outcome Fields
  insert_field fields pair =
      Dictionary.insert (compare_string_keys strcmp) fields pair.0 (length pair.0 + 1) pair.1

  -- The loop over `peek` and `pop`, one round for each field and one more.
  unfoldable pub drain_fields : ℕ → Queue Text → Fields → Outcome Fields
  drain_fields zero queue fields = fault
  drain_fields (suc fuel) queue fields = do
    field ← Queue.peek queue
    elim field [
      | none ↦ done fields
      | some field ↦ do
        pair ← key_value field
        inserted ← insert_field fields pair
        (popped, freed) ← Queue.pop queue
        drain_fields fuel popped inserted
    ]

  -- The fields between the ampersands, by way of the queue.
  unfoldable pub extract_fields : ℕ → Text → Outcome Fields
  extract_fields room text = do
    queue ← push_fields room queue_constructor (tokens (codes "&") text)
    drain_fields (length (tokens (codes "&") text) + 1) queue dictionary_constructor

  -- Where the query string is NULL, `strtok` has nothing left.
  unfoldable pub extract_request_query : Option Text → Outcome Fields
  extract_request_query none = extract_fields 0 []
  extract_request_query (some query_string) = extract_fields 0 query_string

  -- The token alone.
  abbrev pub token : Option (Text × Text) → Option Text
  token none = none
  token (some found) = some found.0

  abbrev pub insert_line : Fields → Text → Text → Outcome Fields
  insert_line fields key value =
      Dictionary.insert (compare_string_keys strcmp) fields key (length key + 1) value

  -- The request line and the query; a token that is NULL is read by `strlen`.
  unfoldable pub extract_request_line_fields : Text → Outcome (Fields × Fields)
  extract_request_line_fields request_line = elim (strtok (codes " ") request_line) [
    | none ↦ fault
    | some method ↦ elim (strtok (codes " ") method.1) [
      | none ↦ fault
      | some path ↦ elim (strtok [] path.1) [
        | none ↦ fault
        | some http_version ↦ elim (strtok (codes "?") path.0) [
          | none ↦ fault
          | some uri ↦ do
            with_method ← insert_line dictionary_constructor (codes "method") method.0
            query ← extract_request_query (token (strtok [] uri.1))
            with_uri ← insert_line with_method (codes "uri") uri.0
            line ← insert_line with_uri (codes "http_version") http_version.0
            done (line, query)
        ]
      ]
    ]
  ]

  -- The loop of `extract_header_fields` over `peek` and `pop`.
  unfoldable pub drain_headers : ℕ → Queue Text → Fields → Outcome Fields
  drain_headers zero queue fields = fault
  drain_headers (suc fuel) queue fields = do
    header ← Queue.peek queue
    elim header [
      | none ↦ done fields
      | some header ↦ do
        pair ← header_key_value header
        inserted ← elim pair [ none ↦ done fields | some pair ↦ insert_field fields pair ]
        (popped, freed) ← Queue.pop queue
        drain_headers fuel popped inserted
    ]

  unfoldable pub extract_header_fields : Text → Outcome Fields
  extract_header_fields header_fields = do
    headers ← push_fields 0 queue_constructor (tokens (codes "\n") header_fields)
    drain_headers (length (tokens (codes "\n") header_fields) + 1) headers dictionary_constructor

  -- The fields of the body where there is a Content-Type; a body that is NULL is then the text that
  -- `strtok` has left of the last header, which was freed.
  unfoldable pub extract_body : Fields → Option Text → Outcome Fields
  extract_body header_fields body = do
    content_type ←
        Dictionary.search (compare_string_keys strcmp) [] header_fields (codes "Content-Type")
    elim content_type [
      | none ↦ done dictionary_constructor
      | some content_type ↦ elim body [ none ↦ fault | some body ↦ extract_fields 1 body ]
    ]

  -- The request line's dictionary and the others; `strlen` is called on a part that is NULL.
  unfoldable pub http_request_constructor : Text → Outcome (Fields × Request)
  http_request_constructor request_string =
      elim (strtok (codes "\n") (mark_blank 0 request_string)) [
        | none ↦ fault
        | some request_line ↦ elim (strtok (codes "|") request_line.1) [
          | none ↦ fault
          | some header ↦ do
            (line, query) ← extract_request_line_fields request_line.0
            headers ← extract_header_fields header.0
            body ← extract_body headers (token (strtok [] header.1))
            done (line, record { header_fields = headers; body = body; query = query })
        ]
      ]

-- The keys and the entries that are freed, of the request line first.
pub http_request_destructor : Fields × Request → Outcome (List (List Text × List (Entry Text Text)))
http_request_destructor request = do
  line ← dictionary_destructor request.0
  header ← dictionary_destructor request.1.header_fields
  body ← dictionary_destructor request.1.body
  query ← dictionary_destructor request.1.query
  done (line ∷ header ∷ body ∷ query ∷ [])
