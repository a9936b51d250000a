-- ===== src/HttpServer/Resources.antt =====
-- src/networking/http/http_server.c: what is answered where no route is found, and the part of
-- `http_handler` from the parsed request to the response. Writing the response to the socket is
-- not modelled. A string of C in memory ends at the first 0.
use file_share_server.Common.{
  ℕ, zero, suc, ◌+◌, ◌==◌, ltb, leb, Option, none, some, List, [], ◌∷◌, ◌++◌, take, drop, length, ℤ,
  pos, int_eq, if◌then◌else◌, Outcome, done, fault, ◌>>=◌,
}
use file_share_server.Base64.{codes}
use file_share_server.Database.{Text, System}
use file_share_server.Model.Support.{fit, c_string}

-- `strcmp(last_dot, extension) == 0`, and what follows it.
abbrev pub by_extension : (Text → Text → ℤ) → Text → Text → Text → Text → Text
by_extension strcmp last_dot extension content_type rest =
    if int_eq (strcmp last_dot extension) (pos 0) then content_type else rest

abbrev pub content_type_of : (Text → Text → ℤ) → Option Text → Text
content_type_of strcmp none = codes "application/octet-stream"
content_type_of strcmp (some last_dot) =
    by_extension strcmp last_dot (codes ".css") (codes "text/css") (
      by_extension strcmp last_dot (codes ".csv") (codes "text/csv") (
        by_extension strcmp last_dot (codes ".gif") (codes "image/gif") (
          by_extension strcmp last_dot (codes ".htm") (codes "text/html") (
            by_extension strcmp last_dot (codes ".html") (codes "text/html") (
              by_extension strcmp last_dot (codes ".ico") (codes "image/x-icon") (
                by_extension strcmp last_dot (codes ".jpeg") (codes "image/jpeg") (
                  by_extension strcmp last_dot (codes ".jpg") (codes "image/jpeg") (
                    by_extension strcmp last_dot (codes ".js") (codes "application/javascript") (
                      by_extension strcmp last_dot (codes ".json") (codes "application/json") (
                        by_extension strcmp last_dot (codes ".png") (codes "image/png") (
                          by_extension strcmp last_dot (codes ".pdf") (codes "application/pdf") (
                            by_extension strcmp last_dot (codes ".svg") (codes "image/svg+xml") (
                              by_extension strcmp last_dot (codes ".txt") (codes "text/plain")
                                (codes "application/octet-stream"))))))))))))))

-- What `server_resource` answers with.
pub data Choice : Type 0 where
  bad_request : Choice
  not_found : Choice
  serve : Text → Choice

-- The bytes from `offset` on are replaced by those given.
abbrev pub store : ℕ → List ℕ → List ℕ → List ℕ
store offset bytes buffer = take offset buffer ++ bytes ++ drop (offset + length bytes) buffer

-- The first byte that is 255 reads as EOF, which ends the file.
abbrev pub until_eof : List ℕ → List ℕ
until_eof [] = []
until_eof (c ∷ cs) = let rest = until_eof cs in if c == 255 then [] else c ∷ rest

-- `_455`.
abbrev pub page_455 : Text
page_455 = codes "HTTP/1.1 455 Method Not Allowed\r\nConnection: close\r\nContent-Length: 0\r\n\r\n"

module _ {W : Type 0} (system : System W) where
  unfoldable pub get_content_type : Text → Text
  get_content_type uri = content_type_of system.strcmp (system.strrchr uri b'.')

  -- The files that are there, one after the other.
  abbrev pub template_bytes : List Text → W → List ℕ
  template_bytes [] w = []
  template_bytes (path ∷ paths) w = elim (system.fopen path w) [
    | none ↦ template_bytes paths w
    | some bytes ↦ until_eof bytes ++ template_bytes paths w
  ]

  -- The string at the start of the buffer of 30000 bytes: no 0 is written behind the files.
  unfoldable pub render_template : List Text → W → Outcome Text
  render_template paths w =
      if leb (length (template_bytes paths w)) 30000
      then done (c_string (store 0 (template_bytes paths w) system.heap))
      else fault

  -- A status line with the header, and a page.
  unfoldable pub error_page : Text → Text → W → Outcome Text
  error_page head path w = render_template (path ∷ []) w >>= λ template_response.
      fit (length template_response + (length head + 10)) (
        head
        ++ system.print_long (pos (length template_response))
        ++ codes "\r\n\r\n"
        ++ template_response)

  -- `_404`.
  unfoldable pub page_404 : W → Outcome Text
  page_404 =
      error_page (codes "HTTP/1.1 404 Not Found\r\nConnection: close\r\nContent-Length: ")
        (codes "public/404.html")

  -- `_400`.
  unfoldable pub page_400 : W → Outcome Text
  page_400 =
      error_page (codes "HTTP/1.1 400 Bad Request\r\nConnection: close\r\nContent-Length: ")
        (codes "public/400.html")

  -- `fopen`, `fseek` and `ftell` of src/systems/files.c.
  unfoldable pub get_file_size : Text → W → Outcome ℕ
  get_file_size path w = elim (system.fopen path w) [
    | none ↦ fault
    | some bytes ↦ done (length bytes)
  ]

  -- `memcpy(buffer + *size, temp, r)` behind what is written of the buffer of 1048576 bytes.
  abbrev pub append_bytes : List ℕ → List ℕ → Outcome (List ℕ)
  append_bytes buffer bytes =
      if leb (length buffer + length bytes) 1048576 then done (buffer ++ bytes) else fault

  -- The loop over `fread`, at most 1024 bytes at a time; `*size` is the length of what is written.
  -- One round more than there are bytes is enough fuel.
  unfoldable pub copy_loop : ℕ → List ℕ → List ℕ → Outcome (List ℕ)
  copy_loop zero bytes buffer = fault
  copy_loop (suc fuel) [] buffer = done buffer
  copy_loop (suc fuel) (b ∷ bytes) buffer =
      append_bytes buffer (take 1024 (b ∷ bytes)) >>= copy_loop fuel (drop 1024 (b ∷ bytes))

  -- The header in front of a file.
  unfoldable pub file_header : Text → ℕ → Text
  file_header full_path file_size =
      codes "HTTP/1.1 200 OK\r\nConnection: close\r\nContent-Length: "
      ++ system.print_long (pos file_size)
      ++ codes "\r\nContent-Type: "
      ++ get_content_type full_path
      ++ codes "\r\n\r\n"

  -- The first `*size` bytes of the buffer, where the file at `full_path` has these bytes.
  unfoldable pub file_response : Text → List ℕ → ℕ → Outcome Text
  file_response full_path bytes file_size =
      copy_loop (suc (length bytes)) bytes (file_header full_path file_size)

  -- `uri = "/index.html"` for "/".
  abbrev pub index : Text → Text
  index uri = if int_eq (system.strcmp uri (codes "/")) (pos 0) then codes "/index.html" else uri

  -- The tests of the URI.
  unfoldable pub choose : Text → Choice
  choose uri =
      if ltb 100 (length (index uri))
      then bad_request
      else if system.strstr (index uri) (codes "..")
      then not_found
      else serve (codes "public" ++ index uri)

  -- The file, where it is there, and small enough.
  unfoldable pub serve_file : Text → W → Outcome Text
  serve_file full_path w = elim (system.fopen full_path w) [
    | none ↦ page_404 w
    | some bytes ↦ get_file_size full_path w >>= λ file_size.
        if ltb 1048500 file_size then page_400 w else file_response full_path bytes file_size
  ]

  unfoldable pub server_resource : Text → W → Outcome Text
  server_resource uri w = elim (choose uri) [
    | bad_request ↦ page_400 w
    | not_found ↦ page_404 w
    | serve path ↦ fit 128 path >>= λ full_path. serve_file full_path w
  ]
