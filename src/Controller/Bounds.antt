-- ===== src/Controller/Bounds.antt =====
-- The buffer of `format_200_with_content_type`.
use file_share_server.Common.{
  ◌+◌, ◌≤◌, ◌≡◌, ltb, true, ℤ, pos, length, length-append, done, ◌++◌, arith,
}
use file_share_server.Base64.{codes}
use file_share_server.Database.{Text}
use file_share_server.Controller.Response.{response_text, json_response, json_type}

-- The text of a JSON response fits its buffer where the length of the content has at most nine
-- digits; it is then 90 characters, these digits and the content.
pub response_text_fits :
    (print_long : ℤ → Text) (content : Text)
    → length (print_long (pos (length content))) ≤ 9
    → (text : Text) × (response_text print_long (json_response content) ≡ done text)
      × (length text ≡ 90 + (length (print_long (pos (length content))) + length content))
unfolding response_text
response_text_fits print_long content h =
    let digits = print_long (pos (length content)) in
    let rest : Text =
      codes "\r\nContent-Type: "
      ++ (json_type ++ (codes "\r\n\r\n" ++ (content ++ codes "\r\n"))) in
    let text : Text =
      codes "HTTP/1.1 200 OK\r\n"
      ++ (codes "Connection: close\r\nContent-Length: " ++ (digits ++ rest)) in
    let size : length text ≡ 90 + (length digits + length content) =
      omega (arith, length-append digits rest, length-append content (codes "\r\n")) in
    let fits : ltb (length text) (length content + 100) ≡ true = ground (arith, size) in
    (text, rw fits, size)
