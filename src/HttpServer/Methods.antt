-- ===== src/HttpServer/Methods.antt =====
-- `is_match_method` of src/networking/http/http_server.c.
use file_share_server.Common.{
  ◌≡◌, refl, Bool, true, false, List, [], ◌∷◌, ℤ, pos, int_eq, if◌then◌else◌, arith,
}
use file_share_server.Base64.{codes}
use file_share_server.Dictionary.Strings.{IsStrcmp}
use file_share_server.Database.{Text}
use file_share_server.Model.Support.{text_eq}
use file_share_server.HttpServer.{
  HttpMethod, get, post, put, delete, head, options, trace, connect, patch, method_code, code_of,
  match_loop, is_match_method,
}

-- The names that a request line gives to the methods.
unfoldable pub method_name : HttpMethod → Text
method_name get = codes "GET"
method_name post = codes "POST"
method_name put = codes "PUT"
method_name delete = codes "DELETE"
method_name head = codes "HEAD"
method_name options = codes "OPTIONS"
method_name trace = codes "TRACE"
method_name connect = codes "CONNECT"
method_name patch = codes "PATCH"

-- The code is one of the methods.
unfoldable pub has_code : List ℤ → ℤ → Bool
has_code [] code = false
has_code (method ∷ methods) code =
    let rest = has_code methods code in if int_eq method code then true else rest

text_eq_refl : (a : Text) → text_eq a a ≡ true
text_eq_refl [] = refl
text_eq_refl (x ∷ a) = ground (arith, text_eq_refl a)

pub text_eq-true : (a b : Text) → text_eq a b ≡ true → a ≡ b
text_eq-true [] [] h = refl
text_eq-true [] (y ∷ b) h = cc
text_eq-true (x ∷ a) [] h = cc
text_eq-true (x ∷ a) (y ∷ b) h = ground (arith, text_eq-true a b)

module _ (strcmp : Text → Text → ℤ) (s : IsStrcmp strcmp) (left : ℤ) where
  pub same_text : (a b : Text) → int_eq (strcmp a b) (pos 0) ≡ text_eq a b
  same_text a b = ground (arith, s.zero_iff a b, text_eq-true a b, text_eq_refl a)

  -- An assignment of `is_match_method`, by the texts.
  abbrev assigned : Text → Text → HttpMethod → ℤ → ℤ
  assigned method name value code = if text_eq method name then method_code value else code

  code_of-texts :
      (method : Text)
      → code_of strcmp left method
        ≡ assigned method (codes "PATCH") patch (
            assigned method (codes "TRACE") trace (
              assigned method (codes "CONNECT") connect (
                assigned method (codes "OPTIONS") options (
                  assigned method (codes "HEAD") head (
                    assigned method (codes "DELETE") delete (
                      assigned method (codes "PUT") put (
                        assigned method
                          (codes "POST")
                          post
                          (assigned method (codes "GET") get left))))))))
  unfolding code_of
  code_of-texts method = rw (
    same_text method (codes "GET"),
    same_text method (codes "POST"),
    same_text method (codes "PUT"),
    same_text method (codes "DELETE"),
    same_text method (codes "HEAD"),
    same_text method (codes "OPTIONS"),
    same_text method (codes "CONNECT"),
    same_text method (codes "TRACE"),
    same_text method (codes "PATCH"),
  )

  code_of-method_name : (m : HttpMethod) → code_of strcmp left (method_name m) ≡ method_code m
  unfolding method_name
  code_of-method_name get = code_of-texts (codes "GET")
  code_of-method_name post = code_of-texts (codes "POST")
  code_of-method_name put = code_of-texts (codes "PUT")
  code_of-method_name delete = code_of-texts (codes "DELETE")
  code_of-method_name head = code_of-texts (codes "HEAD")
  code_of-method_name options = code_of-texts (codes "OPTIONS")
  code_of-method_name trace = code_of-texts (codes "TRACE")
  code_of-method_name connect = code_of-texts (codes "CONNECT")
  code_of-method_name patch = code_of-texts (codes "PATCH")

  match_loop-has :
      (methods : List ℤ) (code : ℤ)
      → match_loop methods code ≡ (if has_code methods code then 1 else 0)
  unfolding match_loop has_code
  match_loop-has [] code = refl
  match_loop-has (m ∷ methods) code = ground (arith, match_loop-has methods code)

  -- Under a lawful `strcmp`, for the name of one of the nine methods: a route is matched exactly where
  -- its methods have the code of that name.
  pub is_match_method-has :
      (m : HttpMethod) (methods : List ℤ)
      → is_match_method strcmp left (method_name m) methods
        ≡ (if has_code methods (method_code m) then 1 else 0)
  unfolding is_match_method
  is_match_method-has m methods =
      rw (code_of-method_name m) (match_loop-has methods (method_code m))
