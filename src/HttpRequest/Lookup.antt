-- ===== src/HttpRequest/Lookup.antt =====
-- What is found in the fields of a body of src/networking/http/http_request.c.
use file_share_server.Common.{Option, none, some, List, [], ◌∷◌, if◌then◌else◌, ℤ, pos, int_eq}
use file_share_server.Dictionary
use file_share_server.Dictionary.Strings.{IsStrcmp}
use file_share_server.Database.{Text}

module _ (strcmp : Text → Text → ℤ) (s : IsStrcmp strcmp) where
  -- The value of the first pair with the key.
  unfoldable pub first_value : List (Text × Text) → Text → Option Text
  first_value [] key = none
  first_value (pair ∷ pairs) key =
      if int_eq (strcmp pair.0 key) (pos 0) then some pair.1 else first_value pairs key

  abbrev or_else : Option Text → Option Text → Option Text
  or_else none other = other
  or_else (some value) other = some value
