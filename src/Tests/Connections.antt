-- ===== src/Tests/Connections.antt =====
-- The theorems on pools and on the response buffer at concrete data.
use file_share_server.Common.{
  ◌≡◌, ◌↔◌, refl, true, some, none, [], ◌∷◌, ℤ, pos, negsuc, int_lt, done, length, ◌+◌, arith,
}
use file_share_server.Base64.{codes}
use file_share_server.Tree
use file_share_server.Dictionary
use file_share_server.Dictionary.{compare_string_keys}
use file_share_server.Dictionary.Strings.{IsStrcmp}
use file_share_server.Database.{Text, Pools, get_pool, connect_db}
use file_share_server.Database.Pools.{get_pool-connect_db}
use file_share_server.Controller.Response.{response_text, json_response}
use file_share_server.Controller.Bounds.{response_text_fits}
use file_share_server.Tests.Server.{strcmp}

strcmp_zero : (a b : Text) → strcmp a b ≡ pos 0 → a ≡ b
strcmp_zero [] [] h = refl
strcmp_zero [] (y ∷ ys) h = cc
strcmp_zero (x ∷ xs) [] h = cc
strcmp_zero (x ∷ xs) (y ∷ ys) h = ground (arith, strcmp_zero xs ys)

strcmp_self : (a : Text) → strcmp a a ≡ pos 0
strcmp_self [] = refl
strcmp_self (x ∷ xs) = ground (arith, strcmp_self xs)

strcmp_flips :
    (a b : Text) → (int_lt (pos 0) (strcmp a b) ≡ true) ↔ (int_lt (strcmp b a) (pos 0) ≡ true)
strcmp_flips [] [] = ground arith
strcmp_flips [] (y ∷ ys) = ground arith
strcmp_flips (x ∷ xs) [] = ground arith
strcmp_flips (x ∷ xs) (y ∷ ys) = ground (arith, strcmp_flips xs ys)

strcmp_trans :
    (a b c : Text)
    → int_lt (pos 0) (strcmp a b) ≡ true
    → int_lt (pos 0) (strcmp b c) ≡ true
    → int_lt (pos 0) (strcmp a c) ≡ true
strcmp_trans [] [] c h k = ground arith
strcmp_trans [] (y ∷ ys) c h k = ground arith
strcmp_trans (x ∷ xs) [] [] h k = refl
strcmp_trans (x ∷ xs) [] (z ∷ zs) h k = ground arith
strcmp_trans (x ∷ xs) (y ∷ ys) [] h k = refl
strcmp_trans (x ∷ xs) (y ∷ ys) (z ∷ zs) h k = ground (arith, strcmp_trans xs ys zs)

strcmp-IsStrcmp : IsStrcmp strcmp
strcmp-IsStrcmp = record {
  zero_iff = λ a b. (strcmp_zero a b, λ e. rw e (strcmp_self b));
  flips = strcmp_flips;
  positive_trans = strcmp_trans;
}

abbrev no_pools : Pools
no_pools = record { bst = Tree.null; keys = record { items = []; count = 0 } }

nothing_found :
    Dictionary.search (compare_string_keys strcmp) none no_pools (codes "default") ≡ done none
unfolding Dictionary.search Dictionary.entry_constructor Tree.search Tree.iterate Tree.cursor_data
nothing_found = refl

get_pool-connect_db_example :
    (pools : Pools) × (connect_db strcmp (λ path. true) no_pools (codes "test.sqlite") none
      ≡ done (pos 0, pools))
    × (get_pool strcmp pools none
        ≡ done (some (record { path = codes "test.sqlite"; name = codes "default" })))
get_pool-connect_db_example =
    get_pool-connect_db strcmp strcmp-IsStrcmp (λ path. true) no_pools (codes "test.sqlite") none
      (record { counted = refl }) (omega arith) nothing_found

abbrev one_digit : ℤ → Text
one_digit (pos n) = (n + 48) ∷ []
one_digit (negsuc n) = []

response_text_fits_example :
    (text : Text) × (response_text one_digit (json_response (codes "[]")) ≡ done text)
    × (length text ≡ 93)
response_text_fits_example = response_text_fits one_digit (codes "[]") (omega arith)
