-- ===== src/Tests/Strings.antt =====
-- The string functions of the tests keep the C standard's promises.
use file_share_server.Common.{
  ◌≡◌, refl, ap, ◌↔◌, inl, inr, Bool-cases, true, [], ◌∷◌, ◌++◌, pos, int_lt, arith,
}
use file_share_server.Dictionary.Strings.{IsStrcmp}
use file_share_server.Database.{Text}
use file_share_server.HttpServer.Paths.{Contains, IsStrstr}
use file_share_server.Tests.Server.{strcmp, is_prefix, strstr}

pub strcmp_refl : (a : Text) → strcmp a a ≡ pos 0
strcmp_refl [] = refl
strcmp_refl (x ∷ a) = ground (arith, strcmp_refl a)

pub strcmp-zero : (a b : Text) → strcmp a b ≡ pos 0 → a ≡ b
strcmp-zero [] [] h = refl
strcmp-zero [] (y ∷ b) h = cc
strcmp-zero (x ∷ a) [] h = ground arith
strcmp-zero (x ∷ a) (y ∷ b) h = ground (arith, strcmp-zero a b)

strcmp-flips :
    (a b : Text) → (int_lt (pos 0) (strcmp a b) ≡ true) ↔ (int_lt (strcmp b a) (pos 0) ≡ true)
strcmp-flips [] [] = ground arith
strcmp-flips [] (y ∷ b) = ground arith
strcmp-flips (x ∷ a) [] = ground arith
strcmp-flips (x ∷ a) (y ∷ b) = ground (arith, strcmp-flips a b)

strcmp-positive :
    (a b c : Text)
    → int_lt (pos 0) (strcmp a b) ≡ true
    → int_lt (pos 0) (strcmp b c) ≡ true
    → int_lt (pos 0) (strcmp a c) ≡ true
strcmp-positive [] [] c h k = ground arith
strcmp-positive [] (y ∷ b) c h k = ground arith
strcmp-positive (x ∷ a) [] [] h k = ground arith
strcmp-positive (x ∷ a) [] (z ∷ c) h k = ground arith
strcmp-positive (x ∷ a) (y ∷ b) [] h k = ground arith
strcmp-positive (x ∷ a) (y ∷ b) (z ∷ c) h k = ground (arith, strcmp-positive a b c)

pub strcmp-IsStrcmp : IsStrcmp strcmp
strcmp-IsStrcmp = record {
  zero_iff = λ a b. (strcmp-zero a b, λ e. rw e (strcmp_refl b));
  flips = strcmp-flips;
  positive_trans = strcmp-positive;
}

prefixed :
    (part text : Text) → is_prefix part text ≡ true → (behind : Text) × (text ≡ part ++ behind)
prefixed [] text h = (text, refl)
prefixed (a ∷ part) [] h = cc
prefixed (a ∷ part) (b ∷ text) h =
    let (behind, e) = prefixed part text (ground arith) in
    let same : a ≡ b = ground arith in (behind, rw (same, e))

is_prefix-append : (part behind : Text) → is_prefix part (part ++ behind) ≡ true
is_prefix-append [] behind = refl
is_prefix-append (a ∷ part) behind = ground (arith, is_prefix-append part behind)

strstr-Contains : (text part : Text) → strstr text part ≡ true → Contains text part
strstr-Contains [] part h = let (behind, e) = prefixed part [] h in ([], behind, e)
strstr-Contains (a ∷ text) part h = elim (Bool-cases (is_prefix part (a ∷ text))) [
  | inl here ↦ let (behind, e) = prefixed part (a ∷ text) here in ([], behind, e)
  | inr away ↦
      let (before, behind, e) = strstr-Contains text part (ground arith) in
      (a ∷ before, behind, ap (λ t. a ∷ t) e)
]

strstr-first : (text part : Text) → is_prefix part text ≡ true → strstr text part ≡ true
strstr-first [] part h = h
strstr-first (a ∷ text) part h = ground arith

Contains-strstr : (before behind part : Text) → strstr (before ++ part ++ behind) part ≡ true
Contains-strstr [] behind part = strstr-first (part ++ behind) part (is_prefix-append part behind)
Contains-strstr (a ∷ before) behind part = ground (arith, Contains-strstr before behind part)

pub strstr-IsStrstr : IsStrstr strstr
strstr-IsStrstr = record {
  found_iff = λ text part. (strstr-Contains text part, λ c. rw c.2 (Contains-strstr c.0 c.1 part));
}
