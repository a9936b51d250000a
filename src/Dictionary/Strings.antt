-- ===== src/Dictionary/Strings.antt =====
-- `compare_string_keys` of dictionary.c is a lawful comparison where `strcmp` is one.
use file_share_server.Common.{◌≡◌, ◌↔◌, ℤ, pos, int_lt, true, arith}
use file_share_server.Comparator.{IsComparator}
use file_share_server.Dictionary.{Entry, compare_string_keys}

-- What the C standard says of `strcmp`.
pub record IsStrcmp {K : Type 0} (strcmp : K → K → ℤ) : Type 0 where
  pub zero_iff : (a b : K) → (strcmp a b ≡ pos 0) ↔ (a ≡ b)
  pub flips :
      (a b : K) → (int_lt (pos 0) (strcmp a b) ≡ true) ↔ (int_lt (strcmp b a) (pos 0) ≡ true)
  pub positive_trans :
      (a b c : K)
      → int_lt (pos 0) (strcmp a b) ≡ true
      → int_lt (pos 0) (strcmp b c) ≡ true
      → int_lt (pos 0) (strcmp a c) ≡ true

module _ {K V : Type 0} (strcmp : K → K → ℤ) (s : IsStrcmp strcmp) where
  abbrev pub by_key : Entry K V → Entry K V → ℤ
  by_key = compare_string_keys strcmp

  pub same_key : (a b : Entry K V) → by_key a b ≡ pos 0 → a.key ≡ b.key
  unfolding compare_string_keys
  same_key a b h = ground (arith, s.zero_iff a.key b.key)

  pub compare_string_keys-IsComparator : IsComparator by_key
  unfolding compare_string_keys
  compare_string_keys-IsComparator = record {
    three_way = λ a b. ground arith;
    same_self = λ a. ground (arith, s.zero_iff a.key a.key);
    less_of_greater = λ a b h. ground (arith, s.flips a.key b.key, s.flips b.key a.key);
    greater_of_less = λ a b h. ground (arith, s.flips a.key b.key, s.flips b.key a.key);
    greater_trans = λ a b c h k. ground (arith, s.positive_trans a.key b.key c.key);
    same_left = λ a b c h. rw (same_key a b h);
    same_right = λ a b c h. rw (same_key a b h);
  }
