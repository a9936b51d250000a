-- ===== src/Tree/Comparisons.antt =====
-- The comparisons of src/data_structures/trees/binary_search_tree.c. Data are given by the values
-- behind their pointers; a `char` is a number that may be negative.
use file_share_server.Common.{ℤ, pos, negsuc, int_lt, if◌then◌else◌, List, ℕ, ◌≡◌, arith}
use file_share_server.Comparator.{IsComparator}

abbrev pub binary_search_tree_int_compare : ℤ → ℤ → ℤ
binary_search_tree_int_compare data_one data_two =
    if int_lt data_two data_one then pos 1 else if int_lt data_one data_two then negsuc 0 else pos 0

abbrev pub binary_search_tree_char_compare : ℤ → ℤ → ℤ
binary_search_tree_char_compare data_one data_two =
    if int_lt data_two data_one then pos 1 else if int_lt data_one data_two then negsuc 0 else pos 0

module _ (strcmp : List ℕ → List ℕ → ℤ) where
  abbrev pub binary_search_tree_str_compare : List ℕ → List ℕ → ℤ
  binary_search_tree_str_compare data_one data_two =
      if int_lt (pos 0) (strcmp data_one data_two)
      then pos 1
      else if int_lt (strcmp data_one data_two) (pos 0)
      then negsuc 0
      else pos 0

same_int : (a b : ℤ) → binary_search_tree_int_compare a b ≡ pos 0 → a ≡ b
same_int (pos a) (pos b) h = ground arith
same_int (pos a) (negsuc b) h = ground arith
same_int (negsuc a) (pos b) h = ground arith
same_int (negsuc a) (negsuc b) h = ground arith

compared_self : (a : ℤ) → binary_search_tree_int_compare a a ≡ pos 0
compared_self (pos a) = ground arith
compared_self (negsuc a) = ground arith

less_of_greater :
    (a b : ℤ)
    → binary_search_tree_int_compare a b ≡ pos 1
    → binary_search_tree_int_compare b a ≡ negsuc 0
less_of_greater (pos a) (pos b) h = ground arith
less_of_greater (pos a) (negsuc b) h = ground arith
less_of_greater (negsuc a) (pos b) h = ground arith
less_of_greater (negsuc a) (negsuc b) h = ground arith

greater_of_less :
    (a b : ℤ)
    → binary_search_tree_int_compare a b ≡ negsuc 0
    → binary_search_tree_int_compare b a ≡ pos 1
greater_of_less (pos a) (pos b) h = ground arith
greater_of_less (pos a) (negsuc b) h = ground arith
greater_of_less (negsuc a) (pos b) h = ground arith
greater_of_less (negsuc a) (negsuc b) h = ground arith

greater_trans :
    (a b c : ℤ)
    → binary_search_tree_int_compare a b ≡ pos 1
    → binary_search_tree_int_compare b c ≡ pos 1
    → binary_search_tree_int_compare a c ≡ pos 1
greater_trans (pos a) (pos b) (pos c) h k = ground arith
greater_trans (pos a) (pos b) (negsuc c) h k = ground arith
greater_trans (pos a) (negsuc b) (pos c) h k = ground arith
greater_trans (pos a) (negsuc b) (negsuc c) h k = ground arith
greater_trans (negsuc a) (pos b) (pos c) h k = ground arith
greater_trans (negsuc a) (pos b) (negsuc c) h k = ground arith
greater_trans (negsuc a) (negsuc b) (pos c) h k = ground arith
greater_trans (negsuc a) (negsuc b) (negsuc c) h k = ground arith

-- The comparison of two numbers is lawful.
pub binary_search_tree_int_compare-IsComparator : IsComparator binary_search_tree_int_compare
binary_search_tree_int_compare-IsComparator = record {
  three_way = λ a b. ground arith;
  same_self = compared_self;
  less_of_greater = less_of_greater;
  greater_of_less = greater_of_less;
  greater_trans = greater_trans;
  same_left = λ a b c h. rw (same_int a b h);
  same_right = λ a b c h. rw (same_int a b h);
}
