-- ===== src/Tests/Orders.antt =====
-- A comparison of numbers, as a `compare` function of a list or tree and as the `strcmp` of a
-- dictionary.
use file_share_server.Common.{
  ℕ, ◌≡◌, ◌≢◌, ltb, if◌then◌else◌, ℤ, pos, negsuc, arith, List, [], ◌∷◌, zero, suc, get_elem?, some,
}
use file_share_server.Comparator.{IsComparator}
use file_share_server.LinkedList.Search.{IsSorted}
use file_share_server.Dictionary.Strings.{IsStrcmp}

abbrev pub compare_numbers : ℕ → ℕ → ℤ
compare_numbers a b = if ltb b a then pos 1 else if ltb a b then negsuc 0 else pos 0

pub compare_numbers-IsComparator : IsComparator compare_numbers
compare_numbers-IsComparator = record {
  three_way = λ a b. ground arith;
  same_self = λ a. ground arith;
  less_of_greater = λ a b h. ground arith;
  greater_of_less = λ a b h. ground arith;
  greater_trans = λ a b c h k. ground arith;
  same_left = λ a b c h. ground arith;
  same_right = λ a b c h. ground arith;
}

pub compare_numbers-IsStrcmp : IsStrcmp compare_numbers
compare_numbers-IsStrcmp = record {
  zero_iff = λ a b. ground arith;
  flips = λ a b. ground arith;
  positive_trans = λ a b c h k. ground arith;
}

abbrev pub sorted_items : List ℕ
sorted_items = 1 ∷ 3 ∷ 5 ∷ []

below_5 : (j y : ℕ) → get_elem? (3 ∷ 5 ∷ []) j ≡ some y → compare_numbers 1 y ≢ pos 1
below_5 zero y h = ground arith
below_5 (suc zero) y h = ground arith
below_5 (suc (suc j)) y h = cc

pub sorted_items-IsSorted : IsSorted compare_numbers sorted_items
sorted_items-IsSorted zero zero x y l hx hy = absurd (omega arith)
sorted_items-IsSorted zero (suc zero) x y l hx hy = ground arith
sorted_items-IsSorted zero (suc (suc zero)) x y l hx hy = ground arith
sorted_items-IsSorted (suc zero) zero x y l hx hy = absurd (omega arith)
sorted_items-IsSorted (suc zero) (suc zero) x y l hx hy = absurd (omega arith)
sorted_items-IsSorted (suc zero) (suc (suc zero)) x y l hx hy = ground arith
sorted_items-IsSorted (suc (suc i)) (suc (suc zero)) x y l hx hy = absurd (omega arith)
sorted_items-IsSorted (suc (suc i)) zero x y l hx hy = absurd (omega arith)
sorted_items-IsSorted (suc (suc i)) (suc zero) x y l hx hy = absurd (omega arith)
sorted_items-IsSorted i (suc (suc (suc j))) x y l hx hy = cc
