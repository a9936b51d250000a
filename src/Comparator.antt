-- ===== src/Comparator.antt =====
-- What the containers ask of the comparison functions that they are given: an `int` result of 1,
-- 0 or -1 that orders the data, where data that compare as equal need not be the same.
use file_share_server.Common.{◌≡◌, ◌⊎◌, ℤ, pos, negsuc}

pub record IsComparator {ℓ} {A : Type ℓ} (cmp : A → A → ℤ) : Type ℓ where
  pub three_way : (a b : A) → (cmp a b ≡ pos 1) ⊎ ((cmp a b ≡ pos 0) ⊎ (cmp a b ≡ negsuc 0))
  pub same_self : (a : A) → cmp a a ≡ pos 0
  pub less_of_greater : (a b : A) → cmp a b ≡ pos 1 → cmp b a ≡ negsuc 0
  pub greater_of_less : (a b : A) → cmp a b ≡ negsuc 0 → cmp b a ≡ pos 1
  pub greater_trans : (a b c : A) → cmp a b ≡ pos 1 → cmp b c ≡ pos 1 → cmp a c ≡ pos 1
  pub same_left : (a b c : A) → cmp a b ≡ pos 0 → cmp a c ≡ cmp b c
  pub same_right : (a b c : A) → cmp a b ≡ pos 0 → cmp c a ≡ cmp c b
