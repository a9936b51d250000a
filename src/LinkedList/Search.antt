-- ===== src/LinkedList/Search.antt =====
-- `binary_search_ll` of linked_list.c, under a comparison that orders the data.
use file_share_server.Common.{
  ℕ, zero, suc, ◌+◌, ◌/◌, ◌≤◌, ◌<◌, ◌≡◌, ◌≢◌, ◌⊎◌, refl, ltb, ◌==◌, false, Bool-cases, inl, inr,
  List, [], ◌∷◌, some, ℤ, pos, negsuc, Outcome, done, arith, length, get_elem?, ltb→lt,
}
use file_share_server.Comparator.{IsComparator}
use file_share_server.LinkedList.{LinkedList, search_loop, binary_search}
use file_share_server.LinkedList.Access.{IsValid, get_elem?_outside, retrieve-get_elem?}

module _ {A : Type 0} where
  -- In ascending order under the comparison.
  abbrev pub IsSorted : (A → A → ℤ) → List A → Type 0
  IsSorted cmp xs =
      (i j : ℕ) (x y : A)
      → i < j
      → get_elem? xs i ≡ some x
      → get_elem? xs j ≡ some y
      → cmp x y ≢ pos 1

  abbrev pub IsAbsent : (A → A → ℤ) → A → List A → Type 0
  IsAbsent cmp query xs = (i : ℕ) (x : A) → get_elem? xs i ≡ some x → cmp x query ≢ pos 0

  -- 1 where a datum of the list compares as equal to the query, 0 where none does.
  abbrev pub Decided : (A → A → ℤ) → A → List A → Outcome ℕ → Type 0
  Decided cmp query xs r =
      ((r ≡ done 1) × ((i : ℕ) × (x : A) × (get_elem? xs i ≡ some x) × (cmp x query ≡ pos 0)))
      ⊎ ((r ≡ done 0) × IsAbsent cmp query xs)

get_elem?_inside {ℓ} :
    {A : Type ℓ} (xs : List A) (n : ℕ) → n < length xs → (x : A) × (get_elem? xs n ≡ some x)
get_elem?_inside [] n h = absurd (omega arith)
get_elem?_inside (x ∷ xs) zero h = (x, refl)
get_elem?_inside (x ∷ xs) (suc n) h = get_elem?_inside xs n (omega arith)

module _ {A : Type 0} (cmp : A → A → ℤ) (c : IsComparator cmp) (query : A) (l : LinkedList A)
    (v : IsValid l) (s : IsSorted cmp l.items) (small : length l.items ≤ 1073741823) where
  less_before :
      (i j : ℕ) (x y : A)
      → i ≤ j
      → get_elem? l.items i ≡ some x
      → get_elem? l.items j ≡ some y
      → cmp y query ≡ negsuc 0
      → cmp x query ≡ negsuc 0
  less_before i j x y h p q r = ground (
    arith,
    s i j x y,
    c.three_way x y,
    c.same_left x y query,
    c.greater_of_less x y,
    c.greater_of_less y query,
    c.greater_trans query y x,
    c.less_of_greater query x,
  )

  greater_after :
      (i j : ℕ) (x y : A)
      → j ≤ i
      → get_elem? l.items i ≡ some x
      → get_elem? l.items j ≡ some y
      → cmp y query ≡ pos 1
      → cmp x query ≡ pos 1
  greater_after i j x y h p q r = ground (
    arith,
    s j i y x,
    c.three_way y x,
    c.same_left y x query,
    c.greater_of_less y x,
    c.greater_trans x y query,
  )

  -- Neither below `lo` nor from `hi` on does a datum match.
  abbrev Outside : ℕ → ℕ → Type 0
  Outside lo hi =
      (i : ℕ) (x : A) → (i < lo) ⊎ (hi ≤ i) → get_elem? l.items i ≡ some x → cmp x query ≢ pos 0

  Outside-below :
      {lo hi j : ℕ} {y : A}
      → Outside lo hi
      → get_elem? l.items j ≡ some y
      → cmp y query ≡ pos 1
      → Outside lo j
  Outside-below {hi} {j} {y} out g greater i x (inl h) e = out i x (inl h) e
  Outside-below {hi} {j} {y} out g greater i x (inr h) e =
      let r = greater_after i j x y h e g greater in λ z. cc

  Outside-above :
      {lo hi j : ℕ} {y : A}
      → Outside lo hi
      → get_elem? l.items j ≡ some y
      → cmp y query ≡ negsuc 0
      → Outside (suc j) hi
  Outside-above {j} {y} out g less i x (inr h) e = out i x (inr h) e
  Outside-above {j} {y} out g less i x (inl h) e =
      let r = less_before i j x y (omega arith) e g less in λ z. cc

  in_range : (n : ℕ) → n ≤ 2147483647 → ltb 2147483647 n ≡ false
  in_range n h = ground arith

  search_loop-Decided :
      (fuel position lo hi : ℕ)
      → position ≡ (lo + hi) / 2
      → hi ≤ length l.items
      → lo ≤ hi
      → hi < fuel + lo
      → Outside lo hi
      → Decided cmp query l.items (search_loop cmp query l fuel position lo hi)
  unfolding search_loop
  search_loop-Decided zero position lo hi mid fits le f out = absurd (omega arith)
  search_loop-Decided (suc fuel) position lo hi mid fits le f out = elim (Bool-cases (ltb lo hi)) [
    | inl more ↦
        let inside : lo < hi = ltb→lt lo hi more in
        let (x, g) = get_elem?_inside l.items position (ground arith) in
        rw (more, search_loop, retrieve-get_elem? l position v, g)
          (elim (c.three_way x query) [
            | inl greater ↦
                rw (greater, in_range (lo + position) (omega (arith, small)))
                  (elim (Bool-cases (position == (lo + position) / 2)) [
                    | inl last ↦
                        rw last
                          (inr (refl, λ i y e. Outside-below out g greater i y (ground arith) e))
                    | inr on ↦ rw on (
                        search_loop-Decided fuel ((lo + position) / 2) lo position (omega arith)
                          (omega arith) (omega arith) (omega arith) (Outside-below out g greater))
                  ])
            | inr rest ↦ elim rest [
              | inl same ↦ rw same (inl (refl, (position, x, g, same)))
              | inr less ↦
                  rw (less, in_range (hi + position) (omega (arith, small)))
                    (elim (Bool-cases (position == (hi + position) / 2)) [
                      | inl last ↦
                          rw last
                            (inr (refl, λ i y e. Outside-above out g less i y (ground arith) e))
                      | inr on ↦ rw on (
                          search_loop-Decided fuel ((hi + position) / 2) position hi (omega arith)
                            fits (omega arith) (ground arith)
                            (λ i y h. Outside-above out g less i y (omega arith)))
                    ])
            ]
          ])
    | inr stop ↦ rw (stop, search_loop) (inr (refl, λ i x. out i x (ground arith)))
  ]

  beyond : (i : ℕ) (x : A) → (i < 0) ⊎ (l.count ≤ i) → get_elem? l.items i ≡ some x → ⊥
  beyond i x h e = let outside = get_elem?_outside l.items i (omega (arith, v.counted)) in cc

  -- In a valid list of at most 1073741823 data, sorted under a lawful comparison, the search returns,
  -- and with 1 exactly where some datum of the list compares as equal to the query.
  pub binary_search-Decided : Decided cmp query l.items (binary_search cmp l query)
  unfolding binary_search
  binary_search-Decided =
      search_loop-Decided (l.count + 1) (l.count / 2) 0 l.count (omega arith)
        (omega (arith, v.counted)) (omega arith) (omega arith) (λ i x h e. absurd (beyond i x h e))
