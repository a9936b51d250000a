-- ===== src/LinkedList/Access.antt =====
-- `insert`, `remove_node` and `retrieve` of linked_list.c against operations on plain lists.
use file_share_server.Common.{
  length-append, ℕ, zero, suc, ◌+◌, ◌-◌, ◌≤◌, ◌<◌, ◌≡◌, refl, ap, ◌∙◌, ltb, leb, if◌then◌else◌,
  true, false, none, some, List, [], ◌∷◌, ◌++◌, append-nil, append_assoc, ℤ, pos, negsuc, done,
  fault, exited, arith, length, get_elem?, take, drop, inl, inr, Bool-cases, ltb→lt,
}
use file_share_server.LinkedList.{
  LinkedList, Cursor, walk, iterate, remove_head, insert, remove_node, retrieve,
}

-- The cached length is the number of nodes in the chain.
pub record IsValid {ℓ} {A : Type ℓ} (l : LinkedList A) : Type ℓ where
  pub counted : l.count ≡ length l.items

module _ {A : Type 0} where
  length-take-drop :
      (n : ℕ) (xs : List A) (x : A)
      → n ≤ length xs
      → length (take n xs ++ (x ∷ drop n xs)) ≡ suc (length xs)
  length-take-drop zero xs x h = refl
  length-take-drop (suc n) [] x h = absurd (omega arith)
  length-take-drop (suc n) (y ∷ xs) x h = ap suc (length-take-drop n xs x (omega arith))

  -- The node at `n`, with what stands before and behind it.
  abbrev node_at : ℕ → List A → A → Cursor A
  node_at n xs x = record { before = take n xs; item = x; next = drop (suc n) xs }

  walk-split :
      (n : ℕ) (before xs : List A)
      → n < length xs
      → (x : A) × (walk n before xs
          ≡ done (some (record { before = before ++ take n xs; item = x; next = drop (suc n) xs })))
        × (drop n xs ≡ x ∷ drop (suc n) xs)
        × (get_elem? xs n ≡ some x)
  unfolding walk
  walk-split n before [] h = absurd (omega arith)
  walk-split zero before (x ∷ xs) h = (x, simp append-nil, refl, refl)
  walk-split (suc n) before (x ∷ xs) h =
      let (y, e, d, g) = walk-split n (before ++ x ∷ []) xs (omega arith) in
      (y, e ∙ simp append_assoc, d, g)

  iterate-node_at :
      (l : LinkedList A) (n : ℕ)
      → IsValid l
      → n < length l.items
      → (x : A) × (iterate l (pos n) ≡ done (some (node_at n l.items x)))
        × (drop n l.items ≡ x ∷ drop (suc n) l.items)
        × (get_elem? l.items n ≡ some x)
  unfolding iterate
  iterate-node_at l n v h =
      let (x, e, d, g) = walk-split n [] l.items h in
      let inside : leb l.count n ≡ false = ground (arith, v.counted) in (x, rw inside e, d, g)

  iterate_outside :
      (l : LinkedList A) (n : ℕ) → IsValid l → length l.items ≤ n → iterate l (pos n) ≡ done none
  unfolding iterate
  iterate_outside l n v h =
      let outside : leb l.count n ≡ true = ground (arith, v.counted) in rw outside

  pub take_all : (xs : List A) → take (length xs) xs ≡ xs
  take_all [] = refl
  take_all (x ∷ xs) = ap (λ t. x ∷ t) (take_all xs)

  pub drop-length : (xs : List A) → drop (length xs) xs ≡ []
  drop-length [] = refl
  drop-length (x ∷ xs) = drop-length xs

  take-suc :
      (n : ℕ) (xs zs : List A) (x : A)
      → drop n xs ≡ x ∷ drop (suc n) xs
      → take (suc n) xs ++ zs ≡ take n xs ++ (x ∷ zs)
  take-suc zero [] zs x h = cc
  take-suc (suc n) [] zs x h = cc
  take-suc zero (y ∷ xs) zs x h = cc
  take-suc (suc n) (y ∷ xs) zs x h = ap (λ t. y ∷ t) (take-suc n xs zs x h)

  pub get_elem?_outside : (xs : List A) (n : ℕ) → length xs ≤ n → get_elem? xs n ≡ none
  get_elem?_outside [] n h = refl
  get_elem?_outside (x ∷ xs) zero h = absurd (omega arith)
  get_elem?_outside (x ∷ xs) (suc n) h = get_elem?_outside xs n (omega arith)

  -- In a valid list `retrieve` reads the list at the index, and NULL beyond it.
  pub retrieve-get_elem? :
      (l : LinkedList A) (n : ℕ) → IsValid l → retrieve l (pos n) ≡ done (get_elem? l.items n)
  unfolding retrieve
  retrieve-get_elem? l n v = elim (Bool-cases (ltb n (length l.items))) [
    | inl h ↦ let (x, e, d, g) = iterate-node_at l n v (ltb→lt _ _ h) in rw (e, g)
    | inr h ↦ rw (iterate_outside l n v (ground arith), get_elem?_outside l.items n (ground arith))
  ]

  abbrev pub inserted : LinkedList A → ℕ → A → LinkedList A
  inserted l n x = record { items = take n l.items ++ (x ∷ drop n l.items); count = l.count + 1 }

  -- In a valid list, for a datum that has a size, `insert` at an index up to the length puts the data there; beyond the
  -- length it changes nothing.
  pub insert_lem :
      (l : LinkedList A) (n : ℕ) (x : A) (size : ℕ)
      → IsValid l
      → 0 < size
      → insert l (pos n) x size ≡ done (if leb n (length l.items) then inserted l n x else l)
  unfolding insert
  insert_lem l zero x size v h = ground arith
  insert_lem l (suc n) x size v h =
      let sized : ltb size 1 ≡ false = ground arith in
      elim (Bool-cases (ltb n (length l.items))) [
        | inl inside ↦
            let (y, e, d, g) = iterate-node_at l n v (ltb→lt _ _ inside) in
            let fits : leb (suc n) (length l.items) ≡ true = ground arith in
            rw (sized, e, fits, take-suc n l.items (x ∷ drop (suc n) l.items) y d) (ground arith)
        | inr outside ↦
            let beyond : leb (suc n) (length l.items) ≡ false = ground arith in
            rw (sized, iterate_outside l n v (ground arith), beyond) (ground arith)
      ]

  -- A negative index inserts nothing, and an empty datum ends the program.
  pub insert_edges :
      (l : LinkedList A) (n : ℕ) (x : A) (size : ℕ) (index : ℤ)
      → (insert l (negsuc n) x (suc size) ≡ done l) × (insert l index x 0 ≡ exited)
  unfolding insert
  insert_edges l n x size index = (ground arith, refl)

  pub inserted-IsValid :
      (l : LinkedList A) (n : ℕ) (x : A) → IsValid l → n ≤ length l.items → IsValid (inserted l n x)
  inserted-IsValid l n x v h = record {
    counted = omega (arith, v.counted, length-take-drop n l.items x h);
  }

  drop_all :
      (k : ℕ) (xs : List A) (x : A)
      → length xs ≡ suc k
      → drop k xs ≡ x ∷ drop (suc k) xs
      → drop (suc k) xs ≡ []
  drop_all k [] x h d = absurd (omega arith)
  drop_all zero (y ∷ []) x h d = refl
  drop_all zero (y ∷ z ∷ xs) x h d = absurd (omega arith)
  drop_all (suc k) (y ∷ xs) x h d = drop_all k xs x (omega arith) d

  abbrev pub removed : LinkedList A → ℕ → LinkedList A
  removed l n = record { items = take n l.items ++ drop (suc n) l.items; count = l.count - 1 }

  -- In a valid list, below the length, `remove_node` takes out and frees the datum at the index.
  pub remove_node_inside :
      (l : LinkedList A) (n : ℕ)
      → IsValid l
      → n < length l.items
      → (x : A) × (get_elem? l.items n ≡ some x)
        × (remove_node l (pos n) ≡ done (removed l n, x ∷ []))
  unfolding remove_node
  remove_node_inside l zero v h =
      let (x, e, d, g) = iterate-node_at l 0 v h in (x, g, rw (d, remove_head) refl)
  remove_node_inside l (suc n) v h =
      let (y, e, d, g) = iterate-node_at l n v (omega arith) in
      let (x, e', d', g') = iterate-node_at l (suc n) v h in
      (x, g', rw (e, d') (ground (arith, take-suc n l.items (drop (suc (suc n)) l.items) y d)))

  -- At the length of a list that is not empty it reads through the NULL behind the last node.
  pub remove_node_at_end :
      (l : LinkedList A) (k : ℕ)
      → IsValid l
      → length l.items ≡ suc k
      → remove_node l (pos (suc k)) ≡ fault
  unfolding remove_node
  remove_node_at_end l k v h =
      let (y, e, d, g) = iterate-node_at l k v (omega arith) in
      rw e (ground (arith, drop_all k l.items y h d))

  -- Beyond the length it changes and frees nothing.
  pub remove_node_outside :
      (l : LinkedList A) (n : ℕ)
      → IsValid l
      → length l.items < n
      → remove_node l (pos n) ≡ done (l, [])
  unfolding remove_node
  remove_node_outside l zero v h = absurd (omega arith)
  remove_node_outside l (suc n) v h = rw (iterate_outside l n v (omega arith)) (ground arith)

  -- In an empty list it changes nothing.
  pub remove_node_empty : (l : LinkedList A) → l.items ≡ [] → remove_node l (pos 0) ≡ done (l, [])
  unfolding remove_node
  remove_node_empty l e = ap (remove_head l) e

  abbrev pub appended : LinkedList A → A → LinkedList A
  appended l x = record { items = l.items ++ x ∷ []; count = l.count + 1 }

  -- At the length, `insert` appends.
  pub insert_at_end :
      (l : LinkedList A) (x : A) (size : ℕ)
      → IsValid l
      → 0 < size
      → insert l (pos l.count) x size ≡ done (appended l x)
  insert_at_end l x size v positive =
      let n = length l.items in
      let same : leb n n ≡ true = ground arith in
      ap (λ k. insert l (pos k) x size) v.counted
      ∙ insert_lem l n x size v positive
      ∙ rw (same, take_all l.items, drop-length l.items)

  pub appended-IsValid : (l : LinkedList A) (x : A) → IsValid l → IsValid (appended l x)
  appended-IsValid l x v = record {
    counted = omega (arith, v.counted, length-append l.items (x ∷ []));
  }
