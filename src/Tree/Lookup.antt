-- ===== src/Tree/Lookup.antt =====
-- `search_bst` after `insert_bst` of binary_search_tree.c.
use file_share_server.Common.{
  ℕ, ◌<◌, ◌≡◌, inl, inr, refl, ◌∙◌, if◌then◌else◌, Option, none, some, ℤ, pos, negsuc, int_eq,
  Outcome, done, arith, ◌>>=◌, false,
}
use file_share_server.Comparator.{IsComparator}
use file_share_server.Tree.{
  Tree, null, node, Position, Side, to_prev, to_next, iterate, attach, search, insert, step, here,
  cursor_data, descend, insert_below,
}

module _ {A : Type 0} where
  -- What `search_bst` makes of the position that `iterate_bst` returns.
  read : Position A → Outcome (Option A)
  read p = if int_eq p.direction (pos 0) then cursor_data p.cursor else done none

  read-step : (side : Side) (p : Position A) → read (step side p) ≡ read p
  unfolding read cursor_data
  read-step side p = ground arith

  read-descend :
      (t : Tree A) (side : Side) (p : Position A) (x : A) (found : Option A)
      → read p ≡ done found
      → (t ≡ null → found ≡ none)
      → (direction : ℤ) → int_eq direction (pos 0) ≡ false
      → read (descend t (step side p) (here x direction)) ≡ done found
  unfolding descend
  read-descend null side p x found h e direction stop = unfold read in rw (stop, e refl)
  read-descend (node l y r) side p x found h e direction stop = read-step side p ∙ h

  insert_below_next :
      (l r : Tree A) (x new : A) (p : Position A) (size : ℕ)
      → insert_below (node l x r) (step to_next p) new size
        ≡ (insert_below r p new size >>= λ t. done (node l x t))
  unfolding insert_below attach
  insert_below_next l r x new p size = ground arith

  insert_below_prev :
      (l r : Tree A) (x new : A) (p : Position A) (size : ℕ)
      → insert_below (node l x r) (step to_prev p) new size
        ≡ (insert_below l p new size >>= λ t. done (node t x r))
  unfolding insert_below attach
  insert_below_prev l r x new p size = ground arith

module _ {A : Type 0} (cmp : A → A → ℤ) (c : IsComparator cmp) where
  -- The walk of a search, with no cursor.
  unfoldable pub find : Tree A → A → Option A
  find null q = none
  find (node prev x next) q =
      if int_eq (cmp x q) (pos 1)
      then find next q
      else (if int_eq (cmp x q) (negsuc 0) then find prev q else some x)

  -- The tree with a new leaf where the walk ends, unless it meets an equal datum.
  unfoldable pub grow : Tree A → A → Tree A
  grow null new = node null new null
  grow (node prev x next) new =
      if int_eq (cmp x new) (pos 1)
      then node prev x (grow next new)
      else (if int_eq (cmp x new) (negsuc 0) then node (grow prev new) x next else node prev x next)

  search-read : (t : Tree A) (q : A) → search cmp t q ≡ read (iterate cmp t q)
  unfolding search read
  search-read t q = refl

  read-find : (t : Tree A) (q : A) → read (iterate cmp t q) ≡ done (find t q)
  unfolding find iterate cursor_data
  read-find null q = unfold read in ground arith
  read-find (node prev x next) q = elim (c.three_way x q) [
    | inl greater ↦
        rw greater (read-descend next to_next _ x _ (read-find next q) (λ e. rw e) (pos 1) refl)
    | inr rest ↦ elim rest [
      | inl same ↦ rw same (unfold read in refl)
      | inr less ↦
          rw less (read-descend prev to_prev _ x _ (read-find prev q) (λ e. rw e) (negsuc 0) refl)
    ]
  ]

  pub search-find : (t : Tree A) (q : A) → search cmp t q ≡ done (find t q)
  search-find t q = search-read t q ∙ read-find t q

  insert_node :
      (l r : Tree A) (x new : A) (size : ℕ)
      → insert cmp (node l x r) new size
        ≡ insert_below (node l x r) (iterate cmp (node l x r) new) new size
  unfolding insert
  insert_node l r x new size = refl

  insert-descend_next :
      (l r : Tree A) (x new : A) (size : ℕ) (g : Tree A)
      → 0 < size
      → insert cmp r new size ≡ done g
      → insert_below
          (node l x r)
          (descend r (step to_next (iterate cmp r new)) (here x (pos 1)))
          new
          size
        ≡ done (node l x g)
  unfolding insert descend
  insert-descend_next l null x new size g h e = unfold attach in ground arith
  insert-descend_next l (node a b d) x new size g h e =
      insert_below_next l (node a b d) x new (iterate cmp (node a b d) new) size ∙ rw e

  insert-descend_prev :
      (l r : Tree A) (x new : A) (size : ℕ) (g : Tree A)
      → 0 < size
      → insert cmp l new size ≡ done g
      → insert_below
          (node l x r)
          (descend l (step to_prev (iterate cmp l new)) (here x (negsuc 0)))
          new
          size
        ≡ done (node g x r)
  unfolding insert descend
  insert-descend_prev null r x new size g h e = unfold attach in ground arith
  insert-descend_prev (node a b d) r x new size g h e =
      insert_below_prev (node a b d) r x new (iterate cmp (node a b d) new) size ∙ rw e

  -- Where the datum has a size, an insertion returns the grown tree.
  pub insert-grow :
      (t : Tree A) (new : A) (size : ℕ) → 0 < size → insert cmp t new size ≡ done (grow t new)
  unfolding grow iterate insert_below
  insert-grow null new size h = unfold insert in ground arith
  insert-grow (node prev x next) new size h = elim (c.three_way x new) [
    | inl greater ↦ rw greater (
        insert_node prev next x new size
        ∙ unfold iterate in
          rw greater (insert-descend_next prev next x new size _ h (insert-grow next new size h)))
    | inr rest ↦ elim rest [
      | inl same ↦ rw same (insert_node prev next x new size ∙ rw same)
      | inr less ↦ rw less (
          insert_node prev next x new size
          ∙ unfold iterate in
            rw less (insert-descend_prev prev next x new size _ h (insert-grow prev new size h)))
    ]
  ]

  pub find-grow :
      (t : Tree A) (new q : A)
      → find (grow t new) q ≡ (elim (find t q) [
        | some x ↦ some x
        | none ↦ if int_eq (cmp new q) (pos 0) then some new else none
      ])
  unfolding find grow
  find-grow null new q = ground (arith, c.three_way new q)
  find-grow (node prev x next) new q = ground (
    arith,
    find-grow prev new q,
    find-grow next new q,
    c.three_way x q,
    c.three_way x new,
    c.same_right new q x,
    c.three_way new q,
  )

  -- Under a lawful comparison, for a datum that has a size: a search after an insertion finds what
  -- the tree held; where it held nothing that compares as
  -- equal to the query, it finds the new datum if that does.
  pub search-insert_bst :
      (t : Tree A) (new q : A) (size : ℕ)
      → 0 < size
      → (insert cmp t new size >>= λ t'. search cmp t' q) ≡ (
          search cmp t q >>= λ found. elim found [
            | some x ↦ done (some x)
            | none ↦ done (if int_eq (cmp new q) (pos 0) then some new else none)
          ])
  search-insert_bst t new q size h =
      rw (insert-grow t new size h)
        (search-find (grow t new) q ∙ rw (search-find t q, find-grow t new q) (ground arith))
