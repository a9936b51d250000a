-- ===== src/Tree.antt =====
-- src/data_structures/trees/binary_search_tree.c. `prev` is the subtree of the data that are
-- greater than the node's, `next` of those that are less: `compare(cursor, data) == 1` goes to
-- `next`. A pointer to a node is its path from the root.
pub mod Lookup
pub mod Comparisons
pub mod Order
use mathlib.Core.Option
use file_share_server.Common.{
  ℕ, if◌then◌else◌, Option, none, some, List, [], ◌∷◌, ◌++◌, ℤ, pos, negsuc, int_eq, Outcome, done,
  exited, ◌>>=◌,
}
use file_share_server.LinkedList.{create_node}

pub data Tree {ℓ} (A : Type ℓ) : Type ℓ where
  null : Tree A
  node : (prev : Tree A) → (item : A) → (next : Tree A) → Tree A

pub data Side : Type 0 where
  to_prev to_next : Side

-- What `iterate_bst` returns: the cursor, with its datum, and `*direction`.
pub record Position {ℓ} (A : Type ℓ) : Type ℓ where
  pub cursor : Option (List Side × A)
  pub direction : ℤ

abbrev pub here {ℓ} : {A : Type ℓ} → A → ℤ → Position A
here x direction = record { cursor = some ([], x); direction = direction }

abbrev pub step {ℓ} : {A : Type ℓ} → Side → Position A → Position A
step side p = record p { cursor = Option.map (λ (path, x). (side ∷ path, x)) p.cursor }

module _ {ℓ} {A : Type ℓ} where
  -- `if (child) return go; else return stop;`
  unfoldable pub descend : Tree A → Position A → Position A → Position A
  descend null go stop = stop
  descend (node prev x next) go stop = go

  -- `iterate_bst` calls itself only on a child that is there.
  unfoldable pub iterate : (A → A → ℤ) → Tree A → A → Position A
  iterate compare null query = record { cursor = none; direction = pos 1 }
  iterate compare (node prev x next) query =
      let go_next = step to_next (iterate compare next query) in
      let go_prev = step to_prev (iterate compare prev query) in
      if int_eq (compare x query) (pos 1)
      then descend next go_next (here x (pos 1))
      else if int_eq (compare x query) (negsuc 0)
      then descend prev go_prev (here x (negsuc 0))
      else here x (pos 0)

  -- A direction of 0 comes with a cursor; dereferencing NULL would be a fault.
  unfoldable pub cursor_data : Option (List Side × A) → Outcome (Option A)
  cursor_data none = Outcome.fault
  cursor_data (some (path, x)) = done (some x)

  unfoldable pub search : (A → A → ℤ) → Tree A → A → Outcome (Option A)
  unfolding cursor_data
  search compare tree query =
      let p = iterate compare tree query in
      if int_eq p.direction (pos 0) then cursor_data p.cursor else done none

  -- `cursor->next = new` or `cursor->prev = new`: the child at the end of the path is replaced.
  unfoldable pub attach : Tree A → List Side → Side → A → Tree A
  attach null path side new = null
  attach (node prev x next) [] to_prev new = node (node null new null) x next
  attach (node prev x next) [] to_next new = node prev x (node null new null)
  attach (node prev x next) (to_prev ∷ path) side new = node (attach prev path side new) x next
  attach (node prev x next) (to_next ∷ path) side new = node prev x (attach next path side new)

  unfoldable pub attach_at : Tree A → Option (List Side × A) → Side → A → Outcome (Tree A)
  attach_at tree none side new = Outcome.fault
  attach_at tree (some (path, x)) side new = done (attach tree path side new)

  unfoldable pub insert_below : Tree A → Position A → A → ℕ → Outcome (Tree A)
  unfolding attach_at create_node
  insert_below tree p value size =
      if int_eq p.direction (pos 1)
      then (do new ← create_node value size; attach_at tree p.cursor to_next new)
      else if int_eq p.direction (negsuc 0)
      then (do new ← create_node value size; attach_at tree p.cursor to_prev new)
      else done tree

  unfoldable pub insert : (A → A → ℤ) → Tree A → A → ℕ → Outcome (Tree A)
  unfolding create_node insert_below
  insert compare null value size = do new ← create_node value size; done (node null new null)
  insert compare (node prev x next) value size =
      insert_below (node prev x next) (iterate compare (node prev x next) value) value size

  -- `recursive_tree_destruction`: the data in the order in which they are freed. It reads through
  -- the node that it is given, so an empty tree is a fault.
  destroy_nodes : Tree A → List A
  destroy_nodes null = []
  destroy_nodes (node prev x next) = destroy_nodes next ++ (destroy_nodes prev ++ (x ∷ []))

  pub binary_search_tree_destructor : Tree A → Outcome (List A)
  unfolding destroy_nodes
  binary_search_tree_destructor null = Outcome.fault
  binary_search_tree_destructor (node prev x next) = done (destroy_nodes (node prev x next))
