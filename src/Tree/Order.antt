-- ===== src/Tree/Order.antt =====
-- The order of the trees that `insert_bst` builds, and the destruction of every node.
use file_share_server.Common.{◌≡◌, refl, List, [], ◌∷◌, ◌++◌, ℤ, pos, negsuc, append_assoc, done}
use mathlib.Core.List.{Perm, perm_append_comm}
use mathlib.Core.List.Perm
use file_share_server.Comparator.{IsComparator}
use file_share_server.Tree.{Tree, null, node, destroy_nodes, binary_search_tree_destructor}

module _ {A : Type 0} where
  abbrev pub AllNodes : (A → Type 0) → Tree A → Type 0
  AllNodes P null = Unit
  AllNodes P (node l x r) = AllNodes P l × P x × AllNodes P r

  unfoldable pub to_list : Tree A → List A
  to_list null = []
  to_list (node l x r) = to_list l ++ (x ∷ to_list r)

module _ {A : Type 0} (cmp : A → A → ℤ) (c : IsComparator cmp) where
  -- At each node the data of `prev` are greater and those of `next` less than its datum.
  abbrev pub IsOrdered : Tree A → Type 0
  IsOrdered null = Unit
  IsOrdered (node l x r) =
      IsOrdered l
      × AllNodes (λ y. cmp x y ≡ negsuc 0) l
      × IsOrdered r
      × AllNodes (λ y. cmp x y ≡ pos 1) r

module _ {A : Type 0} where
  destroy_nodes-perm : (t : Tree A) → Perm (destroy_nodes t) (to_list t)
  unfolding destroy_nodes to_list
  destroy_nodes-perm null = Perm.refl []
  destroy_nodes-perm (node l x r) =
      Perm.trans
        (Perm.append (destroy_nodes-perm r)
          (Perm.append (destroy_nodes-perm l) (Perm.refl (x ∷ []))))
        (rw append_assoc at (perm_append_comm (to_list r) (to_list l ++ x ∷ [])))

  -- The destructor of a tree that is not empty frees each datum exactly as often as it stands in
  -- the tree.
  pub binary_search_tree_destructor-perm :
      (l r : Tree A) (x : A)
      → (freed : List A) × (binary_search_tree_destructor (node l x r) ≡ done freed)
        × Perm freed (to_list (node l x r))
  unfolding binary_search_tree_destructor
  binary_search_tree_destructor-perm l r x =
      (destroy_nodes (node l x r), refl, destroy_nodes-perm (node l x r))
