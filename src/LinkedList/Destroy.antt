-- ===== src/LinkedList/Destroy.antt =====
-- The list `linked_list_destructor` of linked_list.c leaves behind.
use file_share_server.Common.{
  ℕ, zero, suc, ◌⊎◌, ◌∙◌, ◌-◌, ◌+◌, ◌*◌, ◌/◌, ◌≤◌, ◌<◌, ◌≡◌, ltb, true, false, List, [], ◌∷◌, ◌++◌,
  append_assoc, append-nil, done, arith, length, take, drop,
}
use file_share_server.LinkedList.{LinkedList, destroy_loop, remove_node, linked_list_destructor}
use file_share_server.LinkedList.Access.{IsValid}

module _ {A : Type 0} where
  abbrev list_of : List A → LinkedList A
  list_of xs = record { items = xs; count = length xs }

  -- Each round takes the head off and moves `i` up: the two meet after `k` rounds.
  destroy_loop_lem :
      (k fuel i : ℕ) (xs freed : List A)
      → length xs ≤ i + 2 * k
      → (i + 2 * k ≤ length xs + 1) ⊎ (k ≡ 0)
      → k < fuel
      → destroy_loop fuel i (list_of xs) freed ≡ done (list_of (drop k xs), freed ++ take k xs)
  unfolding destroy_loop remove_node
  destroy_loop_lem k zero i xs freed h e f = absurd (omega arith)
  destroy_loop_lem zero (suc fuel) i xs freed h e f =
      let stop : ltb i (length xs) ≡ false = ground arith in
      rw (stop, destroy_loop) (simp append-nil)
  destroy_loop_lem (suc k) (suc fuel) i [] freed h e f = absurd (omega arith)
  destroy_loop_lem (suc k) (suc fuel) i (x ∷ xs) freed h e f =
      let more : ltb i (suc (length xs)) ≡ true = ground arith in
      let rest : destroy_loop fuel (i + 1) (list_of xs) (freed ++ x ∷ [])
          ≡ done (list_of (drop k xs), (freed ++ x ∷ []) ++ take k xs) =
        destroy_loop_lem k fuel (i + 1) xs (freed ++ x ∷ []) (omega arith) (omega arith)
          (omega arith) in
      let shorter : suc (length xs) - 1 ≡ length xs = omega arith in
      rw (more, destroy_loop) (rw shorter (rest ∙ simp append_assoc))

  -- The destructor of a valid list of `n` data frees the first ⌈n / 2⌉ and keeps the others in
  -- the list, since `length` falls while `i` grows.
  pub linked_list_destructor_half :
      (l : LinkedList A)
      → IsValid l
      → let k = (length l.items + 1) / 2 in
        linked_list_destructor l ≡ done (list_of (drop k l.items), take k l.items)
  unfolding linked_list_destructor
  linked_list_destructor_half l v =
      let k = (length l.items + 1) / 2 in
      rw v.counted (
        destroy_loop_lem k (length l.items + 1) 0 l.items [] (omega arith) (omega arith)
          (omega arith))
