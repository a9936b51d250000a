-- ===== src/Dictionary/Keys.antt =====
-- The list of keys of dictionary.c, `iterate_dict`, and what the destructor frees.
use mathlib.Core.List.{map, Perm, perm_append_comm}
use mathlib.Core.List.Perm
use file_share_server.Common.{
  drop_next, ℕ, ◌+◌, ◌/◌, ◌<◌, ◌≡◌, refl, ap, ◌∙◌, List, [], ◌∷◌, ◌++◌, ℤ, done, arith, length,
  true, All, take, drop, is_some,
}
use file_share_server.LinkedList.Access.{IsValid, appended-IsValid}
use file_share_server.LinkedList.Destroy.{linked_list_destructor_half}
use file_share_server.LinkedList.Json.{read}
use file_share_server.Tree.{Tree, null, node}
use file_share_server.Tree.Order.{to_list}
use file_share_server.Dictionary.{
  Entry, Dictionary, insert, iterate, iterate_loop, compare_string_keys, destroy_entries,
  dictionary_destructor,
}
use file_share_server.Dictionary.Strings.{IsStrcmp}
use file_share_server.Dictionary.Lookup.{lookup, grown, search-lookup, lookup-grown, insert-grown}
use native.Mathlib.Numerals.{add-one}

module _ {K V : Type 0} (strcmp : K → K → ℤ) (s : IsStrcmp strcmp) (dummy : V) where
  -- The keys are counted, and each is found.
  pub record IsConsistent (d : Dictionary K V) : Type 0 where
    pub counted : IsValid d.keys
    pub found : All (λ k. is_some (lookup strcmp s dummy d k) ≡ true) d.keys.items

  found_after :
      (d : Dictionary K V) (k : K) (v : V) (ks : List K)
      → All (λ q. is_some (lookup strcmp s dummy d q) ≡ true) ks
      → All
          (λ q. is_some (lookup strcmp s dummy (grown strcmp s dummy d k v) q) ≡ true)
          (ks ++ k ∷ [])
  found_after d k v [] h = (ground (arith, lookup-grown strcmp s dummy d k k v, s.zero_iff k k), tt)
  found_after d k v (q ∷ ks) h =
      (ground (arith, lookup-grown strcmp s dummy d k q v), found_after d k v ks h.1)

  -- Under a lawful `strcmp`, an insertion of a key that has a size into a consistent dictionary
  -- returns a consistent dictionary, whose keys are those
  -- before and, at the end, the new one, which may stand there twice.
  pub insert-IsConsistent :
      (d : Dictionary K V) (k : K) (size : ℕ) (v : V)
      → 0 < size
      → IsConsistent d
      → (d' : Dictionary K V) × (insert (compare_string_keys strcmp) d k size v ≡ done d')
        × (d'.keys.items ≡ d.keys.items ++ k ∷ [])
        × IsConsistent d'
  insert-IsConsistent d k size v h c = (
    grown strcmp s dummy d k v,
    insert-grown strcmp s dummy d k size v c.counted h,
    unfold grown in refl,
    record {
      counted = unfold grown in appended-IsValid d.keys k c.counted;
      found = unfold grown in found_after d k v d.keys.items c.found;
    },
  )

  iterate_loop-map :
      (d : Dictionary K V) (ks : List K) (i : ℕ)
      → IsValid d.keys
      → drop i d.keys.items ≡ ks
      → iterate_loop (compare_string_keys strcmp) dummy d (length ks) i
        ≡ done (map (λ k. (k, lookup strcmp s dummy d k)) ks)
  unfolding iterate_loop
  iterate_loop-map d [] i valid e = refl
  iterate_loop-map d (k ∷ ks) i valid e = rw (read d.keys i k ks valid e) (
      rw (search-lookup strcmp s dummy d k) (
        rw (iterate_loop-map d ks (i + 1) valid (rw add-one (drop_next d.keys.items i k ks e)))
          refl))

  -- In a dictionary whose keys are counted, under a lawful `strcmp`, `iterate_dict` gives the
  -- callback each key inserted, in that order, with its value.
  pub iterate-map :
      (d : Dictionary K V)
      → IsValid d.keys
      → iterate (compare_string_keys strcmp) dummy d
        ≡ done (map (λ k. (k, lookup strcmp s dummy d k)) d.keys.items)
  unfolding iterate
  iterate-map d valid =
      ap (λ n. iterate_loop (compare_string_keys strcmp) dummy d n 0) valid.counted
      ∙ iterate_loop-map d d.keys.items 0 valid refl

module _ {K V : Type 0} where
  destroy_entries-perm : (t : Tree (Entry K V)) → Perm (destroy_entries t) (to_list t)
  unfolding destroy_entries to_list
  destroy_entries-perm null = Perm.refl []
  destroy_entries-perm (node l x r) =
      Perm.trans
        (Perm.append (destroy_entries-perm l)
          (Perm.append (destroy_entries-perm r) (Perm.refl (x ∷ []))))
        (Perm.append (Perm.refl (to_list l)) (perm_append_comm (to_list r) (x ∷ [])))

  -- The destructor of a dictionary whose keys are counted frees every entry once, and of `n` keys in the list the first ⌈n / 2⌉.
  pub dictionary_destructor_half :
      (d : Dictionary K V)
      → IsValid d.keys
      → (freed : List (Entry K V)) × (dictionary_destructor d
          ≡ done (take ((length d.keys.items + 1) / 2) d.keys.items, freed))
        × Perm freed (to_list d.bst)
  unfolding dictionary_destructor
  dictionary_destructor_half d valid = (
    destroy_entries d.bst,
    rw (linked_list_destructor_half d.keys valid),
    destroy_entries-perm d.bst,
  )
