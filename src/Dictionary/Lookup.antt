-- ===== src/Dictionary/Lookup.antt =====
-- `search_dict` after `insert_dict` of dictionary.c.
use mathlib.Core.Option
use file_share_server.Common.{
  ℕ, ◌<◌, ◌≡◌, ◌∙◌, Option, none, some, ℤ, pos, int_eq, if◌then◌else◌, done, ◌>>=◌, arith,
}
use file_share_server.LinkedList.Access.{IsValid, insert_at_end, appended}
use file_share_server.Tree.Lookup.{find, grow, search-find, insert-grow, find-grow}
use file_share_server.Dictionary.{Entry, Dictionary, insert, search, compare_string_keys}
use file_share_server.Dictionary.Strings.{
  IsStrcmp, compare_string_keys-IsComparator, by_key, same_key,
}

module _ {K V : Type 0} (strcmp : K → K → ℤ) (s : IsStrcmp strcmp) (dummy : V) where
  abbrev pub entry : K → V → Entry K V
  entry k v = record { key = k; value = v }

  -- What the tree of the dictionary holds under a key.
  unfoldable pub lookup : Dictionary K V → K → Option V
  lookup d k =
      Option.map (λ e. e.value)
        (find (by_key strcmp s) (compare_string_keys-IsComparator strcmp s) d.bst (entry k dummy))

  pub search-lookup :
      (d : Dictionary K V) (k : K)
      → search (compare_string_keys strcmp) dummy d k ≡ done (lookup d k)
  unfolding search lookup
  search-lookup d k = rw (
      search-find (by_key strcmp s) (compare_string_keys-IsComparator strcmp s) d.bst
        (entry k dummy))

  unfoldable pub grown : Dictionary K V → K → V → Dictionary K V
  grown d k v = record {
    bst = grow (by_key strcmp s) (compare_string_keys-IsComparator strcmp s) d.bst (entry k v);
    keys = appended d.keys k;
  }

  pub insert-grown :
      (d : Dictionary K V) (k : K) (size : ℕ) (v : V)
      → IsValid d.keys
      → 0 < size
      → insert (compare_string_keys strcmp) d k size v ≡ done (grown d k v)
  unfolding insert grown
  insert-grown d k size v valid h =
      rw
        (insert-grow (by_key strcmp s) (compare_string_keys-IsComparator strcmp s) d.bst (entry k v)
          16 (omega arith))
        (rw (insert_at_end d.keys k size valid h))

  -- The first value stays: a value is added only under a key that the dictionary does not hold.
  pub lookup-grown :
      (d : Dictionary K V) (k q : K) (v : V)
      → lookup (grown d k v) q ≡ (elim (lookup d q) [
        | some w ↦ some w
        | none ↦ if int_eq (strcmp k q) (pos 0) then some v else none
      ])
  unfolding lookup grown compare_string_keys
  lookup-grown d k q v =
      let cmp = by_key {V = V} strcmp s in
      let c = compare_string_keys-IsComparator {V = V} strcmp s in
      ground (
        arith,
        find-grow cmp c d.bst (entry k v) (entry q dummy),
        same_key strcmp s (entry k v) (entry q dummy),
        s.zero_iff k q,
      )

  -- In a dictionary whose keys are counted, for a key that has a size and under a lawful `strcmp`: a
  -- search after an insertion finds the value that the dictionary held under the key before; if
  -- it held none, it finds the new value under the key inserted, and NULL under any other.
  pub search-insert_dict :
      (d : Dictionary K V) (k q : K) (size : ℕ) (v : V)
      → IsValid d.keys
      → 0 < size
      → (insert (compare_string_keys strcmp) d k size v >>= λ d'.
          search (compare_string_keys strcmp) dummy d' q)
        ≡ (search (compare_string_keys strcmp) dummy d q >>= λ found. elim found [
          | some w ↦ done (some w)
          | none ↦ done (if int_eq (strcmp k q) (pos 0) then some v else none)
        ])
  search-insert_dict d k q size v valid h =
      rw (insert-grown d k size v valid h) (
        search-lookup (grown d k v) q ∙ rw (search-lookup d q, lookup-grown d k q v) (ground arith))
