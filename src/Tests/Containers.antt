-- ===== src/Tests/Containers.antt =====
-- The theorems on lists, queues, trees and dictionaries of numbers.
use mathlib.Core.List.{Perm}
use file_share_server.Common.{
  ℕ, ◌≡◌, ◌+◌, refl, List, [], ◌∷◌, some, none, done, ◌>>=◌, arith, pos, int_eq, if◌then◌else◌,
}
use file_share_server.LinkedList
use file_share_server.LinkedList.{LinkedList}
use file_share_server.LinkedList.Access.{IsValid}
use file_share_server.LinkedList.Destroy.{linked_list_destructor_half}
use file_share_server.LinkedList.Search.{Decided, binary_search-Decided}
use file_share_server.Queue.{Queue}
use file_share_server.Queue.Fifo.{Holds}
use file_share_server.Queue.Runs.{pushing, peeking, popping, pushed, shown, freed, run, run-fifo}
use file_share_server.Tree
use file_share_server.Tree.{Tree, null, node}
use file_share_server.Tree.Lookup.{find}
use file_share_server.Tree.Order.{to_list, binary_search_tree_destructor-perm}
use file_share_server.Dictionary
use file_share_server.Dictionary.{Dictionary, Entry, compare_string_keys}
use file_share_server.Dictionary.Lookup.{lookup, search-insert_dict}
use file_share_server.Dictionary.Keys.{
  IsConsistent, insert-IsConsistent, dictionary_destructor_half,
}
use file_share_server.Tests.Orders.{
  compare_numbers, compare_numbers-IsComparator, compare_numbers-IsStrcmp, sorted_items,
  sorted_items-IsSorted,
}

abbrev numbers : LinkedList ℕ
numbers = record { items = sorted_items; count = 3 }

numbers-IsValid : IsValid numbers
numbers-IsValid = record { counted = refl }

binary_search-Decided_example :
    Decided compare_numbers 5 sorted_items (LinkedList.binary_search compare_numbers numbers 5)
binary_search-Decided_example =
    binary_search-Decided compare_numbers compare_numbers-IsComparator 5 numbers numbers-IsValid
      sorted_items-IsSorted (omega arith)

linked_list_destructor_half_example :
    LinkedList.linked_list_destructor numbers
    ≡ done (record { items = 5 ∷ []; count = 1 }, 1 ∷ 3 ∷ [])
linked_list_destructor_half_example = linked_list_destructor_half numbers numbers-IsValid

abbrev digit : ℕ → List ℕ
digit n = (n + 48) ∷ []

abbrev queue : Queue ℕ
queue = record { list = numbers }

queue-Holds : Holds queue sorted_items
queue-Holds = record { items = refl; valid = numbers-IsValid }

run-fifo_example :
    (q' : Queue ℕ) × (run queue (peeking ∷ pushing 7 8 ∷ popping ∷ peeking ∷ [])
      ≡ done (q', shown (some 1) ∷ pushed ∷ freed (1 ∷ []) ∷ shown (some 3) ∷ []))
    × Holds q' (3 ∷ 5 ∷ 7 ∷ [])
run-fifo_example =
    run-fifo queue sorted_items (peeking ∷ pushing 7 8 ∷ popping ∷ peeking ∷ []) queue-Holds
      (tt, (omega arith, (tt, (tt, tt))))

abbrev tree : Tree ℕ
tree = node (node null 8 null) 5 (node null 2 null)

binary_search_tree_destructor-perm_example :
    (freed : List ℕ) × (Tree.binary_search_tree_destructor tree ≡ done freed)
    × Perm freed (to_list tree)
binary_search_tree_destructor-perm_example =
    binary_search_tree_destructor-perm (node null 8 null) (node null 2 null) 5

abbrev dictionary : Dictionary ℕ ℕ
dictionary = record {
  bst = node null (record { key = 4; value = 40 }) null;
  keys = record { items = 4 ∷ []; count = 1 };
}

dictionary-IsValid : IsValid dictionary.keys
dictionary-IsValid = record { counted = refl }

dictionary-IsConsistent : IsConsistent compare_numbers compare_numbers-IsStrcmp 0 dictionary
unfolding lookup find compare_string_keys
dictionary-IsConsistent = record { counted = dictionary-IsValid; found = (refl, tt) }

search-insert_dict_example :
    (Dictionary.insert (compare_string_keys compare_numbers) dictionary 6 1 60 >>= λ d'.
    Dictionary.search (compare_string_keys compare_numbers) 0 d' 6)
    ≡ (Dictionary.search (compare_string_keys compare_numbers) 0 dictionary 6 >>= λ found.
        elim found [
          | some w ↦ done (some w)
          | none ↦ done (if int_eq (compare_numbers 6 6) (pos 0) then some 60 else none)
        ])
search-insert_dict_example =
    search-insert_dict compare_numbers compare_numbers-IsStrcmp 0 dictionary 6 6 1 60
      dictionary-IsValid (omega arith)

insert-IsConsistent_example :
    (d' : Dictionary ℕ ℕ) × (Dictionary.insert
        (compare_string_keys compare_numbers)
        dictionary
        6
        1
        60
      ≡ done d')
    × (d'.keys.items ≡ 4 ∷ 6 ∷ [])
    × IsConsistent compare_numbers compare_numbers-IsStrcmp 0 d'
insert-IsConsistent_example =
    insert-IsConsistent compare_numbers compare_numbers-IsStrcmp 0 dictionary 6 1 60 (omega arith)
      dictionary-IsConsistent

dictionary_destructor_half_example :
    (freed : List (Entry ℕ ℕ)) × (Dictionary.dictionary_destructor dictionary
      ≡ done (4 ∷ [], freed))
    × Perm freed (to_list dictionary.bst)
dictionary_destructor_half_example = dictionary_destructor_half dictionary dictionary-IsValid
