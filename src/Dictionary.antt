-- ===== src/Dictionary.antt =====
-- src/data_structures/dictionary: a search tree of entries and the list of the keys inserted.
-- A copy of `size` bytes of a datum is the datum; `free_key` and `free_value` are seen in the
-- lists of what they are given.
pub mod Keys
pub mod Strings
pub mod Lookup
use mathlib.Core.Option
use file_share_server.Common.{
  ℕ, zero, suc, ◌+◌, if◌then◌else◌, Option, none, some, List, [], ◌∷◌, ◌++◌, ℤ, pos, negsuc, int_lt,
  Outcome, done, ◌>>=◌,
}
use file_share_server.LinkedList
use file_share_server.LinkedList.{LinkedList}
use file_share_server.Tree
use file_share_server.Tree.{Tree, null, node}

pub record Entry {ℓ κ} (K : Type ℓ) (V : Type κ) : Type (ℓ ⊔ κ) where
  pub key : K
  pub value : V

pub record Dictionary {ℓ κ} (K : Type ℓ) (V : Type κ) : Type (ℓ ⊔ κ) where
  pub bst : Tree (Entry K V)
  pub keys : LinkedList K

-- `sizeof(struct Entry)`: two pointers.
abbrev pub entry_size : ℕ
entry_size = 16

module _ {ℓ κ} {K : Type ℓ} {V : Type κ} where
  unfoldable pub entry_constructor : K → V → Entry K V
  entry_constructor key value = record { key = key; value = value }

  unfoldable pub dictionary_constructor : Dictionary K V
  dictionary_constructor = record { bst = null; keys = LinkedList.linked_list_constructor }

  unfoldable pub insert :
      (Entry K V → Entry K V → ℤ) → Dictionary K V → K → ℕ → V → Outcome (Dictionary K V)
  unfolding entry_constructor
  insert compare dictionary key key_size value = do
    bst ← Tree.insert compare dictionary.bst (entry_constructor key value) entry_size
    keys ← LinkedList.insert dictionary.keys (pos dictionary.keys.count) key key_size
    done (record { bst = bst; keys = keys })

  -- The entry that is searched for carries `dummy`, which no comparison reads.
  unfoldable pub search : (Entry K V → Entry K V → ℤ) → V → Dictionary K V → K → Outcome (Option V)
  unfolding entry_constructor
  search compare dummy dictionary key = do
    result ← Tree.search compare dictionary.bst (entry_constructor key dummy)
    done (Option.map (λ e. e.value) result)

  -- The rounds of `iterate_dict` from `i` on, `left` of them to go: what `callback` is given.
  iterate_loop :
      (Entry K V → Entry K V → ℤ) → V → Dictionary K V → ℕ → ℕ → Outcome (List (K × Option V))
  iterate_loop compare dummy dictionary zero i = done []
  iterate_loop compare dummy dictionary (suc left) i = do
    found ← LinkedList.retrieve dictionary.keys (pos i)
    elim found [
      | none ↦ Outcome.fault
      | some key ↦ do
        value ← search compare dummy dictionary key
        rest ← iterate_loop compare dummy dictionary left (i + 1)
        done ((key, value) ∷ rest)
    ]

  pub iterate : (Entry K V → Entry K V → ℤ) → V → Dictionary K V → Outcome (List (K × Option V))
  unfolding iterate_loop
  iterate compare dummy dictionary = iterate_loop compare dummy dictionary dictionary.keys.count 0

  -- `recursive_dictionary_destroy`: the entries in the order in which they are freed.
  destroy_entries : Tree (Entry K V) → List (Entry K V)
  destroy_entries null = []
  destroy_entries (node prev e next) = destroy_entries prev ++ (destroy_entries next ++ (e ∷ []))

  -- The keys and the entries that the destructor frees.
  pub dictionary_destructor : Dictionary K V → Outcome (List K × List (Entry K V))
  unfolding destroy_entries
  dictionary_destructor dictionary = do
    (keys, freed) ← LinkedList.linked_list_destructor dictionary.keys
    done (freed, destroy_entries dictionary.bst)

  -- `compare_string_keys`, by the `strcmp` of the C library.
  unfoldable pub compare_string_keys : (K → K → ℤ) → Entry K V → Entry K V → ℤ
  compare_string_keys strcmp entry_one entry_two =
      if int_lt (pos 0) (strcmp entry_one.key entry_two.key)
      then pos 1
      else if int_lt (strcmp entry_one.key entry_two.key) (pos 0)
      then negsuc 0
      else pos 0
