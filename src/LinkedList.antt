-- ===== src/LinkedList.antt =====
-- src/data_structures/lists/linked_list.c and src/data_structures/common/node.c.
-- A list owns its nodes, so the chain from `head` is the list `items` of the data that the nodes
-- hold; a pointer to a node is a `Cursor`, the chain split at that node. A function that frees
-- data returns what it freed. `index` is a C `int` and may be negative.
pub mod Access
pub mod Destroy
pub mod Json
pub mod Search
use mathlib.Core.Option
use file_share_server.Common.{
  ℕ, zero, suc, ◌+◌, ◌-◌, ◌/◌, ◌==◌, ltb, leb, if◌then◌else◌, true, false, Option, none, some, List,
  [], ◌∷◌, ◌++◌, ℤ, pos, negsuc, int_eq, Outcome, done, fault, exited, ◌>>=◌,
}

pub record LinkedList {ℓ} (A : Type ℓ) : Type ℓ where
  pub items : List A
  pub count : ℕ

-- A pointer to the node that holds `item`.
pub record Cursor {ℓ} (A : Type ℓ) : Type ℓ where
  pub before : List A
  pub item : A
  pub next : List A

-- `node_constructor`, as `create_node_ll` calls it.
unfoldable pub create_node {ℓ} : {A : Type ℓ} → A → ℕ → Outcome A
create_node value size = if ltb size 1 then exited else done value

-- `index - 1`, which C computes in `int`.
abbrev pub predecessor : ℤ → ℤ
predecessor (pos zero) = negsuc 0
predecessor (pos (suc n)) = pos n
predecessor (negsuc n) = negsuc (suc n)

module _ {ℓ} {A : Type ℓ} where
  unfoldable pub linked_list_constructor : LinkedList A
  linked_list_constructor = record { items = []; count = 0 }

  -- The walk of `iterate_ll`: `steps` more nodes to go; reading `next` of NULL is a fault.
  unfoldable pub walk : ℕ → List A → List A → Outcome (Option (Cursor A))
  walk zero before [] = done none
  walk (suc steps) before [] = fault
  walk zero before (x ∷ rest) = done (some (record { before = before; item = x; next = rest }))
  walk (suc steps) before (x ∷ rest) = walk steps (before ++ x ∷ []) rest

  unfoldable pub iterate : LinkedList A → ℤ → Outcome (Option (Cursor A))
  unfolding walk
  iterate list (negsuc n) = done none
  iterate list (pos index) = if leb list.count index then done none else walk index [] list.items

  unfoldable pub insert_behind : LinkedList A → A → Option (Cursor A) → Outcome (LinkedList A)
  insert_behind list node none = done list
  insert_behind list node (some cursor) = done (record {
    items = cursor.before ++ (cursor.item ∷ node ∷ cursor.next);
    count = list.count + 1;
  })

  unfoldable pub insert : LinkedList A → ℤ → A → ℕ → Outcome (LinkedList A)
  unfolding insert_behind create_node iterate
  insert list index value size = do
    node ← create_node value size
    if int_eq index (pos 0)
        then done (record { items = node ∷ list.items; count = list.count + 1 })
        else (do cursor ← iterate list (predecessor index); insert_behind list node cursor)

  -- The data of a removed node goes to `free_data`: it is the second result.
  unfoldable pub remove_head : LinkedList A → List A → Outcome (LinkedList A × List A)
  remove_head list [] = done (list, [])
  remove_head list (x ∷ rest) = done (record { items = rest; count = list.count - 1 }, x ∷ [])

  -- `cursor->next->next` with `cursor->next` NULL is a fault.
  unlink : LinkedList A → List A → A → List A → Outcome (LinkedList A × List A)
  unlink list before item [] = fault
  unlink list before item (x ∷ rest) =
      done (record { items = before ++ (item ∷ rest); count = list.count - 1 }, x ∷ [])

  remove_behind : LinkedList A → Option (Cursor A) → Outcome (LinkedList A × List A)
  unfolding unlink
  remove_behind list none = done (list, [])
  remove_behind list (some cursor) = unlink list cursor.before cursor.item cursor.next

  unfoldable pub remove_node : LinkedList A → ℤ → Outcome (LinkedList A × List A)
  unfolding remove_head remove_behind iterate
  remove_node list index =
      if int_eq index (pos 0)
      then remove_head list list.items
      else (do cursor ← iterate list (predecessor index); remove_behind list cursor)

  unfoldable pub retrieve : LinkedList A → ℤ → Outcome (Option A)
  unfolding iterate
  retrieve list index = do cursor ← iterate list index; done (Option.map (λ c. c.item) cursor)

  -- `for (int i = 0; i < list->length; i++) remove(list, 0)`, the data freed so far in `freed`.
  -- `linked_list_destructor` gives it `count + 1` rounds of fuel.
  destroy_loop : ℕ → ℕ → LinkedList A → List A → Outcome (LinkedList A × List A)
  destroy_loop zero i list freed = fault
  destroy_loop (suc fuel) i list freed = elim (ltb i list.count) [
    | true ↦ do
      (list', gone) ← remove_node list (pos 0)
      destroy_loop fuel (i + 1) list' (freed ++ gone)
    | false ↦ done (list, freed)
  ]

  pub linked_list_destructor : LinkedList A → Outcome (LinkedList A × List A)
  unfolding destroy_loop remove_node
  linked_list_destructor list = destroy_loop (list.count + 1) 0 list []

  -- `retrieve` gives the data of the first node, and the loop reads it as a node: undefined
  -- unless there is none.
  pub bubble_sort : (A → A → ℤ) → LinkedList A → Outcome (LinkedList A)
  unfolding retrieve
  bubble_sort compare list = do
    first ← retrieve list (pos 0)
    elim first [ none ↦ done list | some _ ↦ fault ]

  -- The loop of `binary_search_ll`; `binary_search` gives it `count + 1` rounds. Comparing with
  -- the NULL that `retrieve` gives out of range is a fault, and so is a sum beyond the range of `int`.
  search_loop :
      (A → A → ℤ) → A → LinkedList A → ℕ → (position min_checked max_checked : ℕ) → Outcome ℕ
  search_loop compare query list zero position min_checked max_checked = fault
  search_loop compare query list (suc fuel) position min_checked max_checked =
      elim (ltb min_checked max_checked) [
        | false ↦ done 0
        | true ↦ do
          found ← retrieve list (pos position)
          elim found [
            | none ↦ fault
            | some item ↦
                let below = (min_checked + position) / 2 in
                let above = (max_checked + position) / 2 in
                let go_below = search_loop compare query list fuel below min_checked position in
                let go_above = search_loop compare query list fuel above position max_checked in
                if int_eq (compare item query) (pos 1)
                then (if ltb 2147483647 (min_checked + position)
                    then fault
                    else (if position == below then done 0 else go_below))
                else (if int_eq (compare item query) (negsuc 0)
                    then (if ltb 2147483647 (max_checked + position)
                        then fault
                        else (if position == above then done 0 else go_above))
                    else done 1)
          ]
      ]

  pub binary_search : (A → A → ℤ) → LinkedList A → A → Outcome ℕ
  unfolding search_loop retrieve
  binary_search compare list query =
      search_loop compare query list (list.count + 1) (list.count / 2) 0 list.count

  -- The rounds of `to_json_ll` from `i` on, with `left` of them to go.
  unfoldable pub json_loop : (A → List ℕ) → LinkedList A → ℕ → ℕ → List ℕ → Outcome (List ℕ)
  json_loop to_json list zero i json = done json
  json_loop to_json list (suc left) i json = do
    found ← retrieve list (pos i)
    elim found [
      | none ↦ fault
      | some item ↦
          let comma = if i + 1 == list.count then [] else b',' ∷ [] in
          json_loop to_json list left (i + 1) (json ++ (to_json item ++ comma))
    ]

  unfoldable pub list_to_json : (A → List ℕ) → LinkedList A → Outcome (List ℕ)
  unfolding json_loop retrieve
  list_to_json to_json list = do
    json ← json_loop to_json list list.count 0 (b'[' ∷ [])
    done (json ++ (b']' ∷ []))
