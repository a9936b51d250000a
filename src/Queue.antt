-- ===== src/Queue.antt =====
-- src/data_structures/lists/queue.c: a queue is a linked list that grows at its end.
pub mod Fifo
pub mod Runs
use file_share_server.Common.{ℕ, Option, List, pos, Outcome, ◌>>=◌}
use file_share_server.LinkedList
use file_share_server.LinkedList.{LinkedList}

pub record Queue {ℓ} (A : Type ℓ) : Type ℓ where
  pub list : LinkedList A

module _ {ℓ} {A : Type ℓ} where
  unfoldable pub queue_constructor : Queue A
  queue_constructor = record { list = LinkedList.linked_list_constructor }

  unfoldable pub push : Queue A → A → ℕ → Outcome (Queue A)
  push queue value size = do
    list ← LinkedList.insert queue.list (pos queue.list.count) value size
    Outcome.done (record { list = list })

  unfoldable pub peek : Queue A → Outcome (Option A)
  peek queue = LinkedList.retrieve queue.list (pos 0)

  unfoldable pub pop : Queue A → Outcome (Queue A × List A)
  pop queue = do
    (list, freed) ← LinkedList.remove_node queue.list (pos 0)
    Outcome.done (record { list = list }, freed)

  pub queue_destructor : Queue A → Outcome (Queue A × List A)
  queue_destructor queue = do
    (list, freed) ← LinkedList.linked_list_destructor queue.list
    Outcome.done (record { list = list }, freed)
