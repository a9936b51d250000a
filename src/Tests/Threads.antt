-- ===== src/Tests/Threads.antt =====
-- The theorems on the thread pool at pools of two threads.
use file_share_server.Common.{ℕ, ◌≡◌, refl, false, List, [], ◌∷◌, done}
use file_share_server.LinkedList
use file_share_server.Queue
use file_share_server.ThreadPool.{
  Worker, testing, waiting, running, ThreadPool, Event, go_on, adding, waking, take_job,
  generic_thread_function, go_on_at, add_work, happen, run, thread_pool_constructor,
}
use file_share_server.ThreadPool.Invariant.{IsSound, lock_holders, run-thread_pool}
use file_share_server.ThreadPool.Signals.{IsUntouched, IsUnsignalled, moves, run-IsUntouched}

-- The first worker waits, is signalled for the job 7 and takes it; then 8 is added.
abbrev events : List (Event ℕ)
events =
    go_on 0
    ∷ go_on 0
    ∷ go_on 1
    ∷ go_on 0
    ∷ adding 7 0
    ∷ go_on 0
    ∷ go_on 1
    ∷ go_on 0
    ∷ adding 8 0
    ∷ waking 1
    ∷ []

abbrev one_job : ℕ → List ℕ → List ℕ → ThreadPool ℕ
one_job job added taken = record {
  active = 1;
  work = record { list = record { items = job ∷ []; count = 1 } };
  is_locked = false;
  added = added;
  taken = taken;
}

jobs_in_order :
    run (thread_pool_constructor 2).0 (thread_pool_constructor 2).1 events
    ≡ done (one_job 8 (7 ∷ 8 ∷ []) (7 ∷ []), running 7 ∷ Worker.locking ∷ [])
unfolding run happen go_on_at add_work generic_thread_function take_job thread_pool_constructor
    Queue.queue_constructor Queue.push Queue.peek Queue.pop LinkedList.linked_list_constructor
    LinkedList.insert LinkedList.insert_behind LinkedList.iterate LinkedList.walk
    LinkedList.create_node LinkedList.retrieve LinkedList.remove_node LinkedList.remove_head
jobs_in_order = refl

run-thread_pool_example :
    (next : ThreadPool ℕ × List (Worker ℕ)) × (run
        (thread_pool_constructor 2).0
        (thread_pool_constructor 2).1
        events
      ≡ done next)
    × IsSound next.0 (lock_holders next.1)
run-thread_pool_example = run-thread_pool 2 events

-- The job 7 was added before a worker waited: its signal woke none.
run-IsUntouched_example :
    (next : ThreadPool ℕ × List (Worker ℕ)) × (run
        (one_job 7 (7 ∷ []) [])
        (testing ∷ waiting ∷ [])
        (moves (0 ∷ 0 ∷ 0 ∷ 1 ∷ 0 ∷ []))
      ≡ done next)
    × IsUntouched (one_job 7 (7 ∷ []) []) next.0
    × IsUnsignalled next.1
unfolding IsUnsignalled
run-IsUntouched_example =
    run-IsUntouched (one_job 7 (7 ∷ []) []) (testing ∷ waiting ∷ []) (0 ∷ 0 ∷ 0 ∷ 1 ∷ 0 ∷ [])
      (refl, (refl, tt))
