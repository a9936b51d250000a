-- ===== src/ThreadPool.antt =====
-- src/systems/thread_pool.c: the workers and their queue of jobs, as sequences of moves. A worker
-- that finds the lock held moves nowhere. The functions of pthread are taken as POSIX has them:
-- `pthread_cond_wait` gives the lock back, waits, and takes the lock again.
pub mod Invariant
pub mod Signals
use file_share_server.Common.{
  ℕ, zero, suc, ◌==◌, if◌then◌else◌, Bool, true, false, none, some, List, [], ◌∷◌, ◌++◌, replicate,
  Outcome, done, ◌>>=◌,
}
use file_share_server.Queue
use file_share_server.Queue.{Queue, queue_constructor}

-- Where a worker stands in the loop of `generic_thread_function`.
pub data Worker (Job : Type 0) : Type 0 where
  -- At the test of `active`.
  testing : Worker Job
  -- At `pthread_mutex_lock`.
  locking : Worker Job
  -- Behind it, with the lock.
  entering : Worker Job
  -- In `pthread_cond_wait`, without the lock, before a signal and after it.
  waiting : Worker Job
  signalled : Worker Job
  -- Behind it, with the lock.
  taking : Worker Job
  -- In the job, without the lock.
  running : Job → Worker Job
  finished : Worker Job

-- What the threads share, and, in their order, the jobs that were added and those that were taken.
pub record ThreadPool (Job : Type 0) : Type 0 where
  pub active : ℕ
  pub work : Queue Job
  pub is_locked : Bool
  pub added : List Job
  pub taken : List Job

-- What happens next: a worker goes on, a job is added and the signal wakes the worker of that
-- number if it waits, or a worker is woken without a signal.
pub data Event (Job : Type 0) : Type 0 where
  go_on : ℕ → Event Job
  adding : Job → ℕ → Event Job
  waking : ℕ → Event Job

module _ {Job : Type 0} where
  -- From `peek` to `pthread_mutex_unlock`.
  unfoldable pub take_job : ThreadPool Job → Outcome (ThreadPool Job × Worker Job)
  take_job pool = do
    thread_job ← Queue.peek pool.work
    elim thread_job [
      | none ↦ done (record pool { is_locked = false }, testing)
      | some job ↦ do
        (work, freed) ← Queue.pop pool.work
        done (
          record pool { work = work; is_locked = false; taken = pool.taken ++ job ∷ [] },
          running job,
        )
    ]

  -- One move of a worker.
  unfoldable pub generic_thread_function :
      ThreadPool Job → Worker Job → Outcome (ThreadPool Job × Worker Job)
  generic_thread_function pool testing = done (pool, if pool.active == 1 then locking else finished)
  generic_thread_function pool locking =
      if pool.is_locked
      then done (pool, locking)
      else done (record pool { is_locked = true }, entering)
  generic_thread_function pool entering = done (record pool { is_locked = false }, waiting)
  generic_thread_function pool waiting = done (pool, waiting)
  generic_thread_function pool signalled =
      if pool.is_locked
      then done (pool, signalled)
      else done (record pool { is_locked = true }, taking)
  generic_thread_function pool taking = take_job pool
  generic_thread_function pool (running job) = done (pool, testing)
  generic_thread_function pool finished = done (pool, finished)

  unfoldable pub go_on_at :
      ThreadPool Job → List (Worker Job) → ℕ → Outcome (ThreadPool Job × List (Worker Job))
  go_on_at pool [] i = done (pool, [])
  go_on_at pool (worker ∷ workers) zero = do
    (pool', worker') ← generic_thread_function pool worker
    done (pool', worker' ∷ workers)
  go_on_at pool (worker ∷ workers) (suc i) = do
    (pool', workers') ← go_on_at pool workers i
    done (pool', worker ∷ workers')

  abbrev pub woken : Worker Job → Worker Job
  woken testing = testing
  woken locking = locking
  woken entering = entering
  woken waiting = signalled
  woken signalled = signalled
  woken taking = taking
  woken (running job) = running job
  woken finished = finished

  abbrev pub wake_at : List (Worker Job) → ℕ → List (Worker Job)
  wake_at [] i = []
  wake_at (worker ∷ workers) zero = woken worker ∷ workers
  wake_at (worker ∷ workers) (suc i) = worker ∷ wake_at workers i

  -- The caller holds the lock from the push to the signal; where the lock is held it has to wait. A
  -- job has 16 bytes.
  unfoldable pub add_work :
      ThreadPool Job → List (Worker Job) → Job → ℕ → Outcome (ThreadPool Job × List (Worker Job))
  add_work pool workers job i = if pool.is_locked then done (pool, workers) else (do
    work ← Queue.push pool.work job 16
    done (record pool { work = work; added = pool.added ++ job ∷ [] }, wake_at workers i))

  unfoldable pub happen :
      ThreadPool Job → List (Worker Job) → Event Job → Outcome (ThreadPool Job × List (Worker Job))
  happen pool workers (go_on i) = go_on_at pool workers i
  happen pool workers (adding job i) = add_work pool workers job i
  happen pool workers (waking i) = done (pool, wake_at workers i)

  unfoldable pub run :
      ThreadPool Job
      → List (Worker Job)
      → List (Event Job)
      → Outcome (ThreadPool Job × List (Worker Job))
  run pool workers [] = done (pool, workers)
  run pool workers (event ∷ events) = do
    (pool', workers') ← happen pool workers event
    run pool' workers' events

  -- The pool and the workers of `thread_pool_constructor`.
  unfoldable pub thread_pool_constructor : ℕ → ThreadPool Job × List (Worker Job)
  thread_pool_constructor num_threads = (
    record { active = 1; work = queue_constructor; is_locked = false; added = []; taken = [] },
    replicate num_threads testing,
  )
