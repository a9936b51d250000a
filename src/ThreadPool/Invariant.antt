-- ===== src/ThreadPool/Invariant.antt =====
-- The jobs and the lock of src/systems/thread_pool.c.
use file_share_server.Common.{
  ℕ, zero, suc, ◌+◌, ◌==◌, ◌≡◌, refl, sym, ap, ◌∙◌, if◌then◌else◌, Bool, true, false, List, [], ◌∷◌,
  ◌++◌, append_assoc, replicate, done, arith,
}
use file_share_server.Queue.{queue_constructor}
use file_share_server.Queue.Fifo.{Holds, push-Holds, peek-Holds, pop-Holds}
use file_share_server.LinkedList.{linked_list_constructor}
use file_share_server.ThreadPool.{
  Worker, testing, locking, entering, waiting, signalled, taking, running, finished, ThreadPool,
  Event, go_on, adding, waking, take_job, generic_thread_function, go_on_at, woken, wake_at,
  add_work, happen, run, thread_pool_constructor,
}

module _ {Job : Type 0} where
  -- 1 for a worker that has the lock.
  abbrev pub has_lock : Worker Job → ℕ
  has_lock testing = 0
  has_lock locking = 0
  has_lock entering = 1
  has_lock waiting = 0
  has_lock signalled = 0
  has_lock taking = 1
  has_lock (running job) = 0
  has_lock finished = 0

  abbrev pub lock_holders : List (Worker Job) → ℕ
  lock_holders [] = 0
  lock_holders (worker ∷ workers) = has_lock worker + lock_holders workers

  -- The jobs that were added are those that were taken and then those in the queue, in the same
  -- order; `holders` workers have the lock, one where it is held and none where it is not.
  pub record IsSound (pool : ThreadPool Job) (holders : ℕ) : Type 0 where
    pub jobs : List Job
    pub holds : Holds pool.work jobs
    pub in_order : pool.added ≡ pool.taken ++ jobs
    pub exclusive : holders ≡ (if pool.is_locked then 1 else 0)

  take_job-IsSound :
      (pool : ThreadPool Job) (others : ℕ) (jobs : List Job)
      → Holds pool.work jobs
      → pool.added ≡ pool.taken ++ jobs
      → 1 + others ≡ (if pool.is_locked then 1 else 0)
      → (next : ThreadPool Job × Worker Job) × (take_job pool ≡ done next)
        × IsSound next.0 (has_lock next.1 + others)
  unfolding take_job
  take_job-IsSound pool others [] h order held = (
    (record pool { is_locked = false }, testing),
    rw (peek-Holds pool.work [] h),
    record { jobs = []; holds = h; in_order = order; exclusive = ground arith },
  )
  take_job-IsSound pool others (job ∷ jobs) h order held =
      let (work, e, rest) = pop-Holds pool.work (job ∷ jobs) h in
      (
        (
          record pool { work = work; is_locked = false; taken = pool.taken ++ job ∷ [] },
          running job,
        ),
        rw (peek-Holds pool.work (job ∷ jobs) h, e),
        record {
          jobs = jobs;
          holds = rest;
          in_order = order ∙ sym (append_assoc pool.taken (job ∷ []) jobs);
          exclusive = ground arith;
        },
      )

  -- A worker at `pthread_mutex_lock`.
  acquire-IsSound :
      (pool : ThreadPool Job) (before behind : Worker Job) (others : ℕ) (is_locked : Bool)
      → pool.is_locked ≡ is_locked
      → has_lock before ≡ 0
      → has_lock behind ≡ 1
      → IsSound pool (has_lock before + others)
      → (next : ThreadPool Job × Worker Job) × ((if is_locked
            then done (pool, before)
            else done (record pool { is_locked = true }, behind))
          ≡ done next)
        × IsSound next.0 (has_lock next.1 + others)
  acquire-IsSound pool before behind others true locked free held s = ((pool, before), refl, s)
  acquire-IsSound pool before behind others false locked free held s = (
    (record pool { is_locked = true }, behind),
    refl,
    record {
      jobs = s.jobs;
      holds = s.holds;
      in_order = s.in_order;
      exclusive = ground (arith, s.exclusive, locked, free, held);
    },
  )

  no_lock :
      (b : Bool) (worker other : Worker Job)
      → has_lock worker ≡ 0
      → has_lock other ≡ 0
      → has_lock (if b then worker else other) ≡ 0
  no_lock true worker other h k = h
  no_lock false worker other h k = k

  move-IsSound :
      (pool : ThreadPool Job) (worker : Worker Job) (others : ℕ)
      → IsSound pool (has_lock worker + others)
      → (next : ThreadPool Job × Worker Job) × (generic_thread_function pool worker ≡ done next)
        × IsSound next.0 (has_lock next.1 + others)
  unfolding generic_thread_function
  move-IsSound pool testing others s = (
    (pool, if pool.active == 1 then locking else finished),
    refl,
    rw (no_lock (pool.active == 1) locking finished refl refl) s,
  )
  move-IsSound pool locking others s =
      acquire-IsSound pool locking entering others pool.is_locked refl refl refl s
  move-IsSound pool entering others s = (
    (record pool { is_locked = false }, waiting),
    refl,
    record {
      jobs = s.jobs;
      holds = s.holds;
      in_order = s.in_order;
      exclusive = ground (arith, s.exclusive);
    },
  )
  move-IsSound pool waiting others s = ((pool, waiting), refl, s)
  move-IsSound pool signalled others s =
      acquire-IsSound pool signalled taking others pool.is_locked refl refl refl s
  move-IsSound pool taking others s =
      take_job-IsSound pool others s.jobs s.holds s.in_order s.exclusive
  move-IsSound pool (running job) others s = ((pool, testing), refl, s)
  move-IsSound pool finished others s = ((pool, finished), refl, s)

  -- Another count of the same workers.
  regroup : {pool : ThreadPool Job} {m n : ℕ} → IsSound pool m → n ≡ m → IsSound pool n
  regroup s e = record {
    jobs = s.jobs;
    holds = s.holds;
    in_order = s.in_order;
    exclusive = e ∙ s.exclusive;
  }

  -- The workers at and behind a place; `others` have the lock of those before it.
  go_on_at-IsSound :
      (pool : ThreadPool Job) (workers : List (Worker Job)) (i others : ℕ)
      → IsSound pool (lock_holders workers + others)
      → (next : ThreadPool Job × List (Worker Job)) × (go_on_at pool workers i ≡ done next)
        × IsSound next.0 (lock_holders next.1 + others)
  unfolding go_on_at
  go_on_at-IsSound pool [] i others s = ((pool, []), refl, s)
  go_on_at-IsSound pool (worker ∷ workers) zero others s =
      let (next, e, sound) =
        move-IsSound pool worker (lock_holders workers + others) (regroup s (omega arith)) in
      ((next.0, next.1 ∷ workers), rw e, regroup sound (omega arith))
  go_on_at-IsSound pool (worker ∷ workers) (suc i) others s =
      let (next, e, sound) =
        go_on_at-IsSound pool workers i (has_lock worker + others) (regroup s (omega arith)) in
      ((next.0, worker ∷ next.1), rw e, regroup sound (omega arith))

  has_lock-woken : (worker : Worker Job) → has_lock (woken worker) ≡ has_lock worker
  has_lock-woken testing = refl
  has_lock-woken locking = refl
  has_lock-woken entering = refl
  has_lock-woken waiting = refl
  has_lock-woken signalled = refl
  has_lock-woken taking = refl
  has_lock-woken (running job) = refl
  has_lock-woken finished = refl

  lock_holders-wake_at :
      (workers : List (Worker Job)) (i : ℕ)
      → lock_holders (wake_at workers i) ≡ lock_holders workers
  lock_holders-wake_at [] i = refl
  lock_holders-wake_at (worker ∷ workers) zero =
      ap (λ n. n + lock_holders workers) (has_lock-woken worker)
  lock_holders-wake_at (worker ∷ workers) (suc i) =
      ap (λ n. has_lock worker + n) (lock_holders-wake_at workers i)

  add_work-IsSound :
      (pool : ThreadPool Job) (workers : List (Worker Job)) (job : Job) (i : ℕ) (is_locked : Bool)
      → pool.is_locked ≡ is_locked
      → IsSound pool (lock_holders workers)
      → (next : ThreadPool Job × List (Worker Job)) × (add_work pool workers job i ≡ done next)
        × IsSound next.0 (lock_holders next.1)
  unfolding add_work
  add_work-IsSound pool workers job i true locked s = ((pool, workers), rw locked refl, s)
  add_work-IsSound pool workers job i false locked s =
      let (work, e, holds) = push-Holds pool.work s.jobs job 16 s.holds (omega arith) in
      (
        (record pool { work = work; added = pool.added ++ job ∷ [] }, wake_at workers i),
        rw (locked, e) refl,
        record {
          jobs = s.jobs ++ job ∷ [];
          holds = holds;
          in_order =
              ap (λ jobs. jobs ++ job ∷ []) s.in_order ∙ append_assoc pool.taken s.jobs (job ∷ []);
          exclusive = lock_holders-wake_at workers i ∙ s.exclusive;
        },
      )

  happen-IsSound :
      (pool : ThreadPool Job) (workers : List (Worker Job)) (event : Event Job)
      → IsSound pool (lock_holders workers)
      → (next : ThreadPool Job × List (Worker Job)) × (happen pool workers event ≡ done next)
        × IsSound next.0 (lock_holders next.1)
  unfolding happen
  happen-IsSound pool workers (go_on i) s =
      let (next, e, sound) = go_on_at-IsSound pool workers i 0 (regroup s (omega arith)) in
      (next, e, regroup sound (omega arith))
  happen-IsSound pool workers (adding job i) s =
      add_work-IsSound pool workers job i pool.is_locked refl s
  happen-IsSound pool workers (waking i) s =
      ((pool, wake_at workers i), refl, regroup s (lock_holders-wake_at workers i))

  pub run-IsSound :
      (pool : ThreadPool Job) (workers : List (Worker Job)) (events : List (Event Job))
      → IsSound pool (lock_holders workers)
      → (next : ThreadPool Job × List (Worker Job)) × (run pool workers events ≡ done next)
        × IsSound next.0 (lock_holders next.1)
  unfolding run
  run-IsSound pool workers [] s = ((pool, workers), refl, s)
  run-IsSound pool workers (event ∷ events) s =
      let (next, e, sound) = happen-IsSound pool workers event s in
      let (last, e', sound') = run-IsSound next.0 next.1 events sound in (last, rw e e', sound')

  lock_holders-replicate :
      (n : ℕ) (worker : Worker Job) → has_lock worker ≡ 0 → lock_holders (replicate n worker) ≡ 0
  lock_holders-replicate zero worker h = refl
  lock_holders-replicate (suc n) worker h = omega (arith, lock_holders-replicate n worker h, h)

  -- However the workers and the calls of `add_work` interleave, with wakings without a signal among
  -- them, a pool of any number of threads goes on without a fault: the jobs that were added are
  -- those that were taken, each once and in the order in which they were added, and then those in the
  -- queue; one worker has the lock where it is held, and none where it is not.
  pub run-thread_pool :
      (num_threads : ℕ) (events : List (Event Job))
      → (next : ThreadPool Job × List (Worker Job)) × (run
            (thread_pool_constructor num_threads).0
            (thread_pool_constructor num_threads).1
            events
          ≡ done next)
        × IsSound next.0 (lock_holders next.1)
  unfolding thread_pool_constructor queue_constructor linked_list_constructor
  run-thread_pool num_threads events =
      run-IsSound (thread_pool_constructor num_threads).0 (thread_pool_constructor num_threads).1
        events
        (record {
          jobs = [];
          holds = record { items = refl; valid = record { counted = refl } };
          in_order = refl;
          exclusive = lock_holders-replicate num_threads testing refl;
        })
