-- ===== src/ThreadPool/Signals.antt =====
-- The signals of src/systems/thread_pool.c.
use file_share_server.Common.{
  ℕ, zero, suc, ◌==◌, ◌≡◌, refl, ◌∙◌, if◌then◌else◌, Bool, true, false, List, [], ◌∷◌, All, done,
}
use file_share_server.ThreadPool.{
  Worker, testing, locking, entering, waiting, signalled, taking, running, finished, ThreadPool,
  Event, go_on, generic_thread_function, go_on_at, happen, run,
}

module _ {Job : Type 0} where
  -- A worker that has been woken and not yet looked for a job.
  abbrev pub is_awake : Worker Job → Bool
  is_awake testing = false
  is_awake locking = false
  is_awake entering = false
  is_awake waiting = false
  is_awake signalled = true
  is_awake taking = true
  is_awake (running job) = false
  is_awake finished = false

  unfoldable pub IsUnsignalled : List (Worker Job) → Type 0
  IsUnsignalled workers = All (λ worker. is_awake worker ≡ false) workers

  -- The moves of the workers with these numbers, in this order.
  abbrev pub moves : List ℕ → List (Event Job)
  moves [] = []
  moves (i ∷ is) = go_on i ∷ moves is

  -- The queue and the jobs that were taken are the same.
  pub record IsUntouched (before after : ThreadPool Job) : Type 0 where
    pub same_work : after.work ≡ before.work
    pub same_taken : after.taken ≡ before.taken

  acquire-IsUntouched :
      (pool : ThreadPool Job) (is_locked : Bool)
      → (next : ThreadPool Job × Worker Job) × ((if is_locked
            then done (pool, locking)
            else done (record pool { is_locked = true }, entering))
          ≡ done next)
        × IsUntouched pool next.0
        × (is_awake next.1 ≡ false)
  acquire-IsUntouched pool true =
      ((pool, locking), refl, record { same_work = refl; same_taken = refl }, refl)
  acquire-IsUntouched pool false = (
    (record pool { is_locked = true }, entering),
    refl,
    record { same_work = refl; same_taken = refl },
    refl,
  )

  tested :
      (b : Bool) (worker other : Worker Job)
      → is_awake worker ≡ false
      → is_awake other ≡ false
      → is_awake (if b then worker else other) ≡ false
  tested true worker other h k = h
  tested false worker other h k = k

  move-IsUntouched :
      (pool : ThreadPool Job) (worker : Worker Job)
      → is_awake worker ≡ false
      → (next : ThreadPool Job × Worker Job) × (generic_thread_function pool worker ≡ done next)
        × IsUntouched pool next.0
        × (is_awake next.1 ≡ false)
  unfolding generic_thread_function
  move-IsUntouched pool testing h = (
    (pool, if pool.active == 1 then locking else finished),
    refl,
    record { same_work = refl; same_taken = refl },
    tested (pool.active == 1) locking finished refl refl,
  )
  move-IsUntouched pool locking h = acquire-IsUntouched pool pool.is_locked
  move-IsUntouched pool entering h = (
    (record pool { is_locked = false }, waiting),
    refl,
    record { same_work = refl; same_taken = refl },
    refl,
  )
  move-IsUntouched pool waiting h =
      ((pool, waiting), refl, record { same_work = refl; same_taken = refl }, refl)
  move-IsUntouched pool signalled h = cc
  move-IsUntouched pool taking h = cc
  move-IsUntouched pool (running job) h =
      ((pool, testing), refl, record { same_work = refl; same_taken = refl }, refl)
  move-IsUntouched pool finished h =
      ((pool, finished), refl, record { same_work = refl; same_taken = refl }, refl)

  go_on_at-IsUntouched :
      (pool : ThreadPool Job) (workers : List (Worker Job)) (i : ℕ)
      → IsUnsignalled workers
      → (next : ThreadPool Job × List (Worker Job)) × (go_on_at pool workers i ≡ done next)
        × IsUntouched pool next.0
        × IsUnsignalled next.1
  unfolding go_on_at IsUnsignalled
  go_on_at-IsUntouched pool [] i h =
      ((pool, []), refl, record { same_work = refl; same_taken = refl }, h)
  go_on_at-IsUntouched pool (worker ∷ workers) zero h =
      let (next, e, same, asleep) = move-IsUntouched pool worker h.0 in
      ((next.0, next.1 ∷ workers), rw e refl, same, (asleep, h.1))
  go_on_at-IsUntouched pool (worker ∷ workers) (suc i) h =
      let (next, e, same, asleep) = go_on_at-IsUntouched pool workers i h.1 in
      ((next.0, worker ∷ next.1), rw e refl, same, (h.0, asleep))

  -- Where no worker has been woken, whatever moves the workers make, the queue and the jobs that were
  -- taken stay the same, and no worker has been woken afterwards.
  pub run-IsUntouched :
      (pool : ThreadPool Job) (workers : List (Worker Job)) (numbers : List ℕ)
      → IsUnsignalled workers
      → (next : ThreadPool Job × List (Worker Job)) × (run pool workers (moves numbers) ≡ done next)
        × IsUntouched pool next.0
        × IsUnsignalled next.1
  unfolding run happen
  run-IsUntouched pool workers [] h =
      ((pool, workers), refl, record { same_work = refl; same_taken = refl }, h)
  run-IsUntouched pool workers (i ∷ numbers) h =
      let (next, e, same, asleep) = go_on_at-IsUntouched pool workers i h in
      let (last, e', same', asleep') = run-IsUntouched next.0 next.1 numbers asleep in
      (
        last,
        rw e e',
        record {
          same_work = same'.same_work ∙ same.same_work;
          same_taken = same'.same_taken ∙ same.same_taken;
        },
        asleep',
      )
