-- ===== src/Queue/Runs.antt =====
-- Sequences of operations on the queue of queue.c.
use file_share_server.Common.{
  ℕ, ◌<◌, ◌≡◌, refl, Option, List, [], ◌∷◌, ◌++◌, Outcome, done, take, drop, get_elem?, ◌>>=◌, All,
}
use file_share_server.Queue.{Queue, push, peek, pop}
use file_share_server.Queue.Fifo.{Holds, push-Holds, peek-Holds, pop-Holds}

-- A call of one of the operations of the queue.
pub data Operation (A : Type 0) : Type 0 where
  pushing : A → ℕ → Operation A
  peeking : Operation A
  popping : Operation A

-- What a call gives: the datum that `peek` shows, or the data that `pop` frees.
pub data Result (A : Type 0) : Type 0 where
  pushed : Result A
  shown : Option A → Result A
  freed : List A → Result A

module _ {A : Type 0} where
  unfoldable pub perform : Queue A → Operation A → Outcome (Queue A × Result A)
  perform queue (pushing value size) = do queue' ← push queue value size; done (queue', pushed)
  perform queue peeking = do item ← peek queue; done (queue, shown item)
  perform queue popping = do (queue', items) ← pop queue; done (queue', freed items)

  -- The calls in their order, and what they give.
  unfoldable pub run : Queue A → List (Operation A) → Outcome (Queue A × List (Result A))
  run queue [] = done (queue, [])
  run queue (operation ∷ rest) = do
    (next, result) ← perform queue operation
    (last, results) ← run next rest
    done (last, result ∷ results)

  -- The first-in, first-out queue: what it holds after a call, and what the call gives.
  abbrev pub fifo_step : List A → Operation A → List A × Result A
  fifo_step xs (pushing value size) = (xs ++ value ∷ [], pushed)
  fifo_step xs peeking = (xs, shown (get_elem? xs 0))
  fifo_step xs popping = (drop 1 xs, freed (take 1 xs))

  abbrev pub fifo : List A → List (Operation A) → List A × List (Result A)
  fifo xs [] = (xs, [])
  fifo xs (operation ∷ rest) =
      let next = fifo_step xs operation in let tail = fifo next.0 rest in (tail.0, next.1 ∷ tail.1)

  -- A datum that is pushed has a size.
  abbrev pub HasSize : Operation A → Type 0
  HasSize (pushing value size) = 0 < size
  HasSize peeking = Unit {0}
  HasSize popping = Unit {0}

  perform-Holds :
      (q : Queue A) (xs : List A) (operation : Operation A)
      → Holds q xs
      → HasSize operation
      → (q' : Queue A) × (perform q operation ≡ done (q', (fifo_step xs operation).1))
        × Holds q' (fifo_step xs operation).0
  unfolding perform
  perform-Holds q xs (pushing value size) h positive =
      let (q', e, h') = push-Holds q xs value size h positive in (q', rw e, h')
  perform-Holds q xs peeking h positive = (q, rw (peek-Holds q xs h), h)
  perform-Holds q xs popping h positive = let (q', e, h') = pop-Holds q xs h in (q', rw e, h')

  -- Where a queue holds some data and each datum that is pushed has a size: any sequence of calls of
  -- `push`, `peek` and `pop` returns, gives what a first-in, first-out queue of these data gives,
  -- and leaves the queue holding what that one holds.
  pub run-fifo :
      (q : Queue A) (xs : List A) (operations : List (Operation A))
      → Holds q xs
      → All HasSize operations
      → (q' : Queue A) × (run q operations ≡ done (q', (fifo xs operations).1))
        × Holds q' (fifo xs operations).0
  unfolding run
  run-fifo q xs [] h sizes = (q, refl, h)
  run-fifo q xs (operation ∷ rest) h sizes =
      let (next, e, h1) = perform-Holds q xs operation h sizes.0 in
      let (last, e', h2) = run-fifo next (fifo_step xs operation).0 rest h1 sizes.1 in
      (last, rw e (rw e'), h2)
