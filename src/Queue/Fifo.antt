-- ===== src/Queue/Fifo.antt =====
-- The queue of queue.c is a first-in, first-out queue.
use file_share_server.Common.{
  ℕ, suc, ◌<◌, ◌≡◌, ap, ◌∙◌, List, [], ◌∷◌, ◌++◌, done, arith, length, take, drop, get_elem?,
}
use file_share_server.LinkedList.Access.{
  IsValid, insert_at_end, appended, appended-IsValid, removed, retrieve-get_elem?,
  remove_node_inside, remove_node_empty,
}
use file_share_server.Queue.{Queue, push, peek, pop}

module _ {A : Type 0} where
  -- The queue holds the data `xs`, the oldest first.
  pub record Holds (q : Queue A) (xs : List A) : Type 0 where
    pub items : q.list.items ≡ xs
    pub valid : IsValid q.list

  -- A push of a datum that has a size returns, and puts the datum behind all the others.
  pub push-Holds :
      (q : Queue A) (xs : List A) (x : A) (size : ℕ)
      → Holds q xs
      → 0 < size
      → (q' : Queue A) × (push q x size ≡ done q') × Holds q' (xs ++ x ∷ [])
  unfolding push
  push-Holds q xs x size h positive = (
    record { list = appended q.list x },
    rw (insert_at_end q.list x size h.valid positive),
    record { items = ap (λ ys. ys ++ x ∷ []) h.items; valid = appended-IsValid q.list x h.valid },
  )

  -- A peek shows the oldest datum, and NULL in an empty queue.
  pub peek-Holds : (q : Queue A) (xs : List A) → Holds q xs → peek q ≡ done (get_elem? xs 0)
  unfolding peek
  peek-Holds q xs h = retrieve-get_elem? q.list 0 h.valid ∙ ap (λ ys. done (get_elem? ys 0)) h.items

  -- A pop takes out and frees the oldest datum, and changes nothing in an empty queue.
  pub pop-Holds :
      (q : Queue A) (xs : List A)
      → Holds q xs
      → (q' : Queue A) × (pop q ≡ done (q', take 1 xs)) × Holds q' (drop 1 xs)
  unfolding pop
  pop-Holds q [] h = (q, rw (remove_node_empty q.list h.items), h)
  pop-Holds q (x ∷ xs) h =
      let l = q.list in
      let size : length l.items ≡ suc (length xs) = ap length h.items in
      let (y, g, e) = remove_node_inside l 0 h.valid (omega arith) in
      let shorter : length (drop 1 l.items) ≡ length xs = ap (λ ys. length (drop 1 ys)) h.items in
      let same : y ≡ x = ground (arith, ap (λ ys. get_elem? ys 0) h.items) in
      (
        record { list = removed l 0 },
        rw (e, same),
        record {
          items = ap (drop 1) h.items;
          valid = record { counted = omega (arith, h.valid.counted) };
        },
      )
