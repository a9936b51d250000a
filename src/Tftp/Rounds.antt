-- ===== src/Tftp/Rounds.antt =====
-- src/networking/tftp/tftp_client_handle.c: what a round of `_send_file` reads of a file, in windows
-- of one block.
use file_share_server.Common.{
  ℕ, zero, suc, ◌+◌, ◌*◌, ◌/◌, ◌%◌, ◌≤◌, ◌<◌, ◌==◌, min, ltb, ◌≡◌, refl, ap, if◌then◌else◌, true,
  some, List, [], ◌∷◌, ◌++◌, append-nil, length, length-append, take, drop, arith,
}
use file_share_server.Checksum.Sum.{IsBytes}
use file_share_server.Tftp.Transfer.{slice, is_reply}
use file_share_server.Tftp.Blocks.{concat, IsBlocks, take_front}

-- What is left of a file of that size behind `k` blocks; behind the last there is nothing.
abbrev pub IsLeft : (block_size size k : ℕ) → List (List ℕ) → Type 0
IsLeft block_size size k [] = (size < k * block_size) × (k * block_size ≤ size + block_size)
IsLeft block_size size k (block ∷ blocks) =
    IsBlocks block_size (block ∷ blocks)
    × (k * block_size + length (concat (block ∷ blocks)) ≡ size)

drop_front : (xs ys : List ℕ) → drop (length xs) (xs ++ ys) ≡ ys
drop_front [] ys = refl
drop_front (x ∷ xs) ys = drop_front xs ys

pub take_more : (n : ℕ) (xs : List ℕ) → length xs ≤ n → take n xs ≡ xs
take_more zero [] h = refl
take_more zero (x ∷ xs) h = absurd (omega arith)
take_more (suc n) [] h = refl
take_more (suc n) (x ∷ xs) h = ap (λ ys. x ∷ ys) (take_more n xs (omega arith))

drop_more : (n : ℕ) (xs : List ℕ) → length xs ≤ n → drop n xs ≡ []
drop_more zero [] h = refl
drop_more zero (x ∷ xs) h = absurd (omega arith)
drop_more (suc n) [] h = refl
drop_more (suc n) (x ∷ xs) h = drop_more n xs (omega arith)

-- What a round reads, and what it leaves.
pub reads :
    (block_size : ℕ) (block : List ℕ) (blocks : List (List ℕ))
    → IsBlocks block_size (block ∷ blocks)
    → (take (block_size * 1) (concat (block ∷ blocks)) ≡ block)
      × (drop (block_size * 1) (concat (block ∷ blocks)) ≡ concat blocks)
reads block_size block [] b =
    let whole = append-nil block in
    rw whole (
      take_more (block_size * 1) block (omega (arith, b.0)),
      drop_more (block_size * 1) block (omega (arith, b.0)),
    )
reads block_size block (other ∷ blocks) b =
    let size : block_size * 1 ≡ length block = omega (arith, b.0.0) in
    rw size (take_front block (concat (other ∷ blocks)), drop_front block (concat (other ∷ blocks)))

-- A block is what is left of the file, but for its size.
pub block_length :
    (block_size : ℕ) (block : List ℕ) (blocks : List (List ℕ))
    → IsBlocks block_size (block ∷ blocks)
    → min (length (concat (block ∷ blocks))) block_size ≡ length block
block_length block_size block [] b = rw (append-nil block) (omega (arith, b.0))
block_length block_size block (other ∷ blocks) b =
    omega (arith, b.0.0, length-append {0} block (concat (other ∷ blocks)))

pub block_IsBytes :
    (block_size : ℕ) (block : List ℕ) (blocks : List (List ℕ))
    → IsBlocks block_size (block ∷ blocks)
    → IsBytes block × (length block ≤ block_size)
block_IsBytes block_size block [] b = (b.1, omega (arith, b.0))
block_IsBytes block_size block (other ∷ blocks) b = (b.0.1, omega (arith, b.0.0))

pub slice_front : (block rest : List ℕ) → slice 0 (length block) (block ++ rest) ≡ some block
slice_front block rest =
    let whole : (length block == length block) ≡ true = ground arith in
    rw (take_front block rest, whole) refl

-- What is left behind a block.
pub IsLeft-after :
    (block_size size k : ℕ) (block : List ℕ) (blocks : List (List ℕ))
    → IsLeft block_size size k (block ∷ blocks)
    → IsLeft block_size size (k + 1) blocks
IsLeft-after block_size size k block [] h =
    let last = length-append {0} block [] in
    (omega (arith, h.1, h.0.0, last), omega (arith, h.1, h.0.0, last))
IsLeft-after block_size size k block (other ∷ blocks) h =
    (h.0.1, omega (arith, h.1, h.0.0.0, length-append {0} block (concat (other ∷ blocks))))

-- The numbers of the block that follows an acknowledgement.
pub replied :
    (k : ℕ)
    → (is_reply (k % 65536 + 1) ((k + 1) % 65536) (k % 65536) ≡ true)
      × ((if ltb ((k + 1) % 65536) (k % 65536) then k / 65536 + 1 else k / 65536) ≡ (k + 1) / 65536)
replied k = (ground arith, ground arith)

-- Where the numbers of a block stand in the file.
pub placed : (k : ℕ) → k / 65536 * 65536 + k % 65536 + 0 ≡ k
placed k = omega arith
