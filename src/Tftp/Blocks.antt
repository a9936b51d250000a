-- ===== src/Tftp/Blocks.antt =====
-- The blocks of a file in the packets of src/networking/tftp.
use file_share_server.Common.{
  ℕ, zero, suc, ◌+◌, ◌*◌, ◌≤◌, ◌<◌, ◌≡◌, refl, ap, ◌∙◌, some, List, [], ◌∷◌, ◌++◌, append-nil,
  length, take, drop, ltb, ltb→lt, if◌then◌else◌, true, false, Bool-cases, inl, inr, arith,
}
use file_share_server.Checksum.Sum.{IsBytes}
use file_share_server.Database.{Text, System}
use file_share_server.Tftp.{SockaddrIn, Arrival, arrives, Writer}
use file_share_server.Tftp.Packets.{sealed, data_bytes}

abbrev pub concat : List (List ℕ) → List ℕ
concat [] = []
concat (block ∷ blocks) = block ++ concat blocks

-- All blocks but the last are full, and the last is not.
abbrev pub IsBlocks : ℕ → List (List ℕ) → Type 0
IsBlocks size [] = ⊥
IsBlocks size (block ∷ []) = (length block < size) × IsBytes block
IsBlocks size (block ∷ other ∷ blocks) =
    ((length block ≡ size) × IsBytes block) × IsBlocks size (other ∷ blocks)

-- The packets of the blocks that follow the block `n`.
abbrev pub data_packets : ℕ → List (List ℕ) → List (List ℕ)
data_packets n [] = []
data_packets n (block ∷ blocks) = sealed (data_bytes (n + 1) block) ∷ data_packets (n + 1) blocks

abbrev pub from : SockaddrIn → List (List ℕ) → List Arrival → List Arrival
from address [] rest = rest
from address (packet ∷ packets) rest = arrives address packet ∷ from address packets rest

take_whole : (xs : List ℕ) → take (length xs) xs ≡ xs
take_whole [] = refl
take_whole (x ∷ xs) = ap (λ ys. x ∷ ys) (take_whole xs)

pub take_front : (xs ys : List ℕ) → take (length xs) (xs ++ ys) ≡ xs
take_front [] ys = refl
take_front (x ∷ xs) ys = ap (λ zs. x ∷ zs) (take_front xs ys)

-- What was copied to the front of the packet.
pub take_copied : (xs ys : List ℕ) → take (length xs) (take (length xs) xs ++ ys) ≡ xs
take_copied xs ys = ap (λ zs. take (length xs) (zs ++ ys)) (take_whole xs) ∙ take_front xs ys

-- The blocks of a file: full blocks, and what is left.
unfoldable pub cut : ℕ → ℕ → List ℕ → List (List ℕ)
cut zero size bytes = bytes ∷ []
cut (suc fuel) size bytes =
    if ltb (length bytes) size
    then bytes ∷ []
    else take size bytes ∷ cut fuel size (drop size bytes)

abbrev pub blocks_of : ℕ → List ℕ → List (List ℕ)
blocks_of size bytes = cut (length bytes) size bytes

cut-short :
    (fuel size : ℕ) (bytes : List ℕ)
    → ltb (length bytes) size ≡ true
    → cut (suc fuel) size bytes ≡ bytes ∷ []
unfolding cut
cut-short fuel size bytes e = rw e refl

cut-full :
    (fuel size : ℕ) (bytes : List ℕ)
    → ltb (length bytes) size ≡ false
    → cut (suc fuel) size bytes ≡ take size bytes ∷ cut fuel size (drop size bytes)
unfolding cut
cut-full fuel size bytes e = rw e refl

take-drop : (n : ℕ) (xs : List ℕ) → take n xs ++ drop n xs ≡ xs
take-drop zero xs = refl
take-drop (suc n) [] = refl
take-drop (suc n) (x ∷ xs) = ap (λ ys. x ∷ ys) (take-drop n xs)

length-take_full : (n : ℕ) (xs : List ℕ) → n ≤ length xs → length (take n xs) ≡ n
length-take_full zero xs h = refl
length-take_full (suc n) [] h = absurd (omega arith)
length-take_full (suc n) (x ∷ xs) h = omega (arith, length-take_full n xs (omega arith))

length-drop_full : (n : ℕ) (xs : List ℕ) → n ≤ length xs → length (drop n xs) + n ≡ length xs
length-drop_full zero xs h = omega arith
length-drop_full (suc n) [] h = absurd (omega arith)
length-drop_full (suc n) (x ∷ xs) h = omega (arith, length-drop_full n xs (omega arith))

take-IsBytes : (n : ℕ) (xs : List ℕ) → IsBytes xs → IsBytes (take n xs) × IsBytes (drop n xs)
take-IsBytes zero xs h = (tt, h)
take-IsBytes (suc n) [] h = (tt, tt)
take-IsBytes (suc n) (x ∷ xs) h = let rest = take-IsBytes n xs h.1 in ((h.0, rest.0), rest.1)

pub concat-cut : (fuel size : ℕ) (bytes : List ℕ) → concat (cut fuel size bytes) ≡ bytes
unfolding cut
concat-cut zero size bytes = append-nil bytes
concat-cut (suc fuel) size bytes = elim (Bool-cases (ltb (length bytes) size)) [
  | inl e ↦ rw (cut-short fuel size bytes e) (append-nil bytes)
  | inr e ↦
      rw (cut-full fuel size bytes e, concat-cut fuel size (drop size bytes)) (take-drop size bytes)
]

full_before :
    (size : ℕ) (block : List ℕ) (blocks : List (List ℕ))
    → length block ≡ size
    → IsBytes block
    → IsBlocks size blocks
    → IsBlocks size (block ∷ blocks)
full_before size block [] e b h = absurd h
full_before size block (other ∷ blocks) e b h = ((e, b), h)

pub cut-IsBlocks :
    (fuel size : ℕ) (bytes : List ℕ)
    → 0 < size
    → length bytes ≤ fuel
    → IsBytes bytes
    → IsBlocks size (cut fuel size bytes)
unfolding cut
cut-IsBlocks zero size bytes p f b = (omega arith, b)
cut-IsBlocks (suc fuel) size bytes p f b = elim (Bool-cases (ltb (length bytes) size)) [
  | inl e ↦ rw (cut-short fuel size bytes e) (ltb→lt (length bytes) size e, b)
  | inr e ↦
      let enough : size ≤ length bytes = ground arith in
      let split = take-IsBytes size bytes b in
      rw (cut-full fuel size bytes e) (
        full_before size (take size bytes) (cut fuel size (drop size bytes))
          (length-take_full size bytes enough) split.0
          (cut-IsBlocks fuel size (drop size bytes) p
            (omega (arith, length-drop_full size bytes enough)) split.1))
]

-- A file of less than `n` blocks has at most `n` of them.
pub length-cut :
    (fuel size n : ℕ) (bytes : List ℕ)
    → 0 < size
    → length bytes ≤ fuel
    → length bytes < n * size
    → length (cut fuel size bytes) ≤ n
unfolding cut
length-cut fuel size zero bytes p f h = absurd (omega arith)
length-cut zero size (suc n) bytes p f h = omega arith
length-cut (suc fuel) size (suc n) bytes p f h = elim (Bool-cases (ltb (length bytes) size)) [
  | inl e ↦ rw (cut-short fuel size bytes e) (omega arith)
  | inr e ↦
      let enough : size ≤ length bytes = ground arith in
      let shorter = length-drop_full size bytes enough in
      let rest : length (cut fuel size (drop size bytes)) ≤ n =
        length-cut fuel size n (drop size bytes) p (omega (arith, shorter))
          (omega (arith, shorter, h)) in
      rw (cut-full fuel size bytes e) (omega (arith, rest))
]

module _ {W : Type 0} (system : System W) (writer : Writer W) where
  -- A file that is created is empty, and what is written to it stands at its end.
  pub record IsFileWriter : Type 0 where
    pub create_empty :
        (path : Text) (w w' : W) → writer.create path w ≡ some w' → system.fopen path w' ≡ some []
    pub fwrite_count :
        (path : Text) (bytes : List ℕ) (w : W) → (writer.fwrite path bytes w).0 ≡ length bytes
    pub fwrite_appends :
        (path : Text) (bytes content : List ℕ) (w : W)
        → system.fopen path w ≡ some content
        → system.fopen path (writer.fwrite path bytes w).1 ≡ some (content ++ bytes)
