-- ===== src/Checksum/Packet.antt =====
-- The checksum of a packet as tftp_client_handle.c uses it: `_send` puts it in front, and
-- `_recv_ack` and `_recv_file` accept a packet whose own checksum is 0.
use file_share_server.Common.{
  ℕ, zero, suc, ◌+◌, ◌/◌, ◌%◌, ◌≤◌, ◌<◌, ◌≡◌, ◌≢◌, ◌↔◌, refl, ◌∙◌, ap, List, [], ◌∷◌, length,
  Outcome, some, done, ◌>>=◌, arith, get_elem?,
}
use file_share_server.Checksum.{checksum}
use file_share_server.Checksum.Sum.{IsBytes, word_sum, complement, checksum-complement}

-- The packet that `_send` builds: the checksum in network order, then the data.
unfoldable pub with_checksum : List ℕ → Outcome (List ℕ)
with_checksum bytes = do
  sum ← checksum (length bytes) (length bytes % 2) bytes
  done (sum / 256 ∷ sum % 256 ∷ bytes)

-- `checksum_(data_len + sizeof(TFTPHeader), 0, _raw_data)`.
unfoldable pub received_checksum : List ℕ → Outcome ℕ
received_checksum raw = checksum (length raw) 0 raw

complement_bounds : (sum : ℕ) → complement sum ≤ 65535
unfolding complement
complement_bounds sum = ground arith

complement-add : (sum : ℕ) → complement (complement sum + sum) ≡ 0
unfolding complement
complement-add sum = ground arith

complement-eq-zero : (sum : ℕ) → (complement sum ≡ 0) ↔ ((0 < sum) × (sum % 65535 ≡ 0))
unfolding complement
complement-eq-zero sum = ground arith

word_sum_header :
    (c : ℕ) (bytes : List ℕ) → word_sum (c / 256 ∷ c % 256 ∷ bytes) ≡ c + word_sum bytes
unfolding word_sum
word_sum_header c bytes = omega arith

-- Two different sums that are nearer than 65535 are not both accepted.
close_sums : (s t : ℕ) → complement s ≡ 0 → s ≢ t → s < t + 65535 → t < s + 65535 → 0 < complement t
close_sums s t z n a b = ground (arith, complement-eq-zero s, complement-eq-zero t)

-- What `_send` sends is accepted: with its checksum in front, a packet of at most 65533 bytes has
-- the checksum 0.
pub received-with_checksum :
    (bytes : List ℕ)
    → IsBytes bytes
    → length bytes ≤ 65533
    → (with_checksum bytes >>= received_checksum) ≡ done 0
unfolding with_checksum received_checksum
received-with_checksum bytes b h =
    let c = complement (word_sum bytes) in
    let small : c ≤ 65535 = complement_bounds (word_sum bytes) in
    let packet : List ℕ = c / 256 ∷ c % 256 ∷ bytes in
    rw (checksum-complement bytes (length bytes % 2) b (omega arith)) (
      checksum-complement packet 0 (omega arith, (omega arith, b)) (omega arith)
      ∙ ap done (ap complement (word_sum_header c bytes) ∙ complement-add (word_sum bytes)))

-- One byte changed.
abbrev pub set : List ℕ → ℕ → ℕ → List ℕ
set [] i v = []
set (x ∷ xs) zero v = v ∷ xs
set (x ∷ xs) (suc i) v = x ∷ set xs i v

length-set : (xs : List ℕ) (i v : ℕ) → length (set xs i v) ≡ length xs
length-set [] i v = refl
length-set (x ∷ xs) zero v = refl
length-set (x ∷ xs) (suc i) v = ap suc (length-set xs i v)

IsBytes-set : (xs : List ℕ) (i v : ℕ) → IsBytes xs → v < 256 → IsBytes (set xs i v)
IsBytes-set [] i v b h = b
IsBytes-set (x ∷ xs) zero v b h = (h, b.1)
IsBytes-set (x ∷ xs) (suc i) v b h = (b.0, IsBytes-set xs i v b.1 h)

-- A changed byte moves the sum by less than 65535.
word_sum-set :
    (xs : List ℕ) (i x v : ℕ)
    → IsBytes xs
    → v < 256
    → get_elem? xs i ≡ some x
    → x ≢ v
    → (word_sum xs ≢ word_sum (set xs i v))
      × (word_sum xs < word_sum (set xs i v) + 65535)
      × (word_sum (set xs i v) < word_sum xs + 65535)
unfolding word_sum
word_sum-set [] i x v b h g n = cc
word_sum-set (a ∷ []) zero x v b h g n = ground arith
word_sum-set (a ∷ []) (suc i) x v b h g n = cc
word_sum-set (a ∷ c ∷ rest) zero x v b h g n = ground arith
word_sum-set (a ∷ c ∷ rest) (suc zero) x v b h g n = ground arith
word_sum-set (a ∷ c ∷ rest) (suc (suc i)) x v b h g n =
    omega (arith, word_sum-set rest i x v b.1.1 h g n)

-- A packet of at most 65535 bytes that is accepted is rejected after any one of its bytes has
-- changed to another byte.
pub one_byte_detected :
    (raw : List ℕ) (i x v : ℕ)
    → IsBytes raw
    → length raw ≤ 65535
    → received_checksum raw ≡ done 0
    → get_elem? raw i ≡ some x
    → x ≢ v
    → v < 256
    → (c : ℕ) × (received_checksum (set raw i v) ≡ done c) × (0 < c)
unfolding received_checksum
one_byte_detected raw i x v b h ok g n hv =
    let raw' = set raw i v in
    let e = checksum-complement raw 0 b h in
    let e' =
      checksum-complement raw' 0 (IsBytes-set raw i v b hv) (omega (arith, length-set raw i v)) in
    (
      complement (word_sum raw'),
      e',
      ground (arith, e, word_sum-set raw i x v b hv g n, close_sums (word_sum raw) (word_sum raw')),
    )
