-- ===== src/Checksum/Sum.antt =====
-- What `checksum_` computes: the sum of the words, modulo 65535.
use file_share_server.Common.{
  drop_next, ◌^◌, ℕ, zero, suc, ◌+◌, ◌-◌, ◌*◌, ◌%◌, ◌≤◌, ◌<◌, ◌≡◌, refl, ◌∙◌, ap, ◌==◌, ltb,
  if◌then◌else◌, true, false, List, [], ◌∷◌, get_or, length, done, ◌>>=◌, arith, All, drop,
  Bool-cases, inl, inr,
}
use native.Mathlib.Numerals.{add-one, add-two}
use native.Mathlib.Nat.{zero-add}
use file_share_server.Checksum.{buff, word16, sum_loop, fold_carry, checksum}

abbrev pub IsBytes : List ℕ → Type 0
IsBytes = All (λ b. b < 256)

-- The sum of the big-endian words, a last odd byte being the high half of one.
unfoldable pub word_sum : List ℕ → ℕ
word_sum [] = 0
word_sum (a ∷ []) = a * 256
word_sum (a ∷ b ∷ rest) = a * 256 + b + word_sum rest

-- The one's complement of a sum: 0 where the sum is a positive multiple of 65535.
unfoldable pub complement : ℕ → ℕ
complement sum = if sum == 0 then 65535 else 65535 - ((sum - 1) % 65535 + 1)

pub word_sum-le : (bytes : List ℕ) → IsBytes bytes → word_sum bytes ≤ length bytes * 65535
unfolding word_sum
word_sum-le [] h = omega arith
word_sum-le (a ∷ []) h = omega arith
word_sum-le (a ∷ b ∷ rest) h = omega (arith, word_sum-le rest h.1.1)

fold_carry-complement :
    (sum : ℕ)
    → sum < 2 ^ 32
    → (fold_carry 4 sum >>= λ folded. done ((65535 - folded) % 65536)) ≡ done (complement sum)
unfolding fold_carry complement
fold_carry-complement sum h = ground arith

get_or_at : (xs : List ℕ) (i a : ℕ) (rest : List ℕ) → drop i xs ≡ a ∷ rest → get_or xs i 0 ≡ a
get_or_at [] zero a rest e = cc
get_or_at [] (suc i) a rest e = cc
get_or_at (x ∷ xs) zero a rest e = cc
get_or_at (x ∷ xs) (suc i) a rest e = get_or_at xs i a rest e

module _ (temp : List ℕ) (bound : ℕ) (low : length temp ≤ bound)
    (high : bound ≤ length temp + 1) where
  abbrev byte : ℕ → ℕ
  byte i = buff (length temp) temp i

  at_rest :
      (i a : ℕ) (rest : List ℕ)
      → drop i temp ≡ a ∷ rest
      → i + suc (length rest) ≡ length temp
      → byte i ≡ a
  at_rest i a rest e n =
      let inside : ltb i (length temp) ≡ true = ground arith in
      rw inside (get_or_at temp i a rest e)

  at_end : (i : ℕ) → length temp ≤ i → byte i ≡ 0
  at_end i h = let outside : ltb i (length temp) ≡ false = ground arith in rw outside

  sum_loop-word_sum :
      (fuel i sum : ℕ) (rest : List ℕ)
      → drop i temp ≡ rest
      → IsBytes rest
      → i + length rest ≡ length temp
      → length rest + 2 ≤ fuel
      → sum_loop (length temp) bound temp fuel i sum ≡ done (sum + word_sum rest)
  unfolding sum_loop word_sum
  sum_loop-word_sum zero i sum rest e b n f = absurd (omega arith)
  sum_loop-word_sum (suc zero) i sum rest e b n f = absurd (omega arith)
  sum_loop-word_sum (suc (suc fuel)) i sum [] e b n f =
      let zeros : word16 (byte i) (byte (i + 1)) ≡ 0 =
        rw (at_end i (omega arith), at_end (i + 1) (omega arith)) in
      let stop : ltb (i + 2) bound ≡ false = ground arith in
      elim (Bool-cases (ltb i bound)) [
        | inl more ↦ rw (more, sum_loop) (rw (stop, sum_loop) (ap done (omega (arith, zeros))))
        | inr over ↦ rw (over, sum_loop) (ap done (omega arith))
      ]
  sum_loop-word_sum (suc (suc fuel)) i sum (x ∷ []) e b n f =
      let more : ltb i bound ≡ true = ground arith in
      let stop : ltb (i + 2) bound ≡ false = ground arith in
      rw (more, sum_loop)
        (rw (stop, sum_loop)
          (rw (at_rest i x [] e n, at_end (i + 1) (omega arith)) (ap done (omega arith))))
  sum_loop-word_sum (suc (suc fuel)) i sum (x ∷ y ∷ rest) e b n f =
      let more : ltb i bound ≡ true = ground arith in
      let e' : drop (i + 1) temp ≡ y ∷ rest = rw add-one (drop_next temp i x (y ∷ rest) e) in
      let e'' : drop (i + 2) temp ≡ rest =
        rw add-two (drop_next temp (suc i) y rest (rw add-one at e')) in
      let words : word16 (byte i) (byte (i + 1)) ≡ x * 256 + y =
        rw (at_rest i x (y ∷ rest) e n, at_rest (i + 1) y rest e' (omega arith)) (omega arith) in
      rw (more, sum_loop)
        (sum_loop-word_sum (suc fuel) (i + 2) (sum + word16 (byte i) (byte (i + 1))) rest e'' b.1.1
            (omega arith) (omega arith)
          ∙ ap done (omega (arith, words)))

-- For a packet of at most 65535 bytes `checksum_` returns the complement of the sum of the words,
-- whatever the padding.
pub checksum-complement :
    (bytes : List ℕ) (padding : ℕ)
    → IsBytes bytes
    → length bytes ≤ 65535
    → checksum (length bytes) padding bytes ≡ done (complement (word_sum bytes))
unfolding checksum
checksum-complement bytes padding b h =
    let fits : ltb (length bytes) (length bytes) ≡ false = ground arith in
    let padd : ℕ = if padding % 2 == 1 then 1 else 0 in
    rw fits (
      rw
        (sum_loop-word_sum bytes (length bytes + padd) (ground arith) (ground arith)
          (length bytes + 2) 0 0 bytes refl b (omega arith) (omega arith))
        (rw zero-add (fold_carry-complement (word_sum bytes) (omega (arith, word_sum-le bytes b)))))
