-- ===== src/Base64/RoundTrip.antt =====
-- `base64_decode` after `base64_encode`: the room for the octets, and the octets.
use file_share_server.Common.{
  ℕ, suc, ◌+◌, ◌-◌, ◌/◌, ◌%◌, ◌≤◌, ◌≡◌, refl, ap, ◌∙◌, ◌==◌, true, false, some, List, [], ◌∷◌, ◌++◌,
  length, done, arith,
}
use file_share_server.Base64.{
  encode_char, encode_triple, triple_of_octets, base64_encode, equals_at, base64_decode,
}
use file_share_server.Base64.Groups.{
  IsOctets, not_equals, base64_encode_group, length-base64_encode, room_of, decode-encode,
}

equals_at_behind :
    (w x y z k : ℕ) (rest : List ℕ)
    → k ≤ length rest
    → equals_at (w ∷ x ∷ y ∷ z ∷ rest) k ≡ equals_at rest k
equals_at_behind w x y z k rest h =
    let e : suc (suc (suc (suc (length rest)))) - k ≡ suc (suc (suc (suc (length rest - k)))) =
      omega arith in
    rw e

room_behind :
    (t : ℕ) (rest : List ℕ)
    → 2 ≤ length rest
    → length rest % 4 ≡ 0
    → equals_at rest 1 ≤ 1
    → equals_at rest 2 ≤ 1
    → room_of (encode_triple t ++ rest) ≡ 3 + room_of rest
unfolding encode_triple
room_behind t rest long whole one two =
    let back = λ (k : ℕ) (h : k ≤ length rest).
      equals_at_behind (encode_char (t / 262144 % 64)) (encode_char (t / 4096 % 64))
        (encode_char (t / 64 % 64)) (encode_char (t % 64)) k rest h in
    rw (back 1 (omega arith), back 2 long) (omega arith)

equals_at-le : (chars : List ℕ) (k : ℕ) → equals_at chars k ≤ 1
equals_at-le chars k = ground arith

room_of-encode :
    (a : ℕ) (octets : List ℕ) → room_of (base64_encode (a ∷ octets)) ≡ length (a ∷ octets)
unfolding base64_encode encode_triple
room_of-encode a [] = refl
room_of-encode a (b ∷ []) = rw (not_equals (triple_of_octets a b 0 / 64))
room_of-encode a (b ∷ c ∷ []) =
    rw (not_equals (triple_of_octets a b c / 64), not_equals (triple_of_octets a b c))
room_of-encode a (b ∷ c ∷ d ∷ rest) = rw (base64_encode_group a b c (d ∷ rest)) (
    room_behind (triple_of_octets a b c) (base64_encode (d ∷ rest))
      (omega (arith, length-base64_encode (d ∷ rest)))
      (omega (arith, length-base64_encode (d ∷ rest))) (equals_at-le (base64_encode (d ∷ rest)) 1)
      (equals_at-le (base64_encode (d ∷ rest)) 2)
    ∙ (ap (λ n. 3 + n) (room_of-encode d rest) ∙ omega arith))

-- `base64_decode` gives back every non-empty sequence of octets that `base64_encode` was given.
pub base64_decode-encode :
    (a : ℕ) (octets : List ℕ)
    → IsOctets (a ∷ octets)
    → base64_decode (base64_encode (a ∷ octets)) ≡ done (some (a ∷ octets))
unfolding base64_decode
base64_decode-encode a octets h =
    let whole : (length (base64_encode (a ∷ octets)) % 4 == 0) ≡ true =
      ground (arith, length-base64_encode (a ∷ octets)) in
    let some_chars : (length (base64_encode (a ∷ octets)) == 0) ≡ false =
      ground (arith, length-base64_encode (a ∷ octets)) in
    rw (whole, some_chars) (rw (room_of-encode a octets) (rw (decode-encode (a ∷ octets) h)))
