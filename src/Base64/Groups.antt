-- ===== src/Base64/Groups.antt =====
-- `base64_encode` by groups of three octets, and the loop of `base64_decode` on what it gives.
use file_share_server.Common.{
  ℕ, suc, ◌+◌, ◌-◌, ◌*◌, ◌/◌, ◌%◌, ◌<◌, ◌≡◌, refl, ◌∙◌, ◌==◌, ltb, true, false, List, [], ◌∷◌, ◌++◌,
  length, take, done, ◌>>=◌, arith, All,
}
use file_share_server.Base64.{
  encode_char, encode_triple, triple_of_octets, encode_loop, base64_encode, sextet, decode_triple,
  decode_loop, mod_table, equals_at,
}
use file_share_server.Base64.Table.{decode-encode_char}

abbrev pub IsOctets : List ℕ → Type 0
IsOctets = All (λ b. b < 256)

below_64 : (x : ℕ) → x % 64 < 64
below_64 x = omega arith

sextet_of : (x : ℕ) → sextet (encode_char (x % 64)) ≡ done (x % 64)
sextet_of x = (decode-encode_char (x % 64) (below_64 x)).0

pub not_equals : (x : ℕ) → (encode_char (x % 64) == b'=') ≡ false
not_equals x = (decode-encode_char (x % 64) (below_64 x)).2

sextet_equals : sextet b'=' ≡ done 0
unfolding sextet
sextet_equals = refl

sextets :
    (t : ℕ)
    → t < 16777216
    → t / 262144 % 64 * 262144 + t / 4096 % 64 * 4096 + t / 64 % 64 * 64 + t % 64 ≡ t
sextets t h = omega arith

octet_a : (a b c : ℕ) → a < 256 → b < 256 → c < 256 → triple_of_octets a b c / 65536 % 256 ≡ a
octet_a a b c ha hb hc = omega arith

octet_b : (a b c : ℕ) → a < 256 → b < 256 → c < 256 → triple_of_octets a b c / 256 % 256 ≡ b
octet_b a b c ha hb hc = omega arith

octet_c : (a b c : ℕ) → a < 256 → b < 256 → c < 256 → triple_of_octets a b c % 256 ≡ c
octet_c a b c ha hb hc = omega arith

triple_below : (a b c : ℕ) → a < 256 → b < 256 → c < 256 → triple_of_octets a b c < 16777216
triple_below a b c ha hb hc = omega arith

back_3 : (room : ℕ) → room + 3 - 3 ≡ room
back_3 room = omega arith

decode_quad :
    (room a b c d sa sb sc sd : ℕ) (rest : List ℕ)
    → sextet a ≡ done sa
    → sextet b ≡ done sb
    → sextet c ≡ done sc
    → sextet d ≡ done sd
    → decode_loop room (a ∷ b ∷ c ∷ d ∷ rest) ≡ (
        decode_loop (room - 3) rest >>= λ decoded.
        done (decode_triple room (sa * 262144 + sb * 4096 + sc * 64 + sd) ++ decoded))
unfolding decode_loop
decode_quad room a b c d sa sb sc sd rest ha hb hc hd = rw (ha, hb, hc, hd)

decode_group :
    (room t : ℕ) (rest : List ℕ)
    → t < 16777216
    → decode_loop room (encode_triple t ++ rest)
      ≡ (decode_loop (room - 3) rest >>= λ decoded. done (decode_triple room t ++ decoded))
unfolding encode_triple
decode_group room t rest h =
    decode_quad room (encode_char (t / 262144 % 64)) (encode_char (t / 4096 % 64))
      (encode_char (t / 64 % 64)) (encode_char (t % 64)) (t / 262144 % 64) (t / 4096 % 64)
      (t / 64 % 64) (t % 64) rest (sextet_of (t / 262144)) (sextet_of (t / 4096))
      (sextet_of (t / 64)) (sextet_of t)
    ∙ rw (sextets t h)

-- One group of three octets.
decode_octets :
    (room a b c : ℕ) (rest : List ℕ)
    → a < 256
    → b < 256
    → c < 256
    → decode_loop (room + 3) (encode_triple (triple_of_octets a b c) ++ rest)
      ≡ (decode_loop room rest >>= λ decoded. done (a ∷ b ∷ c ∷ decoded))
unfolding decode_triple
decode_octets room a b c rest ha hb hc =
    decode_group (room + 3) (triple_of_octets a b c) rest (triple_below a b c ha hb hc)
    ∙ (rw (octet_a a b c ha hb hc, octet_b a b c ha hb hc, octet_c a b c ha hb hc)
        (rw (back_3 room) (
          let r0 : ltb 0 (room + 3) ≡ true = ground arith in
          let r1 : ltb 1 (room + 3) ≡ true = ground arith in
          let r2 : ltb 2 (room + 3) ≡ true = ground arith in rw (r0, r1, r2))))

abbrev pad : ℕ → ℕ
pad n = mod_table (n % 3)

groups :
    (n : ℕ)
    → 4 * ((suc (suc (suc n)) + 2) / 3) - pad (suc (suc (suc n))) ≡ 4 + (4 * ((n + 2) / 3) - pad n)
groups n = ground arith

same_pad : (n : ℕ) → pad (suc (suc (suc n))) ≡ pad n
same_pad n = let e : suc (suc (suc n)) % 3 ≡ n % 3 = omega arith in rw e

take_4 :
    (w x y z n : ℕ) (rest : List ℕ)
    → take (4 + n) (w ∷ x ∷ y ∷ z ∷ rest) ≡ w ∷ x ∷ y ∷ z ∷ take n rest
take_4 w x y z n rest = let e : 4 + n ≡ suc (suc (suc (suc n))) = omega arith in rw e

pub base64_encode_group :
    (a b c : ℕ) (rest : List ℕ)
    → base64_encode (a ∷ b ∷ c ∷ rest)
      ≡ encode_triple (triple_of_octets a b c) ++ base64_encode rest
unfolding base64_encode encode_triple encode_loop
base64_encode_group a b c rest = rw (groups (length rest)) (
    rw (same_pad (length rest)) (
      rw (
        take_4 (encode_char (triple_of_octets a b c / 262144 % 64))
          (encode_char (triple_of_octets a b c / 4096 % 64))
          (encode_char (triple_of_octets a b c / 64 % 64))
          (encode_char (triple_of_octets a b c % 64))
          (4 * ((length rest + 2) / 3) - pad (length rest)) (encode_loop rest))))

pub length-base64_encode :
    (octets : List ℕ) → length (base64_encode octets) ≡ 4 * ((length octets + 2) / 3)
unfolding base64_encode encode_triple
length-base64_encode [] = refl
length-base64_encode (a ∷ []) = refl
length-base64_encode (a ∷ b ∷ []) = refl
length-base64_encode (a ∷ b ∷ c ∷ rest) =
    rw (base64_encode_group a b c rest) (omega (arith, length-base64_encode rest))

abbrev pub room_of : List ℕ → ℕ
room_of chars = length chars / 4 * 3 - equals_at chars 1 - equals_at chars 2

plus_3 : (n : ℕ) → suc (suc (suc n)) ≡ n + 3
plus_3 n = omega arith

nothing_left : (room : ℕ) → decode_loop room [] ≡ done []
unfolding decode_loop
nothing_left room = refl

first_of_one :
    (a : ℕ)
    → a < 256
    → (triple_of_octets a 0 0 / 262144 % 64 * 262144
          + triple_of_octets a 0 0 / 4096 % 64 * 4096
          + 0 * 64
          + 0)
        / 65536
        % 256
      ≡ a
first_of_one a h = omega arith

first_of_two :
    (a b : ℕ)
    → a < 256
    → b < 256
    → (triple_of_octets a b 0 / 262144 % 64 * 262144
          + triple_of_octets a b 0 / 4096 % 64 * 4096
          + triple_of_octets a b 0 / 64 % 64 * 64
          + 0)
        / 65536
        % 256
      ≡ a
first_of_two a b ha hb = omega arith

second_of_two :
    (a b : ℕ)
    → a < 256
    → b < 256
    → (triple_of_octets a b 0 / 262144 % 64 * 262144
          + triple_of_octets a b 0 / 4096 % 64 * 4096
          + triple_of_octets a b 0 / 64 % 64 * 64
          + 0)
        / 256
        % 256
      ≡ b
second_of_two a b ha hb = omega arith

pub decode-encode :
    (octets : List ℕ)
    → IsOctets octets
    → decode_loop (length octets) (base64_encode octets) ≡ done octets
unfolding base64_encode encode_triple decode_triple
decode-encode [] h = nothing_left 0
decode-encode (a ∷ []) h =
    let t = triple_of_octets a 0 0 in
    decode_quad 1 (encode_char (t / 262144 % 64)) (encode_char (t / 4096 % 64)) b'=' b'='
      (t / 262144 % 64) (t / 4096 % 64) 0 0 [] (sextet_of (t / 262144)) (sextet_of (t / 4096))
      sextet_equals sextet_equals
    ∙ rw (nothing_left 0, first_of_one a h.0)
decode-encode (a ∷ b ∷ []) h =
    let t = triple_of_octets a b 0 in
    decode_quad 2 (encode_char (t / 262144 % 64)) (encode_char (t / 4096 % 64))
      (encode_char (t / 64 % 64)) b'=' (t / 262144 % 64) (t / 4096 % 64) (t / 64 % 64) 0 []
      (sextet_of (t / 262144)) (sextet_of (t / 4096)) (sextet_of (t / 64)) sextet_equals
    ∙ rw (nothing_left 0, first_of_two a b h.0 h.1.0, second_of_two a b h.0 h.1.0)
decode-encode (a ∷ b ∷ c ∷ rest) h = rw (base64_encode_group a b c rest) (
    rw (plus_3 (length rest)) (
      decode_octets (length rest) a b c (base64_encode rest) h.0 h.1.0 h.1.1.0
      ∙ rw (decode-encode rest h.1.1.1)))
