-- ===== src/Base64/Table.antt =====
-- The two tables of helper.c are inverse to one another.
use file_share_server.Common.{
  ℕ, zero, suc, ◌<◌, ◌≡◌, refl, ◌==◌, Bool, true, false, ◌&&◌, Option, some, none, arith, done,
  Bool-cases, inl, inr, if◌then◌else◌,
}
use file_share_server.Base64.{encode_char, decoding_table, sextet, base64_chars_strchr}

abbrev decodes_to : ℕ → Option ℕ → Bool
decodes_to sextet none = false
decodes_to sextet (some value) = value == sextet

abbrev is_inverse : ℕ → Bool
is_inverse x =
    decodes_to x (decoding_table (encode_char x))
    && (if encode_char x == b'=' then false else base64_chars_strchr (encode_char x) == x)

-- Every sextet below a bound.
inverse_below : ℕ → Bool
inverse_below zero = true
inverse_below (suc bound) = inverse_below bound && is_inverse bound

inverse_below_64 : inverse_below 64 ≡ true
unfolding inverse_below decoding_table encode_char base64_chars_strchr
inverse_below_64 = refl

inverse_at :
    (bound sextet : ℕ) → sextet < bound → inverse_below bound ≡ true → is_inverse sextet ≡ true
unfolding inverse_below
inverse_at zero sextet below table = absurd (omega arith)
inverse_at (suc bound) sextet below table = elim (Bool-cases (sextet == bound)) [
  | inl last ↦ ground (arith)
  | inr earlier ↦ ground (arith, inverse_at bound sextet)
]

-- Each of the 64 characters decodes to the number that it encodes, by the decoding table and by
-- `base64_chars_strchr`, and none is '='.
pub decode-encode_char :
    (x : ℕ)
    → x < 64
    → (sextet (encode_char x) ≡ done x)
      × (base64_chars_strchr (encode_char x) ≡ x)
      × ((encode_char x == b'=') ≡ false)
unfolding sextet
decode-encode_char x h = let table = inverse_at 64 x h inverse_below_64 in ground arith
