-- ===== src/Base64.antt =====
-- The base64 functions of src/http/helper/helper.c. A loop that moves `i` by three or four
-- characters at a time is a recursion on the list of what is left; the octets and characters are
-- numbers, and `x >> k` and `x & 0x3F` are written with `/` and `%`.
pub mod Table
pub mod Groups
pub mod RoundTrip
use Prim.Native.Char.{code}
use Prim.Native.String.{String}
use file_share_server.Common.{
  ℕ, zero, suc, ◌+◌, ◌-◌, ◌*◌, ◌/◌, ◌%◌, ◌==◌, ltb, if◌then◌else◌, true, false, Option, none, some,
  List, [], ◌∷◌, ◌++◌, get_or, get_elem?, length, take, replicate, ◌^◌, Outcome, done, fault, ◌>>=◌,
}

abbrev pub codes : String → List ℕ
codes String.[] = []
codes (String.◌∷◌ c s) = code c ∷ codes s

abbrev encoding_table : List ℕ
encoding_table = codes "ABCDEFGHIJKLMNOPQRSTUVWXYZabcdefghijklmnopqrstuvwxyz0123456789+/"

unfoldable pub encode_char : ℕ → ℕ
encode_char sextet = get_or encoding_table sextet 0

abbrev mod_table : ℕ → ℕ
mod_table rest = get_or (0 ∷ 2 ∷ 1 ∷ []) rest 0

abbrev pub triple_of_octets : ℕ → ℕ → ℕ → ℕ
triple_of_octets a b c = a * 65536 + b * 256 + c

-- The four characters of a triple.
unfoldable pub encode_triple : ℕ → List ℕ
encode_triple triple =
    encode_char (triple / 262144 % 64)
    ∷ encode_char (triple / 4096 % 64)
    ∷ encode_char (triple / 64 % 64)
    ∷ encode_char (triple % 64)
    ∷ []

-- An octet beyond the end is 0.
encode_loop : List ℕ → List ℕ
encode_loop [] = []
encode_loop (a ∷ []) = encode_triple (triple_of_octets a 0 0)
encode_loop (a ∷ b ∷ []) = encode_triple (triple_of_octets a b 0)
encode_loop (a ∷ b ∷ c ∷ rest) = encode_triple (triple_of_octets a b c) ++ encode_loop rest

-- The last `mod_table[input_length % 3]` characters become '='.
unfoldable pub base64_encode : List ℕ → List ℕ
unfolding encode_loop
base64_encode octets =
    let encoded = encode_loop octets in
    let pad = mod_table (length octets % 3) in
    take (4 * ((length octets + 2) / 3) - pad) encoded ++ replicate pad b'='

-- `base64_chars_strchr`, the loop from `i` on over the characters that are left.
strchr_loop : ℕ → List ℕ → ℕ → ℕ
strchr_loop chr [] i = 2 ^ 32 - 1
strchr_loop chr (x ∷ xs) i = let rest = strchr_loop chr xs (i + 1) in if x == chr then i else rest

pub base64_chars_strchr : ℕ → ℕ
unfolding strchr_loop
base64_chars_strchr chr = strchr_loop chr encoding_table 0

-- `build_decoding_table` fills the 64 places of a table of 256 that stand for the characters of
-- the encoding; the others are not initialised. The place of `chr` after the rounds from `i` on.
unfoldable pub build_loop : List ℕ → ℕ → ℕ → Option ℕ → Option ℕ
build_loop [] i chr value = value
build_loop (x ∷ xs) i chr value = build_loop xs (i + 1) chr (if x == chr then some i else value)

unfoldable pub decoding_table : ℕ → Option ℕ
unfolding build_loop
decoding_table chr = build_loop encoding_table 0 chr none

-- `data[i] == '=' ? 0 & i++ : decoding_table[data[i++]]`; a value that is not initialised is a
-- fault.
unfoldable pub sextet : ℕ → Outcome ℕ
sextet chr =
    if chr == b'='
    then done 0
    else elim (decoding_table chr) [ none ↦ fault | some value ↦ done value ]

-- `if (j < *output_length) decoded_data[j++] = octet;`: what is written, with `room` places left.
abbrev pub emit : ℕ → ℕ → ℕ → List ℕ
emit room octet place = if ltb place room then octet ∷ [] else []

-- The octets of a triple that fit the room.
unfoldable pub decode_triple : ℕ → ℕ → List ℕ
decode_triple room triple =
    emit room (triple / 65536 % 256) 0
    ++ (emit room (triple / 256 % 256) 1 ++ emit room (triple % 256) 2)

unfoldable pub decode_loop : ℕ → List ℕ → Outcome (List ℕ)
decode_loop room (a ∷ b ∷ c ∷ d ∷ rest) = do
  sextet_a ← sextet a
  sextet_b ← sextet b
  sextet_c ← sextet c
  sextet_d ← sextet d
  decoded ← decode_loop (room - 3) rest
  done (
      decode_triple room (sextet_a * 262144 + sextet_b * 4096 + sextet_c * 64 + sextet_d)
      ++ decoded)
decode_loop room _ = done []

-- `data[input_length - k] == '='`.
abbrev pub equals_at : List ℕ → ℕ → ℕ
equals_at chars k = if get_or chars (length chars - k) 0 == b'=' then 1 else 0

-- `none` is NULL. The characters of an empty input before its start are read: a fault.
unfoldable pub base64_decode : List ℕ → Outcome (Option (List ℕ))
unfolding decode_loop
base64_decode chars =
    if length chars % 4 == 0
    then (if length chars == 0 then fault else (do
      let room = length chars / 4 * 3 - equals_at chars 1 - equals_at chars 2
      decoded ← decode_loop room chars
      done (some decoded)))
    else done none
