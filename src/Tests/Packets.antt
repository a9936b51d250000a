-- ===== src/Tests/Packets.antt =====
-- The theorems on checksums and on base64 at short packets.
use file_share_server.Common.{ℕ, ◌≡◌, ◌<◌, refl, List, [], ◌∷◌, some, done, ◌>>=◌, arith}
use file_share_server.Checksum.{checksum}
use file_share_server.Checksum.Sum.{IsBytes, word_sum, complement, checksum-complement}
use file_share_server.Checksum.Packet.{
  with_checksum, received_checksum, received-with_checksum, set, one_byte_detected,
}
use file_share_server.Base64.{base64_encode, base64_decode}
use file_share_server.Base64.RoundTrip.{base64_decode-encode}

abbrev bytes : List ℕ
bytes = 1 ∷ 200 ∷ 3 ∷ []

abbrev accepted : List ℕ
accepted = 254 ∷ 253 ∷ 1 ∷ 2 ∷ []

bytes-IsBytes : IsBytes bytes
bytes-IsBytes = (omega arith, (omega arith, (omega arith, tt)))

accepted-IsBytes : IsBytes accepted
accepted-IsBytes = (omega arith, (omega arith, (omega arith, (omega arith, tt))))

accepted_sum : received_checksum accepted ≡ done 0
unfolding received_checksum word_sum complement
accepted_sum = checksum-complement accepted 0 accepted-IsBytes (omega arith)

base64_decode-encode_example : base64_decode (base64_encode bytes) ≡ done (some bytes)
base64_decode-encode_example = base64_decode-encode 1 (200 ∷ 3 ∷ []) bytes-IsBytes

received-with_checksum_example : (with_checksum bytes >>= received_checksum) ≡ done 0
received-with_checksum_example = received-with_checksum bytes bytes-IsBytes (omega arith)

one_byte_detected_example : (c : ℕ) × (received_checksum (set accepted 2 9) ≡ done c) × (0 < c)
one_byte_detected_example =
    one_byte_detected accepted 2 1 9 accepted-IsBytes (omega arith) accepted_sum refl (omega arith)
      (omega arith)

checksum-complement_example : checksum 3 1 bytes ≡ done (complement (word_sum bytes))
checksum-complement_example = checksum-complement bytes 1 bytes-IsBytes (omega arith)
