-- ===== src/Checksum.antt =====
-- src/networking/checksum.c: the 16-bit one's complement sum of a packet. The data are the bytes
-- at `temp`; C's `x & 0xFF` is `x % 256`, `x >> 16` is `x / 65536`, and `~sum`, cut to
-- `uint16_t`, is `65535 - sum` for a `sum` of 16 bits.
pub mod Sum
pub mod Packet
use file_share_server.Common.{
  ℕ, zero, suc, ◌+◌, ◌-◌, ◌*◌, ◌/◌, ◌%◌, ◌==◌, ltb, if◌then◌else◌, true, false, List, get_or,
  length, Outcome, done, fault, ◌>>=◌,
}

-- `buff`, after `memset`, `memcpy` and `buff[len_udp] = 0`.
abbrev pub buff : ℕ → List ℕ → ℕ → ℕ
buff len temp i = if ltb i len then get_or temp i 0 else 0

abbrev pub word16 : ℕ → ℕ → ℕ
word16 high low = high % 256 * 256 + low % 256

-- The words from `i` to `bound`, in `fuel` rounds.
sum_loop : (len bound : ℕ) → List ℕ → ℕ → ℕ → ℕ → Outcome ℕ
sum_loop len bound temp zero i sum = fault
sum_loop len bound temp (suc fuel) i sum = elim (ltb i bound) [
  | true ↦
      sum_loop len bound temp fuel (i + 2) (sum + word16 (buff len temp i) (buff len temp (i + 1)))
  | false ↦ done sum
]

-- `while (sum >> 16) sum = (sum & 0xFFFF) + (sum >> 16);`
fold_carry : ℕ → ℕ → Outcome ℕ
fold_carry zero sum = fault
fold_carry (suc fuel) sum = elim (sum / 65536 == 0) [
  | true ↦ done sum
  | false ↦ fold_carry fuel (sum % 65536 + sum / 65536)
]

-- A packet has at most 65535 bytes, so the sum is below 2 ^ 32 and four rounds of carries are
-- enough. Reading more bytes than there are is a fault.
pub checksum : (len_udp padding : ℕ) → List ℕ → Outcome ℕ
unfolding sum_loop fold_carry
checksum len_udp padding temp = if ltb (length temp) len_udp then fault else do
  let padd : ℕ = if padding % 2 == 1 then 1 else 0
  sum ← sum_loop len_udp (len_udp + padd) temp (len_udp + 2) 0 0
  folded ← fold_carry 4 sum
  done ((65535 - folded) % 65536)
