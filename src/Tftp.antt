-- ===== src/Tftp.antt =====
-- src/networking/tftp: the handler of a client. The calls of `recvfrom` take the arrivals of the
-- inbox in their order and wait for ever behind the last; the calls of `sendto` end as the list of
-- sendings says, and well behind its end. `longjmp` is an ending, which keeps what was changed
-- before. An address that `_recv` leaves in a dead stack frame is taken as it was, and freed memory
-- as it was; a number of two bytes is stored with its low byte first.
pub mod Send
pub mod Receive
pub mod Request
pub mod Options
pub mod Transfer
pub mod Client
pub mod Endings
pub mod Sendings
pub mod Arrivals
pub mod Receptions
pub mod Downloads
pub mod Local
pub mod Uploads
pub mod Untouched
pub mod Safety
pub mod ReadOnly
pub mod Packets
pub mod Blocks
pub mod Accepted
pub mod Received
pub mod RoundTrip
pub mod Opening
pub mod Exchange
pub mod Rounds
pub mod Sent
use file_share_server.Common.{
  ℕ, zero, suc, ◌+◌, ◌*◌, ◌/◌, ◌%◌, Bool, Option, none, List, [], ◌∷◌, get_or, Outcome, done, fault,
  exited,
}
use file_share_server.Base64.{codes}
use file_share_server.Database.{Text}

-- The opcodes, as they stand in a packet.
abbrev pub rrq : List ℕ
rrq = 0 ∷ 1 ∷ []

abbrev pub wrq : List ℕ
wrq = 0 ∷ 2 ∷ []

abbrev pub data_opcode : List ℕ
data_opcode = 0 ∷ 3 ∷ []

abbrev pub ack : List ℕ
ack = 0 ∷ 4 ∷ []

abbrev pub error_opcode : List ℕ
error_opcode = 0 ∷ 5 ∷ []

abbrev pub oack : List ℕ
oack = 0 ∷ 6 ∷ []

-- `*(uint16_t *)bytes`.
abbrev pub load16 : List ℕ → ℕ
load16 bytes = get_or bytes 0 0 + 256 * get_or bytes 1 0

-- The bytes of a `uint16_t`.
abbrev pub store16 : ℕ → List ℕ
store16 n = n % 256 ∷ n / 256 % 256 ∷ []

-- `ntohs`, which is `htons`.
abbrev pub ntohs : ℕ → ℕ
ntohs n = n % 256 * 256 + n / 256 % 256

pub data TftpErrorCodes : Type 0 where
  unknown : TftpErrorCodes
  file_not_found : TftpErrorCodes
  access_violation : TftpErrorCodes
  disk_full : TftpErrorCodes
  illegal_operation : TftpErrorCodes
  unknown_transfer_id : TftpErrorCodes
  file_already_exists : TftpErrorCodes
  no_such_user : TftpErrorCodes
  invalid_options : TftpErrorCodes
  invalid_checksum : TftpErrorCodes

abbrev pub error_number : TftpErrorCodes → ℕ
error_number unknown = 0
error_number file_not_found = 1
error_number access_violation = 2
error_number disk_full = 3
error_number illegal_operation = 4
error_number unknown_transfer_id = 5
error_number file_already_exists = 6
error_number no_such_user = 7
error_number invalid_options = 8
error_number invalid_checksum = 9

abbrev pub get_message : TftpErrorCodes → Text
get_message unknown = codes "Unknown error"
get_message file_not_found = codes "File not found"
get_message access_violation = codes "Access violation"
get_message disk_full = codes "Disk full or allocation exceeded"
get_message illegal_operation = codes "Illegal TFTP operation"
get_message unknown_transfer_id = codes "Unknown transfer ID"
get_message file_already_exists = codes "File already exists"
get_message no_such_user = codes "No such user"
get_message invalid_options = codes "Invalid options specified"
get_message invalid_checksum = codes "Data may be lost"

pub record SockaddrIn : Type 0 where
  pub s_addr : ℕ
  pub sin_port : ℕ

-- What a call of `recvfrom` gives, and how a call of `sendto` ends.
pub data Arrival : Type 0 where
  arrives : SockaddrIn → List ℕ → Arrival
  times_out : Arrival
  fails : Arrival

pub data Sending : Type 0 where
  sent : Sending
  again : Sending
  refused : Sending

pub record Datagram : Type 0 where
  pub receiver : SockaddrIn
  pub bytes : List ℕ

-- `bytes` is the array `packet.data`, with zeros behind its end.
pub record PacketBuffer : Type 0 where
  pub opcode : ℕ
  pub bytes : List ℕ
  pub data_len : ℕ
  pub client_address : SockaddrIn
  pub raw_data : List ℕ
  pub block_id : ℕ

-- `__last_packet`; its length is NULL where it has not been set.
pub record LastPacket : Type 0 where
  pub client_address : SockaddrIn
  pub bytes : List ℕ
  pub data_len : Option ℕ

-- What writes a file: `fopen` with "wb", NULL where it fails; `fwrite` with the bytes it has written;
-- whether `errno` is EFBIG or ENOSPC.
pub record Writer (W : Type 0) : Type 0 where
  pub create : Text → W → Option W
  pub fwrite : Text → List ℕ → W → ℕ × W
  pub is_full : W → Bool

-- The handler, with the socket and the files; `opcodes_behind` is what memory holds behind an array
-- of opcodes, up to a 0.
pub record Session (W : Type 0) : Type 0 where
  pub inbox : List Arrival
  pub sendings : List Sending
  pub outbox : List Datagram
  pub files : W
  pub is_allow_upload : ℕ
  pub address : SockaddrIn
  pub block_size : ℕ
  pub window_size : ℕ
  pub check_addr : ℕ
  pub last_packet : Option LastPacket
  pub packet_buffer : Option PacketBuffer
  pub opcodes_behind : List ℕ

-- How a function of the handler ends: it returns, it jumps to `setjmp`, it waits for a datagram that
-- does not come, it runs into undefined behaviour, or it goes on beyond the rounds that it is given.
pub data Ending (W A : Type 0) : Type 0 where
  returned : A → Session W → Ending W A
  jumped : Session W → Ending W A
  blocked : Session W → Ending W A
  faulted : Ending W A
  endless : Ending W A

abbrev pub Transfer : Type 0 → Type 0 → Type 0
Transfer W A = Session W → Ending W A

module _ {W A B : Type 0} where
  abbrev pub next : Ending W A → (A → Session W → Ending W B) → Ending W B
  next (returned a s) f = f a s
  next (jumped s) f = jumped s
  next (blocked s) f = blocked s
  next faulted f = faulted
  next endless f = endless

  infixl 5 ◌>>=◌
  abbrev pub ◌>>=◌ :
      (Session W → Ending W A) → (A → Session W → Ending W B) → Session W → Ending W B
  (m >>= f) s = next (m s) f

module _ {W A : Type 0} where
  abbrev pub return : A → Session W → Ending W A
  return a s = returned a s

  abbrev pub longjmp : Session W → Ending W A
  longjmp s = jumped s

  abbrev pub undefined : Session W → Ending W A
  undefined s = faulted

  abbrev pub spin : Session W → Ending W A
  spin s = endless

  abbrev pub lift : Outcome A → Session W → Ending W A
  lift (done a) s = returned a s
  lift fault s = faulted
  lift exited s = faulted

module _ {W : Type 0} where
  abbrev pub get : Session W → Ending W (Session W)
  get s = returned s s

  abbrev pub put : Session W → Session W → Ending W (Unit {0})
  put s' s = returned tt s'

  infixl 5 ◌>>◌
  abbrev pub ◌>>◌ :
      {A : Type 0}
      → (Session W → Ending W (Unit {0}))
      → (Session W → Ending W A)
      → Session W
      → Ending W A
  (m >> k) s = next (m s) (λ _. k)
