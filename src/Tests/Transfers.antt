-- ===== src/Tests/Transfers.antt =====
-- The theorems on src/networking/tftp at concrete transfers.
use file_share_server.Common.{pos, ℕ, ◌≡◌, refl, Option, none, some, List, [], ◌∷◌, arith}
use file_share_server.Base64.{codes}
use file_share_server.Checksum.Sum.{IsBytes}
use file_share_server.Tftp.{SockaddrIn, Arrival, arrives, times_out, LastPacket, Session, returned}
use file_share_server.Tftp.Transfer.{send_file, recv_file}
use file_share_server.Tftp.Client.{handle_client}
use file_share_server.Tftp.Endings.{Ends}
use file_share_server.Tftp.Local.{IsLocal}
use file_share_server.Tftp.Packets.{sealed, data_bytes, listening}
use file_share_server.Tftp.Blocks.{IsBlocks, data_packets, from}
use file_share_server.Tftp.Safety.{IsKept, handle_client-IsKept}
use file_share_server.Tftp.Uploads.{recv_file-Ends}
use file_share_server.Tftp.ReadOnly.{handle_client-Ends}
use file_share_server.Tftp.Received.{recv_file-blocks}
use file_share_server.Tftp.Sent.{ack_packets, posted, send_file-blocks}
use file_share_server.Tftp.RoundTrip.{recv_file-send_file}
use file_share_server.Tftp.Opening.{IsName, waiting}
use file_share_server.Tftp.Exchange.{handle_client-upload, handle_client-download}
use file_share_server.Tests.Disk.{
  Disk, disk_system, disk_writer, disk-IsLocalWriter, disk-IsFileWriter,
}

abbrev client : SockaddrIn
client = record { s_addr = 2130706433; sin_port = 5000 }

abbrev server_address : SockaddrIn
server_address = record { s_addr = 2130706433; sin_port = 69 }

abbrev empty_disk : Disk
empty_disk path = none

abbrev octets : List ℕ
octets = 1 ∷ 2 ∷ 3 ∷ []

-- Each file has three bytes.
abbrev full_disk : Disk
full_disk path = some octets

-- The handler holds a request for the file "a".
abbrev request : ℕ → Session Disk → Session Disk
request k s = waiting disk_system disk_writer 0 k (codes "a") [] [] client s

abbrev blocks : List (List ℕ)
blocks = (1 ∷ 2 ∷ []) ∷ (3 ∷ []) ∷ []

octets-IsBytes : IsBytes octets
octets-IsBytes = (omega arith, (omega arith, (omega arith, tt)))

blocks-IsBlocks : IsBlocks 2 blocks
blocks-IsBlocks = ((refl, (omega arith, (omega arith, tt))), (omega arith, (omega arith, tt)))

abbrev session : List Arrival → Disk → Session Disk
session inbox disk = listening 1 2 1 client inbox [] disk none

-- The client's packets, one of them late and one twice.
abbrev unsteady : Session Disk
unsteady = request 2 (
    session
      (times_out
        ∷ arrives client (sealed (data_bytes 1 (1 ∷ 2 ∷ [])))
        ∷ arrives client (sealed (data_bytes 1 (1 ∷ 2 ∷ [])))
        ∷ arrives client (sealed (data_bytes 2 (3 ∷ [])))
        ∷ [])
      empty_disk)

handle_client-IsKept_example :
    Ends
      (λ _ s'. IsKept disk_system disk_writer unsteady s')
      (IsKept disk_system disk_writer unsteady)
      (Unit {0})
      (handle_client disk_system disk_writer unsteady)
handle_client-IsKept_example =
    handle_client-IsKept disk_system disk_writer disk-IsLocalWriter unsteady

recv_file-Ends_example :
    Ends
      (λ _ s'. IsLocal disk_system disk_writer (codes "a") unsteady s')
      (IsLocal disk_system disk_writer (codes "a") unsteady)
      (⊥)
      (recv_file disk_system disk_writer (codes "a") unsteady)
recv_file-Ends_example =
    recv_file-Ends disk_system disk_writer disk-IsLocalWriter (codes "a") unsteady (omega arith)

handle_client-Ends_example :
    Ends
      (λ _ s'. s'.files ≡ full_disk)
      (λ s'. s'.files ≡ full_disk)
      (⊥)
      (handle_client disk_system disk_writer
        (request 2 (listening 0 2 1 client [] [] full_disk none)))
handle_client-Ends_example =
    handle_client-Ends disk_system disk_writer
      (request 2 (listening 0 2 1 client [] [] full_disk none)) refl

recv_file-blocks_example :
    (s' : Session Disk) × (recv_file disk_system disk_writer
        (codes "a")
        (session (from client (data_packets 0 blocks) []) empty_disk)
      ≡ returned tt s')
    × (s'.files (codes "a") ≡ some octets)
recv_file-blocks_example =
    recv_file-blocks disk_system disk_writer disk-IsFileWriter 1 2 1 client (codes "a")
      (omega arith) blocks [] [] empty_disk _ none refl (omega arith) blocks-IsBlocks (omega arith)

send_file-blocks_example :
    (last : Option LastPacket) × (send_file disk_system
        (codes "a")
        3
        (session (from client (ack_packets 0 blocks) []) full_disk)
      ≡ returned tt
          (listening 1 2 1 client [] (posted client (data_packets 0 blocks)) full_disk last))
send_file-blocks_example =
    send_file-blocks disk_system 1 2 client (codes "a") blocks [] [] full_disk none (omega arith)
      (omega arith) blocks-IsBlocks refl

recv_file-send_file_example :
    (packets : List (List ℕ)) × (acks : List (List ℕ)) × (last : Option LastPacket)
    × (last' : Option LastPacket) × (received : Disk) × (send_file disk_system
          (codes "a")
          3
          (listening 1 2 1 client (from client acks []) [] full_disk none)
        ≡ returned tt (listening 1 2 1 client [] (posted client packets) full_disk last))
    × (recv_file disk_system disk_writer
          (codes "b")
          (listening 1 2 1 server_address (from server_address packets []) [] empty_disk none)
        ≡ returned tt
            (listening 1 2 1 server_address [] (posted server_address acks) received last'))
    × (received (codes "b") ≡ some octets)
recv_file-send_file_example =
    recv_file-send_file disk_system disk_writer disk-IsFileWriter 1 2 server_address client
      (codes "a") (codes "b") octets full_disk empty_disk _ (omega arith) (omega arith)
      (omega arith) (omega arith) octets-IsBytes refl refl

a-IsName : IsName (codes "a")
a-IsName = (omega arith, tt)

handle_client-upload_example :
    (s' : Session Disk) × (handle_client disk_system disk_writer
        (request 2 (session (from client (data_packets 0 blocks) []) empty_disk))
      ≡ returned (pos 0) s')
    × (s'.files (codes "./upload/a") ≡ some octets)
handle_client-upload_example =
    handle_client-upload disk_system disk_writer 1 2 1 0 client (codes "a") [] [] a-IsName
      (omega arith) refl disk-IsFileWriter blocks [] [] empty_disk _ none (omega arith)
      (omega arith) (omega arith) refl refl blocks-IsBlocks (omega arith)

handle_client-download_example :
    (last : Option LastPacket) × (handle_client disk_system disk_writer
        (request 1 (session (from client (ack_packets 0 blocks) []) full_disk))
      ≡ returned
          (pos 0)
          (listening 1 2 1 client [] (posted client (data_packets 0 blocks)) full_disk last))
handle_client-download_example =
    handle_client-download disk_system disk_writer 1 2 1 0 client (codes "a") [] [] a-IsName
      (omega arith) refl blocks [] [] full_disk none (omega arith) refl refl blocks-IsBlocks
      (omega arith)
