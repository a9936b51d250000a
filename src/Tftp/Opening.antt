-- ===== src/Tftp/Opening.antt =====
-- src/networking/tftp: a handler that holds a request without options.
use file_share_server.Common.{
  ℕ, suc, ◌+◌, ◌<◌, ◌==◌, ltb, ◌≡◌, refl, true, false, Option, some, List, [], ◌∷◌, ◌++◌, length,
  drop, pos, arith,
}
use file_share_server.Base64.{codes}
use file_share_server.Database.{Text, System}
use file_share_server.Model.Support.{c_string}
use file_share_server.Tftp.{
  wrq, rrq, load16, SockaddrIn, Arrival, Datagram, LastPacket, Writer, Session, returned,
}
use file_share_server.Tftp.Receive.{recv, recv_client, recv_packet_mul, check_error, is_expected}
use file_share_server.Tftp.Client.{recv_rq}
use file_share_server.Tftp.Packets.{compare_address-same, listening}

-- A text without the character 0.
abbrev pub IsName : Text → Type 0
IsName [] = Unit {0}
IsName (c ∷ name) = (0 < c) × IsName name

c_string-name : (name rest : Text) → IsName name → c_string (name ++ 0 ∷ rest) ≡ name
c_string-name [] rest h = refl
c_string-name (c ∷ name) rest h =
    let other : (c == 0) ≡ false = ground (arith, h.0) in
    rw (other, c_string-name name rest h.1) refl

drop_name : (name : Text) (rest : Text) → drop (length name + 1) (name ++ 0 ∷ rest) ≡ rest
drop_name [] rest = refl
drop_name (c ∷ name) rest =
    let one : length (c ∷ name) + 1 ≡ suc (length name + 1) = omega arith in
    rw one (drop_name name rest)

module _ {W : Type 0} (system : System W) (writer : Writer W) where
  -- A handler that holds a request with the opcode `0 k` for a file, in the mode "octet" and without
  -- options; `behind` is what lies behind the request in memory.
  abbrev pub waiting :
      ℕ → (k : ℕ) → Text → (behind raw : List ℕ) → SockaddrIn → Session W → Session W
  waiting id k name behind raw client s = record s {
    packet_buffer = some (record {
      opcode = load16 (0 ∷ k ∷ []);
      bytes = name ++ 0 ∷ (codes "octet" ++ 0 ∷ behind);
      data_len = length name + 7;
      client_address = client;
      raw_data = raw;
      block_id = id;
    });
  }

  pub recv_rq-waiting :
      (allow block_size window_size id k n : ℕ) (client : SockaddrIn) (name : Text)
      (behind raw : List ℕ) (inbox : List Arrival) (outbox : List Datagram) (files : W)
      (last_packet : Option LastPacket)
      → load16 (0 ∷ k ∷ []) ≡ n
      → (n == 1280) ≡ false
      → is_expected (load16 rrq ∷ load16 wrq ∷ []) n ≡ true
      → IsName name
      → length name < 100
      → system.strcmp (codes "octet") (codes "octet") ≡ pos 0
      → recv_rq system writer (
          waiting id k name behind raw client
            (listening allow block_size window_size client inbox outbox files last_packet))
        ≡ returned
            (n, name)
            (listening allow block_size window_size client inbox outbox files last_packet)
  unfolding recv_rq recv_packet_mul recv_client recv check_error
  recv_rq-waiting allow block_size window_size id k n client name behind raw inbox outbox files
        last_packet value other expected is_name short octet =
      let mode : List ℕ = codes "octet" ++ 0 ∷ behind in
      let fuel : length inbox + 2 ≡ suc (length inbox + 1) = omega arith in
      let long_enough : ltb (length name + 7) 2 ≡ false = ground arith in
      let fits : ltb (length name) 100 ≡ true = ground (arith, short) in
      let no_options : (2 + 5 + length name == length name + 7) ≡ true = ground arith in
      rw
        (
          value,
          fuel,
          compare_address-same client,
          other,
          expected,
          long_enough,
          c_string-name name mode is_name,
          fits,
          drop_name name mode,
          octet,
          no_options,
        )
        refl
