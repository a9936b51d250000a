-- ===== src/Tftp/Options.antt =====
-- src/networking/tftp/tftp_client_handle.c: the options of a request.
use file_share_server.Common.{
  ltb, if◌then◌else◌, Bool, none, List, ℕ, [], ◌∷◌, ◌++◌, ℤ, pos, negsuc, int_eq,
}
use file_share_server.Base64.{codes}
use file_share_server.Database.{Text, System}
use file_share_server.Tftp.{illegal_operation, oack, returned, Transfer, ◌>>◌, return}
use file_share_server.Tftp.Request.{TftpOption}
use file_share_server.Tftp.Send.{send, terminate}

abbrev pub oack_bytes : List TftpOption → List ℕ
oack_bytes [] = []
oack_bytes (option ∷ options) = option.name ++ 0 ∷ (option.value ++ 0 ∷ oack_bytes options)

module _ {W : Type 0} where
  unfoldable pub send_oack : List TftpOption → Transfer W (Unit {0})
  send_oack options = send (oack ++ oack_bytes options) none

  abbrev pub set_block_size : ℤ → Transfer W (Unit {0})
  set_block_size (negsuc n) = terminate illegal_operation none
  set_block_size (pos n) = if ltb 65464 n then terminate illegal_operation none else λ s.
      returned tt (record s { block_size = n })

  abbrev pub set_window_size : ℤ → Transfer W (Unit {0})
  set_window_size (negsuc n) = terminate illegal_operation none
  set_window_size (pos n) = if ltb 255 n then terminate illegal_operation none else λ s.
      returned tt (record s { window_size = n })

module _ {W : Type 0} (system : System W) where
  abbrev pub is_option : TftpOption → Text → Bool
  is_option option name = int_eq (system.strcmp option.name name) (pos 0)

  abbrev pub map_option : TftpOption → Transfer W (Unit {0})
  map_option option =
      (if is_option option (codes "blksize")
        then set_block_size (system.atoi option.value)
        else return tt)
      >> (if is_option option (codes "windowsize")
          then set_window_size (system.atoi option.value)
          else return tt)

  unfoldable pub map_options : List TftpOption → Transfer W (Unit {0})
  map_options [] = return tt
  map_options (option ∷ options) = map_option option >> map_options options
