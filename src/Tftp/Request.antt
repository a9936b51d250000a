-- ===== src/Tftp/Request.antt =====
-- src/networking/tftp/tftp_client_handle.c: the options in a request.
use file_share_server.Common.{
  ℕ, zero, suc, ◌+◌, leb, Bool, true, false, ◌&&◌, List, [], ◌∷◌, length, drop, get_or, Outcome,
  done, fault, ◌>>=◌,
}
use file_share_server.Database.{Text}
use file_share_server.Model.Support.{c_string, fit}

pub record TftpOption : Type 0 where
  pub name : Text
  pub value : Text

-- In the C locale.
abbrev pub isprint : ℕ → Bool
isprint c = leb 32 c && leb c 126

-- The loop over the options in memory, with zeros behind its end; `tmp` is never NULL. It takes a
-- character a round.
unfoldable pub option_loop : ℕ → List ℕ → Outcome (List TftpOption)
option_loop zero memory = fault
option_loop (suc fuel) memory = elim (isprint (get_or memory 0 0)) [
  | false ↦ done []
  | true ↦ do
    name ← fit 256 (c_string memory)
    let values : List ℕ = drop (length name + 1) memory
    value ← fit 256 (c_string values)
    rest ← option_loop fuel (drop (length value + 1) values)
    done (record { name = name; value = value } ∷ rest)
]

unfoldable pub process_option : List ℕ → Outcome (List TftpOption)
process_option memory = option_loop (length memory + 1) memory
