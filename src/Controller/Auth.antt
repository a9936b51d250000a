-- ===== src/Controller/Auth.antt =====
-- `get_user_from_request` of src/http/helper/helper.c.
use file_share_server.Common.{
  ℕ, ◌==◌, Option, none, some, [], pos, int_eq, if◌then◌else◌, not, Outcome, done,
}
use file_share_server.Base64.{codes, base64_decode}
use file_share_server.Database.{Text, System}
use file_share_server.Database.Handlers.{Handler, return, lift, ◌>>=◌}
use file_share_server.Model.Support.{fit, read, c_string}
use file_share_server.Model.User.{User}
use file_share_server.Model.Session.{
  Session, session_find_by_token, is_expired, delete_session, get_user,
}
use file_share_server.Controller.Response.{Request, field}

abbrev pub authorization : Text
authorization = codes "Authorization"

abbrev pub basic : Text
basic = codes "Basic"

-- The token that the Authorization header carries, base64 decoded.
unfoldable pub token_of_request : {W : Type 0} → System W → Request → Outcome (Option Text)
token_of_request system request = elim (field system request.header_fields authorization) [
  | Outcome.fault ↦ Outcome.fault
  | Outcome.exited ↦ Outcome.exited
  | done none ↦ done none
  | done (some auth_header) ↦ elim (system.strtok auth_header) [
    | none ↦ Outcome.fault
    | some tokens ↦
        if not (int_eq (system.strcmp tokens.0 basic) (pos 0)) then done none else elim tokens.1 [
          | none ↦ done none
          | some token_value ↦ elim (base64_decode token_value) [
            | Outcome.fault ↦ Outcome.fault
            | Outcome.exited ↦ Outcome.exited
            | done none ↦ done none
            | done (some decoded) ↦ done (some (c_string decoded))
          ]
        ]
  ]
]

-- A copy of the token to the buffer of `room` bytes that the caller gives, if it gives one.
abbrev pub copied : Option ℕ → Text → Outcome Text
copied none decoded_token = done []
copied (some room) decoded_token = fit room decoded_token

module _ {W : Type 0} (system : System W) where
  -- The user of a session that was found.
  unfoldable pub user_of_session : Session → Handler W (Option User)
  user_of_session session = do
    expired ← λ w. return (is_expired system session w) w
    if expired == 1 then (do deleted ← delete_session system session; return none) else (do
      found_user ← get_user system session
      user ← lift (read found_user)
      return (some user))

  -- What is left of `get_user_from_request` after the search for the session.
  abbrev pub of_session : Text → Option Session → Handler W (Option User × Text)
  of_session written none = return (none, written)
  of_session written (some session) = do user ← user_of_session session; return (user, written)

  -- What is left of it after the decoding of the token.
  abbrev pub of_token : Option ℕ → Option Text → Handler W (Option User × Text)
  of_token token none = return (none, [])
  of_token token (some decoded_token) = do
    written ← lift (copied token decoded_token)
    session ← session_find_by_token system decoded_token
    of_session written session

  -- The user, and what is in the buffer for the token.
  unfoldable pub get_user_from_request : Request → Option ℕ → Handler W (Option User × Text)
  get_user_from_request request token = do
    decoded ← lift (token_of_request system request)
    of_token token decoded
