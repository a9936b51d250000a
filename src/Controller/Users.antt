-- ===== src/Controller/Users.antt =====
-- src/http/controller/user_controller.c.
use file_share_server.Common.{
  ℕ, Option, none, some, is_some, [], ◌∷◌, ◌++◌, ltb, length, take, if◌then◌else◌, Outcome, done,
  fault,
}
use file_share_server.Base64.{codes, base64_encode}
use file_share_server.Database.{Text, System}
use file_share_server.Database.Handlers.{Handler, return, lift, ◌>>=◌}
use file_share_server.Model.Support.{fit}
use file_share_server.Model.User.{
  user_new, user_find_by_id, user_find_by_username, save_user, json_user,
}
use file_share_server.Model.Session.{
  session_new, save_session, session_find_by_token, delete_session,
}
use file_share_server.Controller.Response.{
  Response, format_401, format_404, format_409, format_422, format_500, format_200, json_response,
  Request, field, require, refuse, nonzero,
}
use file_share_server.Controller.Auth.{get_user_from_request}

abbrev token_length : ℕ
token_length = 64

-- The first token_length bytes of the token, with its terminator where it is just long enough; a
-- shorter one is read beyond its end, and one that is not there is not read at all.
unfoldable pub token_bytes : Option Text → Outcome Text
token_bytes none = fault
token_bytes (some token) =
    if ltb (length token) 63 then fault else done (take token_length (token ++ (0 ∷ [])))

-- The JSON of the token, in a buffer of 100 bytes; the two bytes behind its end that are written are
-- taken as free.
unfoldable pub token_json : Option Text → Outcome Text
unfolding token_bytes
token_json token = elim (token_bytes token) [
  | done bytes ↦ fit 102 (codes "{\"token\": \"" ++ (base64_encode bytes ++ codes "\"}"))
  | Outcome.fault ↦ Outcome.fault
  | Outcome.exited ↦ Outcome.exited
]

module _ {W : Type 0} (system : System W) where
  -- What `save` returns is not looked at.
  unfoldable pub login : Request → Handler W Response
  unfolding token_json
  login request = do
    username ← lift (field system request.body (codes "username"))
    password ← lift (field system request.body (codes "password"))
    require username format_422 (λ username. require password format_422 (λ password. do
      found ← user_find_by_username system username
      require found format_401 (λ user.
          refuse (nonzero (system.strcmp user.password password)) format_401 (do
            (res, session) ← save_session system (session_new system user.id none)
            json ← lift (token_json session.token)
            return (json_response json)))))

  unfoldable pub register_user : Request → Handler W Response
  register_user request = do
    username ← lift (field system request.body (codes "username"))
    password ← lift (field system request.body (codes "password"))
    display_name ← lift (field system request.body (codes "display_name"))
    require username format_422 (λ username. require password format_422 (λ password.
        require display_name format_422 (λ display_name. do
          found ← user_find_by_username system username
          refuse (is_some found) format_409 (do
            user ← user_new system (some display_name) (some username) (some password)
            (res, saved) ← save_user system user
            refuse (nonzero res) format_500 (return format_200)))))

  unfoldable pub get_me_info : Request → Handler W Response
  get_me_info request = do
    (found, token) ← get_user_from_request system request none
    require found format_401
        (λ user. do json ← lift (json_user system user); return (json_response json))

  unfoldable pub get_user_info : Request → Handler W Response
  get_user_info request = do
    user_id ← lift (field system request.query (codes "user_id"))
    require user_id format_422 (λ user_id. do
      found ← user_find_by_id system (system.atoi user_id)
      require found format_404
          (λ user. do json ← lift (json_user system user); return (json_response json)))

  -- The token is copied to an array of 100 bytes.
  unfoldable pub logout : Request → Handler W Response
  logout request = do
    (found, token) ← get_user_from_request system request (some 100)
    require found format_401 (λ user. do
      found_session ← session_find_by_token system token
      require found_session format_401 (λ session. do
        res ← delete_session system session
        refuse (nonzero res) format_500 (return format_200)))
