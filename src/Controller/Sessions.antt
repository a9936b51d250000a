-- ===== src/Controller/Sessions.antt =====
-- `is_expired` of src/model/session.c, and what it makes of `get_user_from_request`.
use file_share_server.Common.{[], ◌≡◌, ℕ, Option, none, some, arith}
use file_share_server.Database.{Text, System}
use file_share_server.Database.Handlers.{Handler, return, lift, ◌>>=◌}
use file_share_server.Database.Selects.{
  KeepsSelects, IsReading, return-IsReading, lift-IsReading, bind-IsReading,
}
use file_share_server.Model.Support.{read}
use file_share_server.Model.User.{User}
use file_share_server.Model.Session.{Session, session_find_by_token, is_expired, get_user}
use file_share_server.Model.Queries.{session_find_by_token-IsReading, get_user-IsReading}
use file_share_server.Controller.Response.{Request}
use file_share_server.Controller.Auth.{
  token_of_request, copied, of_session, of_token, user_of_session, get_user_from_request,
}

-- No session expires, whenever it was created.
pub is_expired_lem :
    {W : Type 0} (system : System W) (session : Session) (w : W) → is_expired system session w ≡ 0
unfolding is_expired
is_expired_lem system session w = ground arith

module _ {W : Type 0} (system : System W) (keeper : KeepsSelects system) where
  abbrev session_user : Session → Handler W (Option User)
  session_user session = do
    found_user ← get_user system session
    user ← lift (read found_user)
    return (some user)

  user_of_session_lem :
      (session : Session) (w : W) → user_of_session system session w ≡ session_user session w
  unfolding user_of_session
  user_of_session_lem session w = rw (is_expired_lem system session w)

  session_user-IsReading : (session : Session) → IsReading (session_user session)
  session_user-IsReading session =
      bind-IsReading (get_user system session) _ (get_user-IsReading system keeper session)
        (λ found_user.
          bind-IsReading (lift (read found_user)) _ (lift-IsReading (read found_user))
            (λ user. return-IsReading (some user)))

  user_of_session-IsReading : (session : Session) → IsReading (user_of_session system session)
  user_of_session-IsReading session = record {
    keeps = λ w a w' e.
        (session_user-IsReading session).keeps w a w' (rw (user_of_session_lem session w) at e);
  }

  of_session-IsReading :
      (written : Text) (session : Option Session) → IsReading (of_session system written session)
  of_session-IsReading written none = return-IsReading (none, written)
  of_session-IsReading written (some session) =
      bind-IsReading (user_of_session system session) _ (user_of_session-IsReading session)
        (λ user. return-IsReading _)

  of_token-IsReading :
      (token : Option ℕ) (decoded : Option Text) → IsReading (of_token system token decoded)
  of_token-IsReading token none = return-IsReading (none, [])
  of_token-IsReading token (some decoded) =
      bind-IsReading (lift (copied token decoded)) _ (lift-IsReading (copied token decoded))
        (λ written.
          bind-IsReading (session_find_by_token system decoded) _
            (session_find_by_token-IsReading system keeper decoded)
            (λ session. of_session-IsReading written session))

  -- Where SELECTs do not write: a `get_user_from_request` that returns has left the database and the
  -- files as they were.
  pub get_user_from_request-IsReading :
      (request : Request) (token : Option ℕ)
      → IsReading (get_user_from_request system request token)
  unfolding get_user_from_request
  get_user_from_request-IsReading request token =
      bind-IsReading (lift (token_of_request system request)) _
        (lift-IsReading (token_of_request system request))
        (λ decoded. of_token-IsReading token decoded)
