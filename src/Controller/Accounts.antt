-- ===== src/Controller/Accounts.antt =====
-- The handlers of user_controller.c.
use file_share_server.Common.{if◌then◌else◌, ◌≡◌, refl, ◌∙◌, false, none, some, done, inr, ℤ, pos}
use file_share_server.Base64.{codes}
use file_share_server.Database.{Text, System}
use file_share_server.Database.Selects.{KeepsSelects}
use file_share_server.Model.User.{User, user_find_by_username, user_new, save_user}
use file_share_server.Model.Session.{Session, session_new, save_session, session_find_by_token}
use file_share_server.Model.Queries.{session_find_by_token-IsReading}
use file_share_server.Controller.Response.{
  format_500, format_200, Request, Response, field, json_response, nonzero, json_response,
  format_401,
}
use file_share_server.Controller.Auth.{get_user_from_request}
use file_share_server.Controller.Sessions.{get_user_from_request-IsReading}
use file_share_server.Controller.Refusals.{is_refusal, Refused, require-Refused, read-Refused}
use file_share_server.Controller.Users.{logout}

module _ {W : Type 0} (system : System W) (keeper : KeepsSelects system) (request : Request) (w : W)
    (r : Response) (w' : W) where
  -- The request gives the name and the password of a user, for whom a new session is saved.
  pub record IsLogin : Type 0 where
    pub username : Text
    pub password : Text
    pub user : User
    pub result : ℤ × Session
    pub names_user : field system request.body (codes "username") ≡ done (some username)
    pub gives_password : field system request.body (codes "password") ≡ done (some password)
    pub stored : user_find_by_username system username w ≡ done (some user, w)
    pub same : system.strcmp user.password password ≡ pos 0
    pub saved : save_session system (session_new system user.id none) w ≡ done (result, w')
    pub answered : is_refusal r ≡ false

  -- The request gives a username for which no user is found, and what it gives is saved as a user.
  pub record IsRegistration : Type 0 where
    pub username : Text
    pub password : Text
    pub display_name : Text
    pub user : User
    pub result : ℤ × User
    pub names_user : field system request.body (codes "username") ≡ done (some username)
    pub gives_password : field system request.body (codes "password") ≡ done (some password)
    pub gives_name : field system request.body (codes "display_name") ≡ done (some display_name)
    pub unknown : user_find_by_username system username w ≡ done (none, w)
    pub created :
        user_new system (some display_name) (some username) (some password) w ≡ done (user, w)
    pub saved : save_user system user w ≡ done (result, w')
    pub answered : r ≡ (if nonzero result.0 then format_500 else format_200)

  -- Where SELECTs do not write: a `logout` that returns has refused the request and left the
  -- database and the files as they were, or the request is by a user, and its token is that of a
  -- session.
  pub logout-is_sender :
      logout system request w ≡ done (r, w')
      → Refused w r w' (
          (user : User) × (token : Text) × (session : Session) × (get_user_from_request system
              request
              (some 100)
              w
            ≡ done ((some user, token), w))
          × (session_find_by_token system token w ≡ done (some session, w)))
  unfolding logout
  logout-is_sender h =
      read-Refused w r w' (get_user_from_request system request (some 100)) _
        (get_user_from_request-IsReading system keeper request (some 100))
        (λ who authenticated. require-Refused w r w' who.0 format_401 _ refl (λ user is_user.
          read-Refused w r w' (session_find_by_token system who.1) _
            (session_find_by_token-IsReading system keeper who.1)
            (λ found stored. require-Refused w r w' found format_401 _ refl (λ session is_session e.
              inr (user, who.1, session, authenticated ∙ rw is_user, stored ∙ rw is_session)))))
        h
