-- ===== src/Model/Session.antt =====
-- src/model/session.c.
use file_share_server.Common.{
  ℕ, ◌*◌, ◌&&◌, Option, none, some, [], ◌∷◌, ℤ, pos, negsuc, int_eq, int_lt, ltb, if◌then◌else◌,
}
use file_share_server.Database.{Text, Row, System, column_text, exec, execute, with_pool}
use file_share_server.Database.Handlers.{Handler, return, lift, ◌>>=◌}
use file_share_server.Model.Support.{read, convert_long_to_string, to_int}
use file_share_server.Model.User.{User, user_find_by_id, found, written}

pub record Session : Type 0 where
  pub id : ℤ
  pub user_id : ℤ
  pub token : Option Text
  pub created_at : Option Text
  pub user : Option User

module _ {W : Type 0} (system : System W) where
  -- `id`, `created_at` and, where it is given NULL, `token` are not initialised.
  unfoldable pub session_new : ℤ → Option Text → Session
  session_new user_id token = record {
    id = system.garbage;
    user_id = user_id;
    token = token;
    created_at = none;
    user = none;
  }

  -- `_find_session_callback`.
  unfoldable pub find_session_callback : Row → Option Session → Handler W (Option Session)
  find_session_callback res arg = do
    let session = session_new (system.column_int (column_text res 1)) (column_text res 2)
    created_at ← lift (read (column_text res 3))
    return (
        some (record session {
          id = system.column_int (column_text res 0);
          created_at = some created_at;
        }))

  -- `_find_token_callback`.
  unfoldable pub find_token_callback : Row → Option Text → Handler W (Option Text)
  find_token_callback res arg = do token ← lift (read (column_text res 0)); return (some token)

  -- The value returned, and the session with its `id` and `token`.
  unfoldable pub save_session : Session → Handler W (ℤ × Session)
  save_session session =
      with_pool system (negsuc 0, session)
        (do
          user_id ← lift (convert_long_to_string system session.user_id)
          res ← execute system "INSERT INTO sessions (user_id) VALUES (?)" (some user_id ∷ [])
          if int_eq res (pos 0)
              then (do
                last_id ← λ w. return (to_int (system.last_insert_rowid w)) w
                id ← lift (convert_long_to_string system last_id)
                result ←
                    exec system (some find_token_callback) none
                      "SELECT token FROM sessions WHERE id = ?" (some id ∷ [])
                if int_eq result.0 (pos 0)
                    then return (pos 0, record session { id = last_id; token = result.1 })
                    else return (negsuc 0, record session { id = last_id }))
              else return (negsuc 0, session))

  unfoldable pub delete_session : Session → Handler W ℤ
  delete_session session = with_pool system (negsuc 0) (do
    id ← lift (convert_long_to_string system session.id)
    result ← execute system "DELETE FROM sessions WHERE id = ?" (some id ∷ [])
    return (written system result))

  -- `_user` where it is not NULL.
  abbrev pub kept : Option User → Handler W (Option User) → Handler W (Option User)
  kept (some user) search = return (some user)
  kept none search = search

  unfoldable pub get_user : Session → Handler W (Option User)
  get_user session =
      kept session.user (with_pool system none (user_find_by_id system session.user_id))

  -- `seconds > 30 * 24 * 60 && 0 > 1`.
  unfoldable pub is_expired : Session → W → ℕ
  is_expired session w = elim session.created_at [
    | none ↦ 0
    | some created_at ↦
        if int_lt (pos (30 * 24 * 60)) (system.seconds_since created_at w) && ltb 1 0 then 1 else 0
  ]

  pub session_find_by_id : ℤ → Handler W (Option Session)
  session_find_by_id id = with_pool system none (do
    value ← lift (convert_long_to_string system id)
    result ←
        exec system (some find_session_callback) none
          "SELECT id, user_id, token, created_at FROM sessions WHERE id = ?" (some value ∷ [])
    return (found system result))

  unfoldable pub session_find_by_token : Text → Handler W (Option Session)
  session_find_by_token token = with_pool system none (do
    result ←
        exec system (some find_session_callback) none
          "SELECT id, user_id, token, created_at FROM sessions WHERE token = ?" (some token ∷ [])
    return (found system result))
