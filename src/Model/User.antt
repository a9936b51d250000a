-- ===== src/Model/User.antt =====
-- src/model/user.c.
use file_share_server.Common.{
  Option, none, some, [], ◌∷◌, ◌++◌, ℤ, pos, negsuc, int_eq, if◌then◌else◌, Outcome,
}
use file_share_server.Base64.{codes}
use file_share_server.Database.{Text, Row, System, column_text, exec, execute, with_pool}
use file_share_server.Database.Handlers.{Handler, return, lift, ◌>>=◌}
use file_share_server.Model.Support.{fit, strcpy, convert_long_to_string, to_int}

pub record User : Type 0 where
  pub id : ℤ
  pub display_name : Text
  pub username : Text
  pub password : Text
  pub status : ℤ

module _ {W : Type 0} (system : System W) where
  -- `id` and `status` are not initialised.
  unfoldable pub user_new : Option Text → Option Text → Option Text → Handler W User
  user_new display_name username password = do
    display_name ← lift (strcpy 255 display_name)
    username ← lift (strcpy 50 username)
    password ← lift (strcpy 50 password)
    return (record {
      id = system.garbage;
      display_name = display_name;
      username = username;
      password = password;
      status = system.garbage;
    })

  -- `_find_user_callback`.
  unfoldable pub find_user_callback : Row → Option User → Handler W (Option User)
  find_user_callback res arg = do
    user ← user_new (column_text res 1) (column_text res 2) (column_text res 3)
    return (
        some (record user {
          id = system.column_int (column_text res 0);
          status = system.column_int (column_text res 4);
        }))

  -- What `exec` left in `user` where it returned SQLITE_OK.
  abbrev pub found : {A : Type 0} → ℤ × Option A → Option A
  found result = if int_eq result.0 (pos 0) then result.1 else none

  unfoldable pub user_find_by_id : ℤ → Handler W (Option User)
  user_find_by_id id = with_pool system none (do
    value ← lift (convert_long_to_string system id)
    result ←
        exec system (some find_user_callback) none
          "SELECT id, display_name, username, password, status FROM users WHERE id = ?"
          (some value ∷ [])
    return (found result))

  unfoldable pub user_find_by_username : Text → Handler W (Option User)
  user_find_by_username username = with_pool system none (do
    result ←
        exec system (some find_user_callback) none
          "SELECT id, display_name, username, password, status FROM users WHERE username = ?"
          (some username ∷ [])
    return (found result))

  -- The value returned, and the user with its `id`.
  unfoldable pub save_user : User → Handler W (ℤ × User)
  save_user user =
      with_pool system (negsuc 0, user)
        (do
          result ←
              execute system "INSERT INTO users (display_name, username, password) VALUES (?, ?, ?)"
                (some user.display_name ∷ some user.username ∷ some user.password ∷ [])
          if int_eq result (pos 0)
              then (λ w. return (pos 0, record user { id = to_int (system.last_insert_rowid w) }) w)
              else return (negsuc 0, user))

  -- What the operations that only write return.
  abbrev pub written : ℤ → ℤ
  written result = if int_eq result (pos 0) then pos 0 else negsuc 0

  pub update_user : User → Handler W ℤ
  update_user user = with_pool system (negsuc 0) (do
    status ← lift (convert_long_to_string system user.status)
    id ← lift (convert_long_to_string system user.id)
    result ←
        execute system
          "UPDATE users SET display_name = ?, username = ?, password = ?, status = ? WHERE id = ?"
          (some user.display_name
            ∷ some user.username
            ∷ some user.password
            ∷ some status
            ∷ some id
            ∷ [])
    return (written result))

  pub delete_user : User → Handler W ℤ
  delete_user user = with_pool system (negsuc 0) (do
    id ← lift (convert_long_to_string system user.id)
    result ← execute system "DELETE FROM users WHERE id = ?" (some id ∷ [])
    return (written result))

  unfoldable pub json_user : User → Outcome Text
  json_user user = fit 1024 (
      codes "{\"id\": "
      ++ system.print_long user.id
      ++ codes ", \"display_name\": \""
      ++ user.display_name
      ++ codes "\", \"username\": \""
      ++ user.username
      ++ codes "\", \"status\": "
      ++ system.print_long user.status
      ++ codes "}")
