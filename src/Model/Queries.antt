-- ===== src/Model/Queries.antt =====
-- The queries of the models only read.
use Prim.Native.String.{String}
use file_share_server.Common.{◌≡◌, refl, true, ℤ, pos, negsuc, Option, none, some, List}
use file_share_server.Database.{Text, Row, System, column_text, exec}
use file_share_server.Database.Handlers.{Handler, return, lift, ◌>>=◌}
use file_share_server.Database.Selects.{
  KeepsSelects, IsReading, is_select, return-IsReading, lift-IsReading, bind-IsReading,
  with_pool-IsReading, exec-IsReading,
}
use file_share_server.Model.Support.{read, strcpy, convert_long_to_string}
use file_share_server.Model.User.{
  User, user_new, find_user_callback, user_find_by_id, user_find_by_username, found,
}
use file_share_server.Model.Session.{
  Session, find_session_callback, session_find_by_token, kept, get_user,
}
use file_share_server.Model.Group.{
  Group, group_new, get_group_callback, checkable_callback, group_find_by_id, group_has_directory,
  group_find_by_code, group_is_member,
}

module _ {W : Type 0} (system : System W) (keeper : KeepsSelects system) where
  -- A query with one value and what becomes of its result.
  pub query-IsReading :
      {A B : Type 0} (callback : Row → A → Handler W A) (arg : A) (sql : String)
      (values : List (Option Text)) (rest : ℤ × A → B)
      → is_select sql ≡ true
      → ((row : Row) (arg : A) → IsReading (callback row arg))
      → IsReading (exec system (some callback) arg sql values >>= λ result. return (rest result))
  query-IsReading callback arg sql values rest s h =
      bind-IsReading (exec system (some callback) arg sql values) (λ result. return (rest result))
        (exec-IsReading system keeper callback arg sql values s h)
        (λ result. return-IsReading (rest result))

  pub user_new-IsReading : (a b c : Option Text) → IsReading (user_new system a b c)
  unfolding user_new
  user_new-IsReading a b c =
      bind-IsReading (lift (strcpy 255 a)) _ (lift-IsReading (strcpy 255 a)) (λ d.
        bind-IsReading (lift (strcpy 50 b)) _ (lift-IsReading (strcpy 50 b)) (λ u.
          bind-IsReading (lift (strcpy 50 c)) _ (lift-IsReading (strcpy 50 c))
            (λ p. return-IsReading _)))

  find_user_callback-IsReading :
      (row : Row) (arg : Option User) → IsReading (find_user_callback system row arg)
  unfolding find_user_callback
  find_user_callback-IsReading row arg =
      bind-IsReading (user_new system (column_text row 1) (column_text row 2) (column_text row 3)) _
        (user_new-IsReading (column_text row 1) (column_text row 2) (column_text row 3))
        (λ user. return-IsReading _)

  pub user_find_by_username-IsReading :
      (username : Text) → IsReading (user_find_by_username system username)
  unfolding user_find_by_username
  user_find_by_username-IsReading username = with_pool-IsReading system none _ (
      query-IsReading (find_user_callback system) none _ _ (found system) refl
        find_user_callback-IsReading)

  pub user_find_by_id-IsReading : (id : ℤ) → IsReading (user_find_by_id system id)
  unfolding user_find_by_id
  user_find_by_id-IsReading id = with_pool-IsReading system none _ (
      bind-IsReading (lift (convert_long_to_string system id)) _
        (lift-IsReading (convert_long_to_string system id))
        (λ value.
          query-IsReading (find_user_callback system) none _ _ (found system) refl
            find_user_callback-IsReading))

  find_session_callback-IsReading :
      (row : Row) (arg : Option Session) → IsReading (find_session_callback system row arg)
  unfolding find_session_callback
  find_session_callback-IsReading row arg =
      bind-IsReading (lift (read (column_text row 3))) _ (lift-IsReading (read (column_text row 3)))
        (λ created_at. return-IsReading _)

  pub session_find_by_token-IsReading :
      (token : Text) → IsReading (session_find_by_token system token)
  unfolding session_find_by_token
  session_find_by_token-IsReading token = with_pool-IsReading system none _ (
      query-IsReading (find_session_callback system) none _ _ (found system) refl
        find_session_callback-IsReading)

  kept-IsReading :
      (user : Option User) (m : Handler W (Option User))
      → IsReading m
      → IsReading (kept system user m)
  kept-IsReading none m h = h
  kept-IsReading (some user) m h = return-IsReading (some user)

  pub get_user-IsReading : (session : Session) → IsReading (get_user system session)
  unfolding get_user
  get_user-IsReading session =
      kept-IsReading session.user _
        (with_pool-IsReading system none _ (user_find_by_id-IsReading session.user_id))

  pub get_group_callback-IsReading :
      (row : Row) (arg : Option Group) → IsReading (get_group_callback system row arg)
  unfolding get_group_callback
  get_group_callback-IsReading row arg =
      bind-IsReading
        (lift (
          group_new system (column_text row 1) (column_text row 2) (column_text row 3)
            (system.column_int64 (column_text row 5))))
        _ (lift-IsReading _)
        (λ group.
          bind-IsReading (lift (read (column_text row 6))) _
            (lift-IsReading (read (column_text row 6)))
            (λ code.
              bind-IsReading (lift (read (column_text row 7))) _
                (lift-IsReading (read (column_text row 7))) (λ created_at. return-IsReading _)))

  pub group_find_by_code-IsReading : (code : Text) → IsReading (group_find_by_code system code)
  unfolding group_find_by_code
  group_find_by_code-IsReading code = with_pool-IsReading system none _ (
      query-IsReading (get_group_callback system) none _ _ (found system) refl
        get_group_callback-IsReading)

  pub group_find_by_id-IsReading : (id : ℤ) → IsReading (group_find_by_id system id)
  unfolding group_find_by_id
  group_find_by_id-IsReading id = with_pool-IsReading system none _ (
      bind-IsReading (lift (convert_long_to_string system id)) _
        (lift-IsReading (convert_long_to_string system id))
        (λ value.
          query-IsReading (get_group_callback system) none _ _ (found system) refl
            get_group_callback-IsReading))

  pub group_has_directory-IsReading :
      (group : Group) (id : ℤ) → IsReading (group_has_directory system group id)
  unfolding group_has_directory
  group_has_directory-IsReading group id = with_pool-IsReading system (negsuc 0) _ (
      bind-IsReading (lift (convert_long_to_string system group.id)) _
        (lift-IsReading (convert_long_to_string system group.id))
        (λ group_id.
          bind-IsReading (lift (convert_long_to_string system id)) _
            (lift-IsReading (convert_long_to_string system id))
            (λ directory_id.
              query-IsReading (checkable_callback system) (pos 0) _ _ _ refl
                (λ row arg. return-IsReading (pos 1)))))

  pub group_is_member-IsReading :
      (group : Group) (user : User) → IsReading (group_is_member system group user)
  unfolding group_is_member
  group_is_member-IsReading group user = with_pool-IsReading system (negsuc 0) _ (
      bind-IsReading (lift (convert_long_to_string system group.id)) _
        (lift-IsReading (convert_long_to_string system group.id))
        (λ group_id.
          bind-IsReading (lift (convert_long_to_string system user.id)) _
            (lift-IsReading (convert_long_to_string system user.id))
            (λ user_id.
              query-IsReading (checkable_callback system) (pos 0) _ _ _ refl
                (λ row arg. return-IsReading (pos 1)))))
