-- ===== src/HttpServer/Guards.antt =====
-- No handler but `register_user` and `login` changes anything without the token of a user.
use file_share_server.Common.{
  ◌≡◌, refl, ◌∙◌, true, false, Bool, ℕ, Option, none, some, done, inl, inr, ◌⊎◌,
}
use file_share_server.Base64.{codes}
use file_share_server.Database.{Text, System}
use file_share_server.Database.Handlers.{Handler, lift, ◌>>=◌}
use file_share_server.Database.Selects.{
  KeepsSelects, IsReading, return-IsReading, lift-IsReading, bind-IsReading,
}
use file_share_server.Model.User.{User, user_find_by_id, json_user}
use file_share_server.Model.Queries.{user_find_by_id-IsReading}
use file_share_server.Controller.Response.{
  Request, Response, field, require, json_response, format_401, format_404, format_422,
}
use file_share_server.Controller.Auth.{get_user_from_request}
use file_share_server.Controller.Sessions.{get_user_from_request-IsReading}
use file_share_server.Controller.Refusals.{Refused, require-Refused, lift-Refused, read-Refused}
use file_share_server.Controller.Users
use file_share_server.Controller.Groups
use file_share_server.Controller.Files
use file_share_server.Controller.Accounts.{logout-is_sender}
use file_share_server.Controller.Owners.{
  delete_group-IsOwner, update_group-IsOwner, kick_member_group-IsOwner, get_group_members-IsOwner,
}
use file_share_server.Controller.Memberships.{join_group-IsMembership, leave_group-IsMembership}
use file_share_server.Controller.NodeOwners.{
  delete_directory-IsDirectoryOwner, update_directory-IsDirectoryOwner, delete_file-IsEitherOwner,
  update_file-IsMember,
}
use file_share_server.Controller.NodeReaders.{
  directory_children, directory_info, group_node_tree, file_info, answer_query-IsReader,
}
use file_share_server.Controller.Creations.{create_file-IsReading, require-IsReading}
use file_share_server.Controller.MakeDirectory.{make_directory_refuses}
use file_share_server.HttpServer.Callbacks.{
  Callback, call, login, register_user, get_me_info, get_user_info, get_my_groups, logout,
  create_group, update_group, get_group_members, delete_group, join_group, leave_group,
  kick_member_group, get_group_node_tree, make_directory, delete_directory, update_directory,
  get_directory_children, get_directory_info, create_file, save_file, delete_file, update_file,
  get_file,
}

-- The request carries the token of a user.
pub record IsAuthenticated {W : Type 0} (system : System W) (request : Request) (w : W)
    : Type 0 where
  pub room : Option ℕ
  pub user : User
  pub token : Text
  pub authenticated : get_user_from_request system request room w ≡ done ((some user, token), w)

-- The handlers that need no token.
abbrev pub is_open : Callback → Bool
is_open register_user = true
is_open login = true
is_open _ = false

module _ {W : Type 0} (system : System W) (keeper : KeepsSelects system) (request : Request) (w : W)
    (r : Response) (w' : W) where
  -- The state is as it was, or the request carries a token.
  abbrev pub Guarded : Type 0
  Guarded = (w' ≡ w) ⊎ IsAuthenticated system request w

  guarded : {P : Type 0} → (P → Guarded) → Refused w r w' P → Guarded
  guarded h (inl refused) = inl refused.0
  guarded h (inr p) = h p

  token_of :
      (user : User) (token : Text)
      → get_user_from_request system request none w ≡ done ((some user, token), w)
      → Guarded
  token_of user token h =
      inr (record { room = none; user = user; token = token; authenticated = h })

  -- A handler that asks for the user first.
  gate-Refused :
      (rest : Option User × Text → User → Handler W Response)
      → (get_user_from_request system request none >>= λ who. require who.0 format_401 (rest who)) w
        ≡ done (r, w')
      → Refused w r w' (IsAuthenticated system request w)
  gate-Refused rest h =
      read-Refused w r w' (get_user_from_request system request none) _
        (get_user_from_request-IsReading system keeper request none)
        (λ who authenticated.
          require-Refused w r w' who.0 format_401 (rest who) refl (λ user is_user e. inr (record {
            room = none;
            user = user;
            token = who.1;
            authenticated = authenticated ∙ rw is_user;
          })))
        h

  get_me_info-Guarded : Users.get_me_info system request w ≡ done (r, w') → Guarded
  unfolding Users.get_me_info
  get_me_info-Guarded h = guarded inr (gate-Refused _ h)

  get_my_groups-Guarded : Groups.get_my_groups system request w ≡ done (r, w') → Guarded
  unfolding Groups.get_my_groups
  get_my_groups-Guarded h = guarded inr (gate-Refused _ h)

  get_user_info-IsReading : IsReading (Users.get_user_info system request)
  unfolding Users.get_user_info
  get_user_info-IsReading =
      bind-IsReading (lift (field system request.query (codes "user_id"))) _
        (lift-IsReading (field system request.query (codes "user_id")))
        (λ user_id. require-IsReading user_id format_422 _ (λ id.
          bind-IsReading (user_find_by_id system (system.atoi id)) _
            (user_find_by_id-IsReading system keeper (system.atoi id))
            (λ found. require-IsReading found format_404 _ (λ user.
              bind-IsReading (lift (json_user system user)) _
                (lift-IsReading (json_user system user))
                (λ json. return-IsReading (json_response json))))))

  create_group-Guarded : Groups.create_group system request w ≡ done (r, w') → Guarded
  unfolding Groups.create_group
  create_group-Guarded h = guarded inr (
      lift-Refused w r w' (field system request.body (codes "name")) _
        (λ name n.
          lift-Refused w r w' (field system request.body (codes "description")) _ (λ description d.
            lift-Refused w r w' (field system request.body (codes "avatar")) _ (λ avatar a.
              require-Refused w r w' name format_422 _ refl (λ given is_name. gate-Refused _))))
        h)

  save_file-Guarded : Files.save_file system request w ≡ done (r, w') → Guarded
  unfolding Files.save_file
  save_file-Guarded h = guarded inr (
      lift-Refused w r w' (field system request.body (codes "name")) _
        (λ name n. lift-Refused w r w' (field system request.body (codes "size")) _ (λ size s.
          lift-Refused w r w' (field system request.body (codes "path")) _ (λ path p.
            lift-Refused w r w' (field system request.body (codes "group_id")) _ (λ group_id g.
              lift-Refused w r w' (field system request.body (codes "directory_id")) _
                (λ directory_id d. require-Refused w r w' name format_422 _ refl (λ a is_name.
                  require-Refused w r w' size format_422 _ refl (λ b is_size.
                    require-Refused w r w' path format_422 _ refl (λ c is_path.
                      require-Refused w r w' group_id format_422 _ refl
                        (λ e is_group. gate-Refused _)))))))))
        h)

  -- Where SELECTs do not write: a handler other than `register_user` and `login` that returns has
  -- left the database and the files as they were, or the request carries the token of a user.
  pub call-Guarded :
      (c : Callback) → is_open c ≡ false → call system c request w ≡ done (r, w') → Guarded
  unfolding call
  call-Guarded login n h = cc
  call-Guarded register_user n h = cc
  call-Guarded get_me_info n h = get_me_info-Guarded h
  call-Guarded get_user_info n h = inl (get_user_info-IsReading.keeps w r w' h)
  call-Guarded get_my_groups n h = get_my_groups-Guarded h
  call-Guarded logout n h =
      guarded (λ p. inr (record { room = some 100; user = p.0; token = p.1; authenticated = p.3 }))
        (logout-is_sender system keeper request w r w' h)
  call-Guarded create_group n h = create_group-Guarded h
  call-Guarded update_group n h =
      guarded (λ p. token_of p.user p.token p.authenticated)
        (update_group-IsOwner system keeper request w r w' h)
  call-Guarded get_group_members n h =
      guarded (λ p. token_of p.user p.token p.authenticated)
        (get_group_members-IsOwner system keeper request w r w' h)
  call-Guarded delete_group n h =
      guarded (λ p. token_of p.user p.token p.authenticated)
        (delete_group-IsOwner system keeper request w r w' h)
  call-Guarded join_group n h =
      guarded (λ p. token_of p.user p.token p.authenticated)
        (join_group-IsMembership system keeper request w r w' h)
  call-Guarded leave_group n h =
      guarded (λ p. token_of p.user p.token p.authenticated)
        (leave_group-IsMembership system keeper request w r w' h)
  call-Guarded kick_member_group n h =
      guarded (λ p. token_of p.user p.token p.authenticated)
        (kick_member_group-IsOwner system keeper request w r w' h)
  call-Guarded get_group_node_tree n h =
      guarded (λ p. inl p.0) (answer_query-IsReader system keeper request w r w' group_node_tree h)
  call-Guarded make_directory n h = inl (make_directory_refuses system keeper request w r w' h).0
  call-Guarded delete_directory n h =
      guarded (λ p. token_of p.user p.token p.authenticated)
        (delete_directory-IsDirectoryOwner system keeper request w r w' h)
  call-Guarded update_directory n h =
      guarded (λ p. token_of p.user p.token p.authenticated)
        (update_directory-IsDirectoryOwner system keeper request w r w' h)
  call-Guarded get_directory_children n h =
      guarded (λ p. inl p.0)
        (answer_query-IsReader system keeper request w r w' directory_children h)
  call-Guarded get_directory_info n h =
      guarded (λ p. inl p.0) (answer_query-IsReader system keeper request w r w' directory_info h)
  call-Guarded create_file n h = inl ((create_file-IsReading system keeper request).keeps w r w' h)
  call-Guarded save_file n h = save_file-Guarded h
  call-Guarded delete_file n h =
      guarded (λ p. token_of p.0.user p.0.token p.0.authenticated)
        (delete_file-IsEitherOwner system keeper request w r w' h)
  call-Guarded update_file n h =
      guarded (λ p. token_of p.0.user p.0.token p.0.authenticated)
        (update_file-IsMember system keeper request w r w' h)
  call-Guarded get_file n h =
      guarded (λ p. inl p.0) (answer_query-IsReader system keeper request w r w' file_info h)
