-- ===== src/Controller/NodeOwners.antt =====
-- The handlers of directory_controller.c and file_controller.c that change or remove what is stored.
use file_share_server.Common.{
  ◌≡◌, refl, ◌∙◌, true, false, none, some, int_eq, not, ℤ, pos, ◌==◌, ◌&&◌, done, arith, inl, inr,
  ◌⊎◌, ◌||◌, Bool-cases,
}
use file_share_server.Base64.{codes}
use file_share_server.Database.{Text, System}
use file_share_server.Database.Handlers.{Handler, ◌>>=◌}
use file_share_server.Database.Selects.{KeepsSelects}
use file_share_server.Model.User.{User}
use file_share_server.Model.Group.{Group, group_find_by_id, group_is_member}
use file_share_server.Model.Directory.{Directory, directory_find_by_id, write_permission}
use file_share_server.Model.File.{File, file_find_by_id}
use file_share_server.Model.Queries.{group_find_by_id-IsReading, group_is_member-IsReading}
use file_share_server.Model.Reads.{directory_find_by_id-IsReading, file_find_by_id-IsReading}
use file_share_server.Controller.Response.{
  Request, Response, field, require, refuse, format_400, format_401, format_403, format_404,
  format_422,
}
use file_share_server.Controller.Auth.{get_user_from_request}
use file_share_server.Controller.Sessions.{get_user_from_request-IsReading}
use file_share_server.Controller.Refusals.{
  Refused, require-Refused, refuse-Refused, lift-Refused, read-Refused,
}
use file_share_server.Controller.Directories.{delete_directory, update_directory}
use file_share_server.Controller.Files.{delete_file, update_file, is_foreign, either}

-- The body names a directory by its id, and the token is that of the directory's owner.
pub record IsDirectoryOwner {W : Type 0} (system : System W) (request : Request) (w : W)
    : Type 0 where
  pub id : Text
  pub user : User
  pub token : Text
  pub directory : Directory
  pub names_directory : field system request.body (codes "directory_id") ≡ done (some id)
  pub authenticated : get_user_from_request system request none w ≡ done ((some user, token), w)
  pub stored : directory_find_by_id system (system.atol id) w ≡ done (some directory, w)
  pub owned : int_eq directory.owner_id user.id ≡ true

-- The body names a file by its id, `group` is the file's, and the token is that of `user`.
pub record IsFileUser {W : Type 0} (system : System W) (request : Request) (w : W) : Type 0 where
  pub id : Text
  pub user : User
  pub token : Text
  pub file : File
  pub group : Group
  pub names_file : field system request.body (codes "file_id") ≡ done (some id)
  pub authenticated : get_user_from_request system request none w ≡ done ((some user, token), w)
  pub stored : file_find_by_id system (system.atol id) w ≡ done (some file, w)
  pub grouped : group_find_by_id system file.group_id w ≡ done (some group, w)

-- The file or its group belongs to the user.
abbrev pub IsEitherOwner :
    {W : Type 0} (system : System W) (request : Request) (w : W)
    → IsFileUser system request w
    → Type 0
IsEitherOwner system request w by =
    (int_eq by.file.owner_id by.user.id ≡ true) ⊎ (int_eq by.group.owner_id by.user.id ≡ true)

-- The user is a member of the file's group.
abbrev pub IsMember :
    {W : Type 0} (system : System W) (request : Request) (w : W)
    → IsFileUser system request w
    → Type 0
IsMember system request w by =
    (m : ℤ) × (group_is_member system by.group by.user w ≡ done (m, w)) × (int_eq m (pos 1) ≡ true)

owned_by_either :
    (user : User) (group : Group) (file : File)
    → is_foreign user group file ≡ false
    → (int_eq file.owner_id user.id ≡ true) ⊎ (int_eq group.owner_id user.id ≡ true)
owned_by_either user group file h = ground arith

module _ {W : Type 0} (system : System W) (keeper : KeepsSelects system) (request : Request) (w : W)
    (r : Response) (w' : W) where
  -- The guards of the two handlers of directories, and what follows them.
  abbrev directory_gate : Text → (Directory → Handler W Response) → Handler W Response
  directory_gate id rest = do
    (found, token) ← get_user_from_request system request none
    require found format_401 (λ user. do
      found_directory ← directory_find_by_id system (system.atol id)
      require found_directory format_404 (λ directory.
          refuse (not (int_eq directory.owner_id user.id)) format_403 (rest directory)))

  directory_gate-Refused :
      (id : Text) (rest : Directory → Handler W Response)
      → field system request.body (codes "directory_id") ≡ done (some id)
      → directory_gate id rest w ≡ done (r, w')
      → Refused w r w' (IsDirectoryOwner system request w)
  directory_gate-Refused id rest names h =
      read-Refused w r w' (get_user_from_request system request none) _
        (get_user_from_request-IsReading system keeper request none)
        (λ who authenticated. require-Refused w r w' who.0 format_401 _ refl (λ user is_user.
          read-Refused w r w' (directory_find_by_id system (system.atol id)) _
            (directory_find_by_id-IsReading system keeper (system.atol id))
            (λ found stored.
              require-Refused w r w' found format_404 _ refl (λ directory is_directory.
                refuse-Refused w r w' (not (int_eq directory.owner_id user.id)) format_403
                  (rest directory) refl
                  (λ owned e. inr (record {
                    id = id;
                    user = user;
                    token = who.1;
                    directory = directory;
                    names_directory = names;
                    authenticated = authenticated ∙ rw is_user;
                    stored = stored ∙ rw is_directory;
                    owned = ground arith;
                  }))))))
        h

  -- Where SELECTs do not write: a `delete_directory` that returns has refused the request and left
  -- the database and the files as they were, or the request is by the owner of the directory whose
  -- id its body gives.
  pub delete_directory-IsDirectoryOwner :
      delete_directory system request w ≡ done (r, w')
      → Refused w r w' (IsDirectoryOwner system request w)
  unfolding delete_directory
  delete_directory-IsDirectoryOwner h =
      lift-Refused w r w' (field system request.body (codes "directory_id")) _
        (λ id named.
          require-Refused w r w' id format_422 _ refl
            (λ i is_id. directory_gate-Refused i _ (named ∙ rw is_id)))
        h

  -- Where SELECTs do not write: an `update_directory` that returns has refused the request and left
  -- the database and the files as they were, or the request is by the owner of the directory whose
  -- id its body gives.
  pub update_directory-IsDirectoryOwner :
      update_directory system request w ≡ done (r, w')
      → Refused w r w' (IsDirectoryOwner system request w)
  unfolding update_directory
  update_directory-IsDirectoryOwner h =
      lift-Refused w r w' (field system request.body (codes "directory_id")) _
        (λ id named.
          lift-Refused w r w' (field system request.body (codes "permission")) _ (λ permission p.
            require-Refused w r w' id format_422 _ refl (λ i is_id.
              require-Refused w r w' permission format_422 _ refl
                (λ q is_permission. directory_gate-Refused i _ (named ∙ rw is_id)))))
        h

  -- The searches of the handlers of files, and what follows them.
  abbrev file_gate : Text → (User → File → Group → Handler W Response) → Handler W Response
  file_gate id rest = do
    (found, token) ← get_user_from_request system request none
    require found format_401 (λ user. do
      found_file ← file_find_by_id system (system.atol id)
      require found_file format_400 (λ file. do
        found_group ← group_find_by_id system file.group_id
        require found_group format_400 (λ group. rest user file group)))

  file_gate-Refused :
      {P : Type 0} (id : Text) (rest : User → File → Group → Handler W Response)
      → field system request.body (codes "file_id") ≡ done (some id)
      → ((by : IsFileUser system request w)
          → rest by.user by.file by.group w ≡ done (r, w')
          → Refused w r w' P)
      → file_gate id rest w ≡ done (r, w')
      → Refused w r w' P
  file_gate-Refused id rest names k h =
      read-Refused w r w' (get_user_from_request system request none) _
        (get_user_from_request-IsReading system keeper request none)
        (λ who authenticated. require-Refused w r w' who.0 format_401 _ refl (λ user is_user.
          read-Refused w r w' (file_find_by_id system (system.atol id)) _
            (file_find_by_id-IsReading system keeper (system.atol id))
            (λ found stored. require-Refused w r w' found format_400 _ refl (λ file is_file.
              read-Refused w r w' (group_find_by_id system file.group_id) _
                (group_find_by_id-IsReading system keeper file.group_id)
                (λ found_group grouped.
                  require-Refused w r w' found_group format_400 _ refl (λ group is_group.
                    k (record {
                      id = id;
                      user = user;
                      token = who.1;
                      file = file;
                      group = group;
                      names_file = names;
                      authenticated = authenticated ∙ rw is_user;
                      stored = stored ∙ rw is_file;
                      grouped = grouped ∙ rw is_group;
                    })))))))
        h

  -- Where SELECTs do not write: a `delete_file` that returns has refused the request and left the
  -- database and the files as they were, or the request is by the owner of the file whose id its
  -- body gives, or by the owner of the file's group.
  pub delete_file-IsEitherOwner :
      delete_file system request w ≡ done (r, w')
      → Refused w r w' ((by : IsFileUser system request w) × IsEitherOwner system request w by)
  unfolding delete_file
  delete_file-IsEitherOwner h =
      lift-Refused w r w' (field system request.body (codes "file_id")) _
        (λ id named. require-Refused w r w' id format_422 _ refl (λ i is_id.
          file_gate-Refused i _ (named ∙ rw is_id) (λ by.
            refuse-Refused w r w' (is_foreign by.user by.group by.file) format_403 _ refl
              (λ owned e. inr (by, owned_by_either by.user by.group by.file owned)))))
        h

  allowed :
      (by : IsFileUser system request w) (m : ℤ)
      → group_is_member system by.group by.user w ≡ done (m, w)
      → (not (int_eq m (pos 1))
          && (not (by.file.permission == write_permission) || is_foreign by.user by.group by.file))
        ≡ false
      → IsMember system request w by
        ⊎ ((by.file.permission == write_permission ≡ true) × IsEitherOwner system request w by)
  allowed by m h e = elim (Bool-cases (int_eq m (pos 1))) [
    | inl member ↦ inl (m, h, member)
    | inr other ↦ inr (ground arith, owned_by_either by.user by.group by.file (ground arith))
  ]

  -- Where SELECTs do not write: an `update_file` that returns has refused the request and left the
  -- database and the files as they were, or the request is by a member of the group of the file
  -- whose id its body gives, or the file may be written and the request is by its owner or by the
  -- owner of its group.
  pub update_file-IsMember :
      update_file system request w ≡ done (r, w')
      → Refused w r w' (
          (by : IsFileUser system request w) × (IsMember system request w by
            ⊎ ((by.file.permission == write_permission ≡ true)
                × IsEitherOwner system request w by)))
  unfolding update_file
  update_file-IsMember h =
      lift-Refused w r w' (field system request.body (codes "file_id")) _
        (λ id named. lift-Refused w r w' (field system request.body (codes "size")) _ (λ size s.
          lift-Refused w r w' (field system request.body (codes "permission")) _ (λ permission p.
            require-Refused w r w' id format_422 _ refl (λ i is_id.
              require-Refused w r w' (either system size permission) format_422 _ refl (λ given g.
                file_gate-Refused i _ (named ∙ rw is_id) (λ by.
                  read-Refused w r w' (group_is_member system by.group by.user) _
                    (group_is_member-IsReading system keeper by.group by.user)
                    (λ m counted.
                      refuse-Refused w r w' _ format_403 _ refl
                        (λ free e. inr (by, allowed by m counted free)))))))))
        h
