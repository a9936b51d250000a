-- ===== src/Controller/Files.antt =====
-- src/http/controller/file_controller.c.
use file_share_server.Common.{
  Bool, Option, none, some, not, ◌==◌, ◌&&◌, ◌||◌, int_eq, pos, ℤ, ◌++◌, if◌then◌else◌, Outcome,
}
use file_share_server.Base64.{codes}
use file_share_server.Database.{Text, System}
use file_share_server.Database.Handlers.{Handler, return, lift, ◌>>=◌}
use file_share_server.Model.Support.{fit, read, as_unsigned}
use file_share_server.Model.User.{User}
use file_share_server.Model.Group.{
  Group, group_find_by_id, group_has_directory, group_is_member, upload_dir,
}
use file_share_server.Model.Directory.{
  Directory, directory_free, directory_find_by_id, read_permission, write_permission,
}
use file_share_server.Model.File.{File, file_new, file_find_by_id, file_find_by_name, file_to_json}
use file_share_server.Model.File.Storage.{file_save, file_remove, file_update}
use file_share_server.Controller.Response.{
  Response, format_400, format_401, format_403, format_404, format_409, format_422, format_500,
  format_200, json_response, Request, field, require, refuse, nonzero,
}
use file_share_server.Controller.Auth.{get_user_from_request}

-- The directory is read-only, and the user is neither its owner nor the group's.
abbrev pub is_read_only : User → Group → Directory → Bool
is_read_only user group directory =
    (directory.permission == read_permission)
    && (not (int_eq user.id directory.owner_id) && not (int_eq user.id group.owner_id))

-- The file belongs to neither of them.
abbrev pub is_foreign : User → Group → File → Bool
is_foreign user group file =
    not (int_eq file.owner_id user.id) && not (int_eq group.owner_id user.id)

-- The assignments of `update_file`, `atol` and `atoi` being those of the C library.
unfoldable pub edited_file :
    (Text → ℤ) → (Text → ℤ) → File → Option Text → Option Text → User → File
edited_file atol atoi file size permission user = record file {
  size = elim size [ none ↦ file.size | some size ↦ atol size ];
  permission = elim permission [
    | none ↦ file.permission
    | some permission ↦ as_unsigned (atoi permission)
  ];
  modified_by = user.id;
}

module _ {W : Type 0} (system : System W) where
  -- The path of a new file in the directory that `place_file` found under `id`, with the pointer to
  -- the id; `none` is the answer 403.
  abbrev pub place_in :
      Text → User → Group → ℤ → Option Directory → Handler W (Option (Text × Option ℤ))
  place_in name user group id none = do freed ← lift (directory_free none); return none
  place_in name user group id (some directory) = do
    has_directory ← group_has_directory system group id
    if not (int_eq has_directory (pos 1)) || is_read_only user group directory
        then (do freed ← lift (directory_free (some directory)); return none)
        else (do
          directory_path ← lift (read directory.path)
          path ← lift (fit 1024 (directory_path ++ codes "/" ++ name))
          freed ← lift (directory_free (some directory))
          return (some (path, some id)))

  unfoldable pub place_file :
      Text → User → Group → Option Text → Handler W (Option (Text × Option ℤ))
  place_file name user group none = do
    code ← lift (read group.code)
    path ← lift (fit 1024 (code ++ codes "/" ++ name))
    return (some (path, none))
  place_file name user group (some directory_id) = do
    found_directory ← directory_find_by_id system (system.atol directory_id)
    place_in name user group (system.atol directory_id) found_directory

  -- What `create_file` does where it found a file of that name, or none.
  abbrev pub answer_named : Text → Option File → Handler W Response
  answer_named path (some file) = return format_409
  answer_named path none = do
    json ← lift (fit 4096 (codes "{\"path\": \"" ++ path ++ codes "\"}"))
    return (json_response json)

  unfoldable pub create_file : Request → Handler W Response
  create_file request = do
    name ← lift (field system request.body (codes "name"))
    group_id ← lift (field system request.body (codes "group_id"))
    directory_id ← lift (field system request.body (codes "directory_id"))
    require name format_422 (λ name. require group_id format_422 (λ group_id. do
      (found, token) ← get_user_from_request system request none
      require found format_401 (λ user. do
        found_group ← group_find_by_id system (system.atol group_id)
        require found_group format_404 (λ group. do
          is_member ← group_is_member system group user
          refuse (not (int_eq is_member (pos 1))) format_403 (do
            placed ← place_file name user group directory_id
            require placed format_403 (λ place. do
              found_file ← file_find_by_name system name group.id place.1
              answer_named place.0 found_file))))))

  unfoldable pub delete_file : Request → Handler W Response
  delete_file request = do
    file_id ← lift (field system request.body (codes "file_id"))
    require file_id format_422 (λ file_id. do
      (found, token) ← get_user_from_request system request none
      require found format_401 (λ user. do
        found_file ← file_find_by_id system (system.atol file_id)
        require found_file format_400 (λ file. do
          found_group ← group_find_by_id system file.group_id
          require found_group format_400 (λ group.
              refuse (is_foreign user group file) format_403 (do
                res ← file_remove system file
                refuse (nonzero res) format_500 (return format_200))))))

  -- The start of `update_file`, where neither of the values is given.
  abbrev pub either : Option Text → Option Text → Option (Unit {0})
  either none none = none
  either (some size) permission = some tt
  either none (some permission) = some tt

  unfoldable pub update_file : Request → Handler W Response
  update_file request = do
    file_id ← lift (field system request.body (codes "file_id"))
    size ← lift (field system request.body (codes "size"))
    permission ← lift (field system request.body (codes "permission"))
    require file_id format_422 (λ file_id. require (either size permission) format_422 (λ given. do
      (found, token) ← get_user_from_request system request none
      require found format_401 (λ user. do
        found_file ← file_find_by_id system (system.atol file_id)
        require found_file format_400 (λ file. do
          found_group ← group_find_by_id system file.group_id
          require found_group format_400 (λ group. do
            is_member ← group_is_member system group user
            refuse
                (not (int_eq is_member (pos 1))
                  && (not (file.permission == write_permission) || is_foreign user group file))
                format_403
                (do
                  (res, updated) ←
                      file_update system
                        (edited_file system.atol system.atoi file size permission user)
                  refuse (nonzero res) format_500 (do
                    json ← lift (file_to_json system updated)
                    return (json_response json))))))))

  unfoldable pub get_file : Request → Handler W Response
  get_file request = do
    file_id ← lift (field system request.body (codes "file_id"))
    require file_id format_422 (λ file_id. do
      (found, token) ← get_user_from_request system request none
      require found format_401 (λ user. do
        found_file ← file_find_by_id system (system.atol file_id)
        require found_file format_400 (λ file. do
          found_group ← group_find_by_id system file.group_id
          require found_group format_400 (λ group. do
            is_member ← group_is_member system group user
            refuse (not (int_eq is_member (pos 1))) format_403
                (do json ← lift (file_to_json system file); return (json_response json))))))

  -- What `save_file` does with the file after `save`: the file at `fullpath` is removed where it
  -- failed.
  unfoldable pub answer_saved : Text → ℤ × File → Handler W Response
  answer_saved fullpath result =
      if nonzero result.0
      then (do removed ← λ w. Outcome.done (system.remove fullpath w); return format_500)
      else (do json ← lift (file_to_json system result.1); return (json_response json))

  -- `directory_id == NULL ? 0 : atol(directory_id)`.
  abbrev pub id_given : Option Text → ℤ
  id_given none = pos 0
  id_given (some directory_id) = system.atol directory_id

  unfoldable pub save_file : Request → Handler W Response
  save_file request = do
    name ← lift (field system request.body (codes "name"))
    size ← lift (field system request.body (codes "size"))
    path ← lift (field system request.body (codes "path"))
    group_id ← lift (field system request.body (codes "group_id"))
    directory_id ← lift (field system request.body (codes "directory_id"))
    require name format_422 (λ name. require size format_422 (λ size.
        require path format_422 (λ path. require group_id format_422 (λ group_id. do
          (found, token) ← get_user_from_request system request none
          require found format_401 (λ user. do
            fullpath ← lift (fit 1024 (upload_dir ++ codes "/" ++ path))
            accessed ← λ w. return (system.access fullpath w) w
            refuse (nonzero accessed) format_400 (do
              file ← lift (
                  file_new system (some name) (system.atol size) user.id (system.atol group_id)
                    none)
              result ←
                  file_save system
                    (record file { path = some path; directory_id = id_given directory_id })
              answer_saved fullpath result))))))
