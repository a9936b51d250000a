-- ===== src/Controller/Creations.antt =====
-- The handlers that are to make a directory or a file: what they do not do.
use file_share_server.Common.{
  Bool, true, false, Option, none, some, int_eq, ℤ, not, pos, ◌||◌, ◌++◌,
}
use file_share_server.Base64.{codes}
use file_share_server.Database.{Text, System}
use file_share_server.Database.Handlers.{Handler}
use file_share_server.Database.Selects.{KeepsSelects, IsReading, return-IsReading, bind-IsReading}
use file_share_server.Model.Support.{read, fit}
use file_share_server.Model.User.{User}
use file_share_server.Model.Group.{Group, group_find_by_id, group_has_directory, group_is_member}
use file_share_server.Model.Directory.{Directory, directory_find_by_id, directory_free}
use file_share_server.Model.File.{File, file_find_by_name}
use file_share_server.Model.Queries.{
  group_find_by_id-IsReading, group_is_member-IsReading, group_has_directory-IsReading,
}
use file_share_server.Model.Reads.{
  directory_find_by_id-IsReading, file_find_by_name-IsReading, lifted-IsReading, if-IsReading,
}
use file_share_server.Controller.Response.{
  Request, Response, field, require, refuse, format_401, format_403, format_404, format_409,
  format_422,
}
use file_share_server.Controller.Auth.{get_user_from_request}
use file_share_server.Controller.Sessions.{get_user_from_request-IsReading}
use file_share_server.Controller.Files.{
  create_file, place_file, place_in, answer_named, is_read_only,
}

module _ {W : Type 0} where
  pub require-IsReading :
      {A : Type 0} (a : Option A) (response : Response) (rest : A → Handler W Response)
      → ((a : A) → IsReading (rest a))
      → IsReading (require a response rest)
  require-IsReading none response rest h = return-IsReading response
  require-IsReading (some a) response rest h = h a

  refuse-IsReading :
      (condition : Bool) (response : Response) (rest : Handler W Response)
      → IsReading rest
      → IsReading (refuse condition response rest)
  refuse-IsReading true response rest h = return-IsReading response
  refuse-IsReading false response rest h = h

module _ {W : Type 0} (system : System W) (keeper : KeepsSelects system) where
  -- What `place_file` does in the directory that it found.
  place_in_found-IsReading :
      (name : Text) (user : User) (group : Group) (id : ℤ) (found : Option Directory)
      → IsReading (place_in system name user group id found)
  place_in_found-IsReading name user group id none =
      lifted-IsReading system keeper (directory_free none) _ (λ freed. return-IsReading none)
  place_in_found-IsReading name user group id (some directory) =
      bind-IsReading (group_has_directory system group id) _
        (group_has_directory-IsReading system keeper group id)
        (λ has_directory.
          if-IsReading system keeper
            (not (int_eq has_directory (pos 1)) || is_read_only user group directory) _ _
            (lifted-IsReading system keeper (directory_free (some directory)) _
              (λ freed. return-IsReading none))
            (lifted-IsReading system keeper (read directory.path) _ (λ directory_path.
              lifted-IsReading system keeper (fit 1024 _) _ (λ path.
                lifted-IsReading system keeper (directory_free (some directory)) _
                  (λ freed. return-IsReading _)))))

  place_file-IsReading :
      (name : Text) (user : User) (group : Group) (directory_id : Option Text)
      → IsReading (place_file system name user group directory_id)
  unfolding place_file
  place_file-IsReading name user group none =
      lifted-IsReading system keeper (read group.code) _
        (λ code. lifted-IsReading system keeper (fit 1024 _) _ (λ path. return-IsReading _))
  place_file-IsReading name user group (some directory_id) =
      bind-IsReading (directory_find_by_id system (system.atol directory_id)) _
        (directory_find_by_id-IsReading system keeper (system.atol directory_id))
        (place_in_found-IsReading name user group (system.atol directory_id))

  answer_named-IsReading :
      (path : Text) (found : Option File) → IsReading (answer_named system path found)
  answer_named-IsReading path (some file) = return-IsReading format_409
  answer_named-IsReading path none =
      lifted-IsReading system keeper (fit 4096 (codes "{\"path\": \"" ++ path ++ codes "\"}")) _
        (λ json. return-IsReading _)

  -- Where SELECTs do not write: a `create_file` that returns has left the database and the files as
  -- they were; it creates no file.
  pub create_file-IsReading : (request : Request) → IsReading (create_file system request)
  unfolding create_file
  create_file-IsReading request =
      lifted-IsReading system keeper (field system request.body (codes "name")) _ (λ name.
        lifted-IsReading system keeper (field system request.body (codes "group_id")) _ (λ group_id.
          lifted-IsReading system keeper (field system request.body (codes "directory_id")) _
            (λ directory_id. require-IsReading name format_422 _ (λ n.
              require-IsReading group_id format_422 _ (λ i.
                bind-IsReading (get_user_from_request system request none) _
                  (get_user_from_request-IsReading system keeper request none)
                  (λ who. require-IsReading who.0 format_401 _ (λ user.
                    bind-IsReading (group_find_by_id system (system.atol i)) _
                      (group_find_by_id-IsReading system keeper (system.atol i))
                      (λ found_group. require-IsReading found_group format_404 _ (λ group.
                        bind-IsReading (group_is_member system group user) _
                          (group_is_member-IsReading system keeper group user)
                          (λ is_member.
                            refuse-IsReading (not (int_eq is_member (pos 1))) format_403 _ (
                              bind-IsReading (place_file system n user group directory_id) _
                                (place_file-IsReading n user group directory_id)
                                (λ placed. require-IsReading placed format_403 _ (λ place.
                                  bind-IsReading (file_find_by_name system n group.id place.1) _
                                    (file_find_by_name-IsReading system keeper n group.id place.1)
                                    (answer_named-IsReading place.0))))))))))))))
