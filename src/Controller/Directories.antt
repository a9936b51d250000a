-- ===== src/Controller/Directories.antt =====
-- src/http/controller/directory_controller.c.
use file_share_server.Common.{
  Option, none, some, not, int_eq, pos, ◌++◌, ◌+◌, length, if◌then◌else◌, Outcome, done, ℤ,
}
use file_share_server.LinkedList
use file_share_server.Base64.{codes}
use file_share_server.Database.{Text, System}
use file_share_server.Database.Handlers.{Handler, return, lift, ◌>>=◌}
use file_share_server.Model.Support.{fit, read, as_unsigned}
use file_share_server.Model.Group.{Group, group_find_by_id, group_has_directory, group_is_member}
use file_share_server.Model.Directory.{
  Directory, directory_new, directory_free, directory_find_by_id, directory_get_group,
  directory_json,
}
use file_share_server.Model.Directory.Storage.{directory_save, directory_remove, directory_update}
use file_share_server.Model.File.{file_to_json}
use file_share_server.Model.Nodes.{
  Node, of_directory, of_file, directory_get_children, get_root_node_by_group,
}
use file_share_server.Controller.Response.{
  Response, format_401, format_403, format_404, format_422, format_500, format_200, json_response,
  Request, field, require, refuse, nonzero, list_json,
}
use file_share_server.Controller.Auth.{get_user_from_request}

-- The JSON of a node, from that of its directory or file.
abbrev pub as_node : Outcome Text → Text → Outcome Text
as_node Outcome.fault rest = Outcome.fault
as_node Outcome.exited rest = Outcome.exited
as_node (done json) rest = fit (length json + 100) (codes "{\"node\":" ++ json ++ rest)

module _ {W : Type 0} (system : System W) where
  unfoldable pub node_to_json : Node → Outcome Text
  node_to_json (of_directory directory) =
      as_node (directory_json system directory) (codes ", \"type\": \"directory\"}")
  node_to_json (of_file file) = as_node (file_to_json system file) (codes ", \"type\": \"file\"}")

  -- The test of `parent_id`, where it is given: whether the group has the directory.
  unfoldable pub has_parent : Group → Option Text → Handler W ℤ
  has_parent group none = return (pos 1)
  has_parent group (some parent_id) = group_has_directory system group (system.atol parent_id)

  -- `parent_id_ptr`.
  abbrev pub parent_pointer : Option Text → Option ℤ
  parent_pointer none = none
  parent_pointer (some parent_id) = some (system.atol parent_id)

  -- What `make_directory` does with the directory after `save`, which returned `res`.
  unfoldable pub answer_made : ℤ × Directory → Handler W Response
  answer_made result =
      if nonzero result.0
      then (do freed ← lift (directory_free (some result.1)); return format_500)
      else (do
        json ← lift (directory_json system result.1)
        freed ← lift (directory_free (some result.1))
        return (json_response json))

  unfoldable pub make_directory : Request → Handler W Response
  make_directory request = do
    name ← lift (field system request.body (codes "name"))
    group_id ← lift (field system request.body (codes "group_id"))
    parent_id ← lift (field system request.body (codes "parent_id"))
    require name format_422 (λ name. require group_id format_422 (λ group_id. do
      found_group ← group_find_by_id system (system.atol group_id)
      require found_group format_404 (λ group. do
        parent ← has_parent group parent_id
        refuse (not (int_eq parent (pos 1))) format_403 (do
          (found, token) ← get_user_from_request system request none
          require found format_401 (λ user. do
            is_member ← group_is_member system group user
            refuse (not (int_eq is_member (pos 1))) format_403 (do
              directory ←
                  lift
                    (directory_new system (some name) user.id group.id (parent_pointer parent_id))
              saved ← directory_save system directory
              answer_made saved))))))

  unfoldable pub delete_directory : Request → Handler W Response
  delete_directory request = do
    id ← lift (field system request.body (codes "directory_id"))
    require id format_422 (λ id. do
      (found, token) ← get_user_from_request system request none
      require found format_401 (λ user. do
        found_directory ← directory_find_by_id system (system.atol id)
        require found_directory format_404 (λ directory.
            refuse (not (int_eq directory.owner_id user.id)) format_403 (do
              res ← directory_remove system directory
              refuse (nonzero res) format_500 (return format_200)))))

  -- What `update_directory` does with the directory after `update`, which returned `res`.
  unfoldable pub answer_updated : ℤ × Directory → Handler W Response
  answer_updated result =
      if nonzero result.0
      then (do freed ← lift (directory_free (some result.1)); return format_500)
      else (do
        json ← lift (directory_json system result.1)
        freed ← lift (directory_free (some result.1))
        return (json_response json))

  unfoldable pub update_directory : Request → Handler W Response
  update_directory request = do
    id ← lift (field system request.body (codes "directory_id"))
    permission ← lift (field system request.body (codes "permission"))
    require id format_422 (λ id. require permission format_422 (λ permission. do
      (found, token) ← get_user_from_request system request none
      require found format_401 (λ user. do
        found_directory ← directory_find_by_id system (system.atol id)
        require found_directory format_404 (λ directory.
            refuse (not (int_eq directory.owner_id user.id)) format_403 (do
              updated ←
                  directory_update system
                    (record directory { permission = as_unsigned (system.atol permission) })
              answer_updated updated)))))

  unfoldable pub get_directory_children : Request → Handler W Response
  get_directory_children request = do
    id ← lift (field system request.query (codes "directory_id"))
    require id format_422 (λ id. do
      (found, token) ← get_user_from_request system request none
      require found format_401 (λ user. do
        found_directory ← directory_find_by_id system (system.atol id)
        require found_directory format_404 (λ directory. do
          (found_group, keeping) ← directory_get_group system directory
          group ← lift (read found_group)
          is_member ← group_is_member system group user
          refuse (not (int_eq is_member (pos 1))) format_403 (do
            found_children ← directory_get_children system none keeping
            require found_children format_500 (λ children. do
              json ← lift (list_json node_to_json (some children))
              freed ← lift (directory_free (some keeping))
              return (json_response json))))))

  unfoldable pub get_group_node_tree : Request → Handler W Response
  get_group_node_tree request = do
    id ← lift (field system request.query (codes "group_id"))
    require id format_422 (λ id. do
      (found, token) ← get_user_from_request system request none
      require found format_401 (λ user. do
        found_group ← group_find_by_id system (system.atol id)
        require found_group format_404 (λ group. do
          is_member ← group_is_member system group user
          refuse (not (int_eq is_member (pos 1))) format_403 (do
            found_children ← get_root_node_by_group system group.id
            require found_children format_500 (λ children. do
              json ← lift (list_json node_to_json (some children))
              destroyed ← lift (LinkedList.linked_list_destructor children)
              return (json_response json))))))

  unfoldable pub get_directory_info : Request → Handler W Response
  get_directory_info request = do
    id ← lift (field system request.query (codes "directory_id"))
    require id format_422 (λ id. do
      (found, token) ← get_user_from_request system request none
      require found format_401 (λ user. do
        found_directory ← directory_find_by_id system (system.atol id)
        require found_directory format_404 (λ directory. do
          (found_group, keeping) ← directory_get_group system directory
          group ← lift (read found_group)
          is_member ← group_is_member system group user
          refuse (not (int_eq is_member (pos 1))) format_403 (do
            json ← lift (directory_json system keeping)
            freed ← lift (directory_free (some keeping))
            return (json_response json)))))
