-- ===== src/Controller/Groups.antt =====
-- src/http/controller/group_controller.c: the operations on a group.
use file_share_server.Common.{Option, none, some, not, int_eq}
use file_share_server.Base64.{codes}
use file_share_server.Database.{Text, System}
use file_share_server.Database.Handlers.{Handler, return, lift, ◌>>=◌}
use file_share_server.Model.Group.{
  Group, group_new, group_save, group_update, group_remove, group_to_json, group_find_by_code,
  group_find_by_member,
}
use file_share_server.Controller.Response.{
  Response, format_401, format_403, format_404, format_422, format_500, format_200, json_response,
  Request, field, require, refuse, nonzero, list_json,
}
use file_share_server.Controller.Auth.{get_user_from_request}

-- The assignments of `update_group`: a field that the request does not give stays.
unfoldable pub edited : Group → Option Text → Option Text → Option Text → Group
edited group name description avatar = record group {
  name = elim name [ none ↦ group.name | some name ↦ name ];
  description = elim description [ none ↦ group.description | some description ↦ some description ];
  avatar = elim avatar [ none ↦ group.avatar | some avatar ↦ some avatar ];
}

module _ {W : Type 0} (system : System W) where
  unfoldable pub create_group : Request → Handler W Response
  create_group request = do
    name ← lift (field system request.body (codes "name"))
    description ← lift (field system request.body (codes "description"))
    avatar ← lift (field system request.body (codes "avatar"))
    require name format_422 (λ name. do
      (found, token) ← get_user_from_request system request none
      require found format_401 (λ user. do
        group ← lift (group_new system (some name) description avatar user.id)
        (res, saved) ← group_save system group
        refuse (nonzero res) format_500
            (do json ← lift (group_to_json system saved); return (json_response json))))

  unfoldable pub update_group : Request → Handler W Response
  update_group request = do
    code ← lift (field system request.body (codes "code"))
    name ← lift (field system request.body (codes "name"))
    description ← lift (field system request.body (codes "description"))
    avatar ← lift (field system request.body (codes "avatar"))
    require code format_422 (λ code. do
      (found, token) ← get_user_from_request system request none
      require found format_401 (λ user. do
        found_group ← group_find_by_code system code
        require found_group format_404 (λ group.
            refuse (not (int_eq group.owner_id user.id)) format_403 (do
              res ← group_update system (edited group name description avatar)
              refuse (nonzero res) format_500 (do
                json ← lift (group_to_json system (edited group name description avatar))
                return (json_response json))))))

  unfoldable pub delete_group : Request → Handler W Response
  delete_group request = do
    code ← lift (field system request.body (codes "code"))
    require code format_422 (λ code. do
      (found, token) ← get_user_from_request system request none
      require found format_401 (λ user. do
        found_group ← group_find_by_code system code
        require found_group format_404 (λ group.
            refuse (not (int_eq group.owner_id user.id)) format_403 (do
              res ← group_remove system group
              refuse (nonzero res) format_500 (return format_200)))))

  unfoldable pub get_my_groups : Request → Handler W Response
  get_my_groups request = do
    (found, token) ← get_user_from_request system request none
    require found format_401 (λ user. do
      groups ← group_find_by_member system user.id
      json ← lift (list_json (group_to_json system) groups)
      return (json_response json))
