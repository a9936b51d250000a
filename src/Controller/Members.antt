-- ===== src/Controller/Members.antt =====
-- src/http/controller/group_controller.c: the operations on the members of a group.
use file_share_server.Common.{none, not, int_eq}
use file_share_server.Base64.{codes}
use file_share_server.Database.{System}
use file_share_server.Database.Handlers.{Handler, return, lift, ◌>>=◌}
use file_share_server.Model.User.{user_find_by_id, json_user}
use file_share_server.Model.Group.{
  group_add_member, group_leave, group_is_member, group_get_members, group_to_json,
  group_find_by_code,
}
use file_share_server.Controller.Response.{
  Response, format_400, format_401, format_403, format_404, format_422, format_500, format_200,
  json_response, Request, field, require, refuse, nonzero, list_json,
}
use file_share_server.Controller.Auth.{get_user_from_request}

module _ {W : Type 0} (system : System W) where
  unfoldable pub get_group_members : Request → Handler W Response
  get_group_members request = do
    code ← lift (field system request.query (codes "code"))
    require code format_422 (λ code. do
      (found, token) ← get_user_from_request system request none
      require found format_401 (λ user. do
        found_group ← group_find_by_code system code
        require found_group format_404 (λ group.
            refuse (not (int_eq group.owner_id user.id)) format_403 (do
              members ← group_get_members system group
              json ← lift (list_json (json_user system) members)
              return (json_response json)))))

  unfoldable pub join_group : Request → Handler W Response
  join_group request = do
    code ← lift (field system request.body (codes "code"))
    require code format_422 (λ code. do
      (found, token) ← get_user_from_request system request none
      require found format_401 (λ user. do
        found_group ← group_find_by_code system code
        require found_group format_404 (λ group. do
          is_member ← group_is_member system group user
          refuse (nonzero is_member) format_403 (do
            res ← group_add_member system group user
            refuse (nonzero res) format_500
                (do json ← lift (group_to_json system group); return (json_response json))))))

  unfoldable pub leave_group : Request → Handler W Response
  leave_group request = do
    code ← lift (field system request.body (codes "code"))
    require code format_422 (λ code. do
      (found, token) ← get_user_from_request system request none
      require found format_401 (λ user. do
        found_group ← group_find_by_code system code
        require found_group format_404 (λ group. do
          is_member ← group_is_member system group user
          refuse (not (nonzero is_member)) format_403 (do
            res ← group_leave system group user
            refuse (nonzero res) format_500 (return format_200)))))

  unfoldable pub kick_member_group : Request → Handler W Response
  kick_member_group request = do
    code ← lift (field system request.body (codes "code"))
    member_id ← lift (field system request.body (codes "member_id"))
    require code format_422 (λ code. require member_id format_422 (λ member_id. do
      (found, token) ← get_user_from_request system request none
      require found format_401 (λ user. do
        found_group ← group_find_by_code system code
        require found_group format_404 (λ group.
            refuse (not (int_eq group.owner_id user.id)) format_403 (do
              found_member ← user_find_by_id system (system.atoi member_id)
              require found_member format_404 (λ member. do
                is_member ← group_is_member system group member
                refuse (not (nonzero is_member)) format_400 (do
                  res ← group_leave system group member
                  refuse (nonzero res) format_500 (return format_200))))))))
