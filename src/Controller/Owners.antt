-- ===== src/Controller/Owners.antt =====
-- The handlers of group_controller.c that are for the owner of a group.
use file_share_server.Common.{◌≡◌, refl, ◌∙◌, true, none, some, int_eq, not, done, arith, inr}
use file_share_server.Base64.{codes}
use file_share_server.Database.{Text, System}
use file_share_server.Database.Handlers.{Handler, ◌>>=◌}
use file_share_server.Database.Selects.{KeepsSelects}
use file_share_server.Model.User.{User}
use file_share_server.Model.Group.{Group, group_find_by_code}
use file_share_server.Model.Queries.{group_find_by_code-IsReading}
use file_share_server.Controller.Response.{
  Fields, Request, Response, field, require, refuse, format_401, format_403, format_404, format_422,
}
use file_share_server.Controller.Auth.{get_user_from_request}
use file_share_server.Controller.Sessions.{get_user_from_request-IsReading}
use file_share_server.Controller.Refusals.{
  Refused, require-Refused, refuse-Refused, lift-Refused, read-Refused,
}
use file_share_server.Controller.Groups.{update_group, delete_group}
use file_share_server.Controller.Members.{get_group_members, kick_member_group}

-- The request names a group by its code among `fields`, and its token is that of the group's owner.
pub record IsOwner {W : Type 0} (system : System W) (fields : Fields) (request : Request) (w : W)
    : Type 0 where
  pub code : Text
  pub user : User
  pub token : Text
  pub group : Group
  pub names_group : field system fields (codes "code") ≡ done (some code)
  pub authenticated : get_user_from_request system request none w ≡ done ((some user, token), w)
  pub stored : group_find_by_code system code w ≡ done (some group, w)
  pub owned : int_eq group.owner_id user.id ≡ true

module _ {W : Type 0} (system : System W) (keeper : KeepsSelects system) (request : Request) where
  -- The guards that the four handlers share, and what follows them.
  abbrev owner_gate : Text → (User → Group → Handler W Response) → Handler W Response
  owner_gate code rest = do
    (found, token) ← get_user_from_request system request none
    require found format_401 (λ user. do
      found_group ← group_find_by_code system code
      require found_group format_404
          (λ group. refuse (not (int_eq group.owner_id user.id)) format_403 (rest user group)))

  module _ (w : W) (r : Response) (w' : W) where
    owner_gate-Refused :
        (fields : Fields) (code : Text) (rest : User → Group → Handler W Response)
        → field system fields (codes "code") ≡ done (some code)
        → owner_gate code rest w ≡ done (r, w')
        → Refused w r w' (IsOwner system fields request w)
    owner_gate-Refused fields code rest names h =
        read-Refused w r w' (get_user_from_request system request none) _
          (get_user_from_request-IsReading system keeper request none)
          (λ who authenticated. require-Refused w r w' who.0 format_401 _ refl (λ user is_user.
            read-Refused w r w' (group_find_by_code system code) _
              (group_find_by_code-IsReading system keeper code)
              (λ found stored. require-Refused w r w' found format_404 _ refl (λ group is_group.
                refuse-Refused w r w' (not (int_eq group.owner_id user.id)) format_403
                  (rest user group) refl
                  (λ owned e. inr (record {
                    code = code;
                    user = user;
                    token = who.1;
                    group = group;
                    names_group = names;
                    authenticated = authenticated ∙ rw is_user;
                    stored = stored ∙ rw is_group;
                    owned = ground arith;
                  }))))))
          h

    -- Where SELECTs do not write: a `delete_group` that returns has refused the request and left the
    -- database and the files as they were, or the request is by the owner of the group whose code
    -- its body gives.
    pub delete_group-IsOwner :
        delete_group system request w ≡ done (r, w')
        → Refused w r w' (IsOwner system request.body request w)
    unfolding delete_group
    delete_group-IsOwner h =
        lift-Refused w r w' (field system request.body (codes "code")) _
          (λ code named.
            require-Refused w r w' code format_422 _ refl
              (λ c is_code. owner_gate-Refused request.body c _ (named ∙ rw is_code)))
          h

    -- Where SELECTs do not write: an `update_group` that returns has refused the request and left the
    -- database and the files as they were, or the request is by the owner of the group whose code
    -- its body gives.
    pub update_group-IsOwner :
        update_group system request w ≡ done (r, w')
        → Refused w r w' (IsOwner system request.body request w)
    unfolding update_group
    update_group-IsOwner h =
        lift-Refused w r w' (field system request.body (codes "code")) _
          (λ code named. lift-Refused w r w' (field system request.body (codes "name")) _ (λ name n.
            lift-Refused w r w' (field system request.body (codes "description")) _
              (λ description d.
                lift-Refused w r w' (field system request.body (codes "avatar")) _ (λ avatar a.
                  require-Refused w r w' code format_422 _ refl
                    (λ c is_code. owner_gate-Refused request.body c _ (named ∙ rw is_code))))))
          h

    -- Where SELECTs do not write: a `kick_member_group` that returns has refused the request and left
    -- the database and the files as they were, or the request is by the owner of the group whose
    -- code its body gives.
    pub kick_member_group-IsOwner :
        kick_member_group system request w ≡ done (r, w')
        → Refused w r w' (IsOwner system request.body request w)
    unfolding kick_member_group
    kick_member_group-IsOwner h =
        lift-Refused w r w' (field system request.body (codes "code")) _
          (λ code named.
            lift-Refused w r w' (field system request.body (codes "member_id")) _ (λ member_id m.
              require-Refused w r w' code format_422 _ refl (λ c is_code.
                require-Refused w r w' member_id format_422 _ refl
                  (λ id is_id. owner_gate-Refused request.body c _ (named ∙ rw is_code)))))
          h

    -- Where SELECTs do not write: a `get_group_members` that returns has refused the request and left
    -- the database and the files as they were, or the request is by the owner of the group whose
    -- code its query gives.
    pub get_group_members-IsOwner :
        get_group_members system request w ≡ done (r, w')
        → Refused w r w' (IsOwner system request.query request w)
    unfolding get_group_members
    get_group_members-IsOwner h =
        lift-Refused w r w' (field system request.query (codes "code")) _
          (λ code named.
            require-Refused w r w' code format_422 _ refl
              (λ c is_code. owner_gate-Refused request.query c _ (named ∙ rw is_code)))
          h
