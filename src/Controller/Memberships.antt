-- ===== src/Controller/Memberships.antt =====
-- The handlers of group_controller.c by which a user joins and leaves a group.
use file_share_server.Common.{
  ◌≡◌, refl, ◌∙◌, Bool, true, false, none, some, ℤ, not, done, arith, inr,
}
use file_share_server.Base64.{codes}
use file_share_server.Database.{Text, System}
use file_share_server.Database.Handlers.{Handler, ◌>>=◌}
use file_share_server.Database.Selects.{KeepsSelects}
use file_share_server.Model.User.{User}
use file_share_server.Model.Group.{Group, group_find_by_code, group_is_member}
use file_share_server.Model.Queries.{group_find_by_code-IsReading, group_is_member-IsReading}
use file_share_server.Controller.Response.{
  Request, Response, field, require, refuse, nonzero, format_401, format_403, format_404,
  format_422,
}
use file_share_server.Controller.Auth.{get_user_from_request}
use file_share_server.Controller.Sessions.{get_user_from_request-IsReading}
use file_share_server.Controller.Refusals.{
  Refused, require-Refused, refuse-Refused, lift-Refused, read-Refused,
}
use file_share_server.Controller.Members.{join_group, leave_group}

-- The sender of the request has a valid token, the body names a group by its code, and what
-- `group_is_member` says of the two is nonzero or not, as `member` tells.
pub record IsMembership {W : Type 0} (system : System W) (member : Bool) (request : Request) (w : W)
    : Type 0 where
  pub code : Text
  pub user : User
  pub token : Text
  pub group : Group
  pub answer : ℤ
  pub names_group : field system request.body (codes "code") ≡ done (some code)
  pub authenticated : get_user_from_request system request none w ≡ done ((some user, token), w)
  pub stored : group_find_by_code system code w ≡ done (some group, w)
  pub asked : group_is_member system group user w ≡ done (answer, w)
  pub answered : nonzero answer ≡ member

module _ {W : Type 0} (system : System W) (keeper : KeepsSelects system) (request : Request) (w : W)
    (r : Response) (w' : W) where
  -- The guards that the two handlers share; `test` is on the value of `group_is_member`.
  abbrev member_gate : (ℤ → Bool) → Text → (User → Group → Handler W Response) → Handler W Response
  member_gate test code rest = do
    (found, token) ← get_user_from_request system request none
    require found format_401 (λ user. do
      found_group ← group_find_by_code system code
      require found_group format_404 (λ group. do
        is_member ← group_is_member system group user
        refuse (test is_member) format_403 (rest user group)))

  member_gate-Refused :
      (test : ℤ → Bool) (member : Bool) (code : Text) (rest : User → Group → Handler W Response)
      → ((i : ℤ) → test i ≡ false → nonzero i ≡ member)
      → field system request.body (codes "code") ≡ done (some code)
      → member_gate test code rest w ≡ done (r, w')
      → Refused w r w' (IsMembership system member request w)
  member_gate-Refused test member code rest meaning names h =
      read-Refused w r w' (get_user_from_request system request none) _
        (get_user_from_request-IsReading system keeper request none)
        (λ who authenticated. require-Refused w r w' who.0 format_401 _ refl (λ user is_user.
          read-Refused w r w' (group_find_by_code system code) _
            (group_find_by_code-IsReading system keeper code)
            (λ found stored. require-Refused w r w' found format_404 _ refl (λ group is_group.
              read-Refused w r w' (group_is_member system group user) _
                (group_is_member-IsReading system keeper group user)
                (λ answer asked.
                  refuse-Refused w r w' (test answer) format_403 (rest user group) refl (λ passed e.
                    inr (record {
                      code = code;
                      user = user;
                      token = who.1;
                      group = group;
                      answer = answer;
                      names_group = names;
                      authenticated = authenticated ∙ rw is_user;
                      stored = stored ∙ rw is_group;
                      asked = asked;
                      answered = meaning answer passed;
                    })))))))
        h

  -- Where SELECTs do not write: a `join_group` that returns has refused the request and left the
  -- database and the files as they were, or the request is by a user who is not a member of the
  -- group whose code its body gives.
  pub join_group-IsMembership :
      join_group system request w ≡ done (r, w')
      → Refused w r w' (IsMembership system false request w)
  unfolding join_group
  join_group-IsMembership h =
      lift-Refused w r w' (field system request.body (codes "code")) _
        (λ code named.
          require-Refused w r w' code format_422 _ refl
            (λ c is_code. member_gate-Refused nonzero false c _ (λ i e. e) (named ∙ rw is_code)))
        h

  -- Where SELECTs do not write: a `leave_group` that returns has refused the request and left the
  -- database and the files as they were, or the request is by a user of whom `group_is_member`
  -- does not say 0 for the group whose code its body gives.
  pub leave_group-IsMembership :
      leave_group system request w ≡ done (r, w')
      → Refused w r w' (IsMembership system true request w)
  unfolding leave_group
  leave_group-IsMembership h =
      lift-Refused w r w' (field system request.body (codes "code")) _
        (λ code named. require-Refused w r w' code format_422 _ refl (λ c is_code.
          member_gate-Refused (λ i. not (nonzero i)) true c _ (λ i e. ground arith)
            (named ∙ rw is_code)))
        h
