-- ===== src/Controller/Permissions.antt =====
-- The handlers of group_controller.c and directory_controller.c, by whom they are for.
use file_share_server.Common.{◌≡◌, Bool, true, false, done}
use file_share_server.Database.{System}
use file_share_server.Database.Handlers.{Handler}
use file_share_server.Database.Selects.{KeepsSelects}
use file_share_server.Controller.Response.{Fields, Request, Response}
use file_share_server.Controller.Refusals.{Refused}
use file_share_server.Controller.Groups.{update_group, delete_group}
use file_share_server.Controller.Members.{
  get_group_members, join_group, leave_group, kick_member_group,
}
use file_share_server.Controller.Owners.{
  IsOwner, delete_group-IsOwner, update_group-IsOwner, kick_member_group-IsOwner,
  get_group_members-IsOwner,
}
use file_share_server.Controller.Memberships.{
  IsMembership, join_group-IsMembership, leave_group-IsMembership,
}
use file_share_server.Controller.Directories.{delete_directory, update_directory}
use file_share_server.Controller.NodeOwners.{
  IsDirectoryOwner, delete_directory-IsDirectoryOwner, update_directory-IsDirectoryOwner,
}

-- The handlers that are for the owner of a group.
pub data OwnerRequest : Type 0 where
  deletion : OwnerRequest
  update : OwnerRequest
  kick : OwnerRequest
  listing : OwnerRequest

-- The handlers with which a user joins or leaves a group.
pub data MembershipRequest : Type 0 where
  joining : MembershipRequest
  leaving : MembershipRequest

-- The handlers that are for the owner of a directory.
pub data DirectoryRequest : Type 0 where
  removal : DirectoryRequest
  permission_change : DirectoryRequest

-- Whether one is a member before.
abbrev pub member_before : MembershipRequest → Bool
member_before joining = false
member_before leaving = true

-- The fields that name the group.
abbrev pub group_fields : OwnerRequest → Request → Fields
group_fields deletion request = request.body
group_fields update request = request.body
group_fields kick request = request.body
group_fields listing request = request.query

module _ {W : Type 0} (system : System W) where
  abbrev pub answer_owner : OwnerRequest → Request → Handler W Response
  answer_owner deletion = delete_group system
  answer_owner update = update_group system
  answer_owner kick = kick_member_group system
  answer_owner listing = get_group_members system

  abbrev pub answer_membership : MembershipRequest → Request → Handler W Response
  answer_membership joining = join_group system
  answer_membership leaving = leave_group system

  abbrev pub answer_directory : DirectoryRequest → Request → Handler W Response
  answer_directory removal = delete_directory system
  answer_directory permission_change = update_directory system

module _ {W : Type 0} (system : System W) (keeper : KeepsSelects system) (request : Request) (w : W)
    (r : Response) (w' : W) where
  -- Where SELECTs do not write: each of `delete_group`, `update_group`, `kick_member_group` and
  -- `get_group_members`, if it returns, has refused the request and left the database and the files
  -- as they were, or the request is by the owner of the group whose code its body gives, or its
  -- query for `get_group_members`.
  pub answer_owner-IsOwner :
      (kind : OwnerRequest)
      → answer_owner system kind request w ≡ done (r, w')
      → Refused w r w' (IsOwner system (group_fields kind request) request w)
  answer_owner-IsOwner deletion h = delete_group-IsOwner system keeper request w r w' h
  answer_owner-IsOwner update h = update_group-IsOwner system keeper request w r w' h
  answer_owner-IsOwner kick h = kick_member_group-IsOwner system keeper request w r w' h
  answer_owner-IsOwner listing h = get_group_members-IsOwner system keeper request w r w' h

  -- Where SELECTs do not write: a `join_group` or a `leave_group` that returns has refused the request
  -- and left the database and the files as they were, or the request is by a user of whom
  -- `group_is_member` says 0, for `join_group`, or does not say 0, for `leave_group`, in the group
  -- whose code its body gives.
  pub answer_membership-IsMembership :
      (kind : MembershipRequest)
      → answer_membership system kind request w ≡ done (r, w')
      → Refused w r w' (IsMembership system (member_before kind) request w)
  answer_membership-IsMembership joining h = join_group-IsMembership system keeper request w r w' h
  answer_membership-IsMembership leaving h = leave_group-IsMembership system keeper request w r w' h

  -- Where SELECTs do not write: a `delete_directory` or an `update_directory` that returns has refused
  -- the request and left the database and the files as they were, or the request is by the owner of
  -- the directory whose id its body gives.
  pub answer_directory-IsDirectoryOwner :
      (kind : DirectoryRequest)
      → answer_directory system kind request w ≡ done (r, w')
      → Refused w r w' (IsDirectoryOwner system request w)
  answer_directory-IsDirectoryOwner removal h =
      delete_directory-IsDirectoryOwner system keeper request w r w' h
  answer_directory-IsDirectoryOwner permission_change h =
      update_directory-IsDirectoryOwner system keeper request w r w' h
