-- ===== src/Model/Group.antt =====
-- src/model/group.c.
use file_share_server.Common.{
  ℕ, Option, none, some, [], ◌∷◌, ◌++◌, ℤ, pos, negsuc, int_eq, if◌then◌else◌, Outcome, done,
}
use file_share_server.LinkedList
use file_share_server.LinkedList.{LinkedList}
use file_share_server.Base64.{codes}
use file_share_server.Database.{Text, Row, System, column_text, exec, execute, with_pool}
use file_share_server.Database.Handlers.{Handler, return, lift, ◌>>=◌}
use file_share_server.Model.Support.{
  fit, read, to_int, convert_long_to_string, create_directory, remove_directory,
}
use file_share_server.Model.User.{User, user_find_by_id, found, written}

pub record Group : Type 0 where
  pub id : ℤ
  pub name : Text
  pub description : Option Text
  pub avatar : Option Text
  pub owner_id : ℤ
  pub status : ℤ
  pub code : Option Text
  pub created_at : Option Text
  pub owner : Option User
  pub members : Option (LinkedList User)

abbrev pub upload_dir : Text
upload_dir = codes "./upload"

abbrev pub empty_text : Option Text → Text
empty_text none = []
empty_text (some text) = text

-- The depth of directories that `remove_directory` may reach.
abbrev pub depth : ℕ
depth = 4096

module _ {W : Type 0} (system : System W) where
  -- `id`, `code` and `created_at` are not initialised.
  unfoldable pub group_new : Option Text → Option Text → Option Text → ℤ → Outcome Group
  group_new name description avatar owner_id = elim name [
    | none ↦ Outcome.fault
    | some name ↦ done (record {
      id = system.garbage;
      name = name;
      description = description;
      avatar = avatar;
      owner_id = owner_id;
      status = pos 1;
      code = none;
      created_at = none;
      owner = none;
      members = none;
    })
  ]

  -- `_retreive_code_callback`.
  unfoldable pub retrieve_code_callback : Row → Option Text → Handler W (Option Text)
  retrieve_code_callback res arg = do code ← lift (read (column_text res 0)); return (some code)

  -- `_get_group_callback`.
  unfoldable pub get_group_callback : Row → Option Group → Handler W (Option Group)
  get_group_callback res arg = do
    group ← lift (
        group_new (column_text res 1) (column_text res 2) (column_text res 3)
          (system.column_int64 (column_text res 5)))
    code ← lift (read (column_text res 6))
    created_at ← lift (read (column_text res 7))
    return (
        some (record group {
          id = system.column_int64 (column_text res 0);
          status = system.column_int (column_text res 4);
          code = some code;
          created_at = some created_at;
        }))

  -- `_get_groups_callback`.
  unfoldable pub get_groups_callback : Row → LinkedList Group → Handler W (LinkedList Group)
  get_groups_callback res groups = do
    found_group ← get_group_callback res none
    group ← lift (read found_group)
    lift (LinkedList.insert groups (pos 0) group 120)

  -- `_get_group_members_callback`: a user that is not found is NULL, which `insert` copies from.
  unfoldable pub get_group_members_callback : Row → LinkedList User → Handler W (LinkedList User)
  get_group_members_callback res members = do
    found_user ← user_find_by_id system (system.column_int64 (column_text res 0))
    user ← lift (read found_user)
    lift (LinkedList.insert members (pos 0) user 408)

  -- `_checkable_callback`.
  abbrev pub checkable_callback : Row → ℤ → Handler W ℤ
  checkable_callback res arg = return (pos 1)

  -- The value returned, and the group with its `id` and `code`.
  unfoldable pub group_save : Group → Handler W (ℤ × Group)
  group_save group =
      with_pool system (negsuc 0, group)
        (do
          owner_id ← lift (convert_long_to_string system group.owner_id)
          status ← lift (convert_long_to_string system group.status)
          res ←
              execute system
                "INSERT INTO groups (name, description, avatar, owner_id, status) VALUES (?, ?, ?, ?, ?)"
                (some group.name
                  ∷ group.description
                  ∷ group.avatar
                  ∷ some owner_id
                  ∷ some status
                  ∷ [])
          if int_eq res (pos 0)
              then (do
                last_id ← λ w. return (to_int (system.last_insert_rowid w)) w
                id ← lift (convert_long_to_string system last_id)
                result ←
                    exec system (some retrieve_code_callback) none
                      "SELECT code FROM groups WHERE id = ?" (some id ∷ [])
                if int_eq result.0 (pos 0)
                    then (do
                      code ← lift (read result.1)
                      folder ← lift (fit 100 (upload_dir ++ codes "/" ++ code))
                      let saved : Group = record group { id = last_id; code = some code }
                      made ← λ w. done (create_directory system folder w)
                      if int_eq made (pos 0)
                          then (do
                            joined ←
                                execute system
                                  "INSERT INTO group_members (group_id, user_id) VALUES (?, ?)"
                                  (some id ∷ some owner_id ∷ [])
                            if int_eq joined (pos 0) then return (pos 0, saved) else (do
                              rolled_back ←
                                  execute system "DELETE FROM groups WHERE id = ?" (some id ∷ [])
                              return (negsuc 0, saved)))
                          else (do
                            rolled_back ←
                                execute system "DELETE FROM groups WHERE id = ?" (some id ∷ [])
                            return (negsuc 0, saved)))
                    else return (negsuc 0, record group { id = last_id }))
              else return (negsuc 0, group))

  unfoldable pub group_update : Group → Handler W ℤ
  group_update group = with_pool system (negsuc 0) (do
    status ← lift (convert_long_to_string system group.status)
    id ← lift (convert_long_to_string system group.id)
    res ←
        execute system
          "UPDATE groups SET name = ?, description = ?, avatar = ?, status = ? WHERE id = ?"
          (some group.name ∷ group.description ∷ group.avatar ∷ some status ∷ some id ∷ [])
    return (written system res))

  unfoldable pub group_remove : Group → Handler W ℤ
  group_remove group = with_pool system (negsuc 0) (do
    id ← lift (convert_long_to_string system group.id)
    res ← execute system "DELETE FROM groups WHERE id = ?" (some id ∷ [])
    if int_eq res (pos 0)
        then (do
          code ← lift (read group.code)
          folder ← lift (fit 100 (upload_dir ++ codes "/" ++ code))
          removed ← remove_directory system depth folder
          return (pos 0))
        else return (negsuc 0))

  unfoldable pub group_add_member : Group → User → Handler W ℤ
  group_add_member group user = with_pool system (negsuc 0) (do
    group_id ← lift (convert_long_to_string system group.id)
    user_id ← lift (convert_long_to_string system user.id)
    res ←
        execute system "INSERT INTO group_members (group_id, user_id) VALUES (?, ?)"
          (some group_id ∷ some user_id ∷ [])
    return (written system res))

  unfoldable pub group_leave : Group → User → Handler W ℤ
  group_leave group user = with_pool system (negsuc 0) (do
    group_id ← lift (convert_long_to_string system group.id)
    user_id ← lift (convert_long_to_string system user.id)
    res ←
        execute system "DELETE FROM group_members WHERE group_id = ? AND user_id = ?"
          (some group_id ∷ some user_id ∷ [])
    return (written system res))

  -- The owner, and the group that keeps it.
  pub group_get_owner : Group → Handler W (Option User × Group)
  group_get_owner group = elim group.owner [
    | some user ↦ return (some user, group)
    | none ↦ do
      user ← user_find_by_id system group.owner_id
      return (user, record group { owner = user })
  ]

  -- The members; the group keeps them.
  unfoldable pub group_get_members : Group → Handler W (Option (LinkedList User))
  group_get_members group = elim group.members [
    | some members ↦ return (some members)
    | none ↦ with_pool system none (do
      id ← lift (convert_long_to_string system group.id)
      result ←
          exec system (some get_group_members_callback) LinkedList.linked_list_constructor
            "SELECT user_id FROM group_members WHERE group_id = ?" (some id ∷ [])
      return (if int_eq result.0 (pos 0) then some result.1 else none))
  ]

  -- The value that a checking query returns.
  abbrev checked : ℤ × ℤ → ℤ
  checked result = if int_eq result.0 (pos 0) then result.1 else negsuc 0

  unfoldable pub group_is_member : Group → User → Handler W ℤ
  group_is_member group user = with_pool system (negsuc 0) (do
    group_id ← lift (convert_long_to_string system group.id)
    user_id ← lift (convert_long_to_string system user.id)
    result ←
        exec system (some checkable_callback) (pos 0)
          "SELECT 1 FROM group_members WHERE group_id = ? AND user_id = ?"
          (some group_id ∷ some user_id ∷ [])
    return (checked result))

  unfoldable pub group_has_directory : Group → ℤ → Handler W ℤ
  group_has_directory group directory_id = with_pool system (negsuc 0) (do
    group_id ← lift (convert_long_to_string system group.id)
    id ← lift (convert_long_to_string system directory_id)
    result ←
        exec system (some checkable_callback) (pos 0)
          "SELECT 1 FROM directories WHERE group_id = ? AND id = ?" (some group_id ∷ some id ∷ [])
    return (checked result))

  unfoldable pub group_to_json : Group → Outcome Text
  group_to_json group = elim group.code [
    | none ↦ Outcome.fault
    | some code ↦ elim group.created_at [
      | none ↦ Outcome.fault
      | some created_at ↦ fit 4096 (
          codes "{\"id\":"
          ++ system.print_long group.id
          ++ codes ",\"name\":\""
          ++ group.name
          ++ codes "\",\"description\":\""
          ++ empty_text group.description
          ++ codes "\",\"avatar\":\""
          ++ empty_text group.avatar
          ++ codes "\",\"status\":"
          ++ system.print_long group.status
          ++ codes ",\"code\": \""
          ++ code
          ++ codes "\",\"owner_id\":"
          ++ system.print_long group.owner_id
          ++ codes ",\"created_at\":\""
          ++ created_at
          ++ codes "\"}")
    ]
  ]

  unfoldable pub group_find_by_id : ℤ → Handler W (Option Group)
  group_find_by_id id = with_pool system none (do
    value ← lift (convert_long_to_string system id)
    result ←
        exec system (some get_group_callback) none
          "SELECT id, name, description, avatar, status, owner_id, code, created_at FROM groups WHERE id = ?"
          (some value ∷ [])
    return (found system result))

  pub group_find_by_name : Text → Handler W (Option Group)
  group_find_by_name name = with_pool system none (do
    result ←
        exec system (some get_group_callback) none
          "SELECT id, name, description, avatar, status, owner_id, code, created_at FROM groups WHERE name = ?"
          (some name ∷ [])
    return (found system result))

  unfoldable pub group_find_by_code : Text → Handler W (Option Group)
  group_find_by_code code = with_pool system none (do
    result ←
        exec system (some get_group_callback) none
          "SELECT id, name, description, avatar, status, owner_id, code, created_at FROM groups WHERE code = ?"
          (some code ∷ [])
    return (found system result))

  unfoldable pub group_find_by_member : ℤ → Handler W (Option (LinkedList Group))
  group_find_by_member member_id = with_pool system none (do
    value ← lift (convert_long_to_string system member_id)
    result ←
        exec system (some get_groups_callback) LinkedList.linked_list_constructor
          "SELECT groups.id, name, description, avatar, status, owner_id, code, groups.created_at FROM groups INNER JOIN group_members ON groups.id = group_members.group_id WHERE user_id = ?"
          (some value ∷ [])
    return (if int_eq result.0 (pos 0) then some result.1 else none))
